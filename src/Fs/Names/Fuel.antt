-- ===== src/Fs/Names/Fuel.antt =====
-- The loops over a path end: every round consumes a character.
use ics.Common.{
  ℕ, zero, suc, ◌+◌, ◌≤◌, ◌<◌, ◌≡◌, refl, inl, inr, Bool, true, false, not, Option, some, [], ◌∷◌,
  arith, ◌==◌, if◌then◌else◌, Bool-cases, length,
}
use ics.Bytes.{Buffer}
use ics.Fs.Disk.{Disk}
use ics.Fs.Alloc.{Out, enotdir, enoent, done, failed, faulted}
use ics.Fs.Inode.{inode_read, root_inode, Inode}
use ics.Fs.Dir.{Name, Lookup, overrun, absent, hit}
use ics.Fs.Names.{
  slash, skip_slash, first_name, behind_name, lookup_name, resolve_next, resolve_from, resolve_path,
}

length-behind_name : (cs : Name) → length (behind_name cs) ≤ length cs
unfolding behind_name
length-behind_name [] = omega arith
length-behind_name (c ∷ cs) = ground (arith, length-behind_name cs)

-- What is left behind the first name is shorter than the path.
abbrev pub Consumed : Name → Name → Type 0
Consumed path [] = Unit
Consumed path (c ∷ cs) = length (behind_name (c ∷ cs)) < length path

Consumed-tail : (c : ℕ) (cs : Name) → Consumed (c ∷ cs) cs
Consumed-tail c [] = tt
Consumed-tail c (d ∷ ds) = omega (arith, length-behind_name (d ∷ ds))

pub skip_slash-Consumed : (path : Name) → Consumed path (skip_slash path)
unfolding skip_slash behind_name
skip_slash-Consumed [] = tt
skip_slash-Consumed (c ∷ cs) = elim (Bool-cases (c == slash)) [
  | inl e ↦ rw e (Consumed-tail c cs)
  | inr e ↦ rw (e, e) (omega (arith, length-behind_name cs))
]

abbrev Answers : Option (Out (Inode × ℕ)) → Type 0
Answers r = (out : Out (Inode × ℕ)) × (r ≡ some out)

resolve_next-Answers :
    (d : Disk) (scratch : Buffer) (inode : Inode) (name : Name)
    (continue : ℕ → Option (Out (Inode × ℕ)))
    → ((id : ℕ) → Answers (continue id))
    → Answers (resolve_next d scratch inode name continue)
unfolding resolve_next
resolve_next-Answers d scratch inode name continue h =
    split inode.is_directory (lookup_name d inode name scratch)
  where
    split :
        (is_directory : Bool) (r : Lookup)
        → Answers (
            if not is_directory then some (failed enotdir d) else elim r [
              | overrun ↦ some faulted
              | absent ↦ some (failed enoent d)
              | hit id ↦ continue id
            ])
    split false r = (failed enotdir d, refl)
    split true overrun = (faulted, refl)
    split true absent = (failed enoent d, refl)
    split true (hit id) = h id

resolve_from-Answers :
    (fuel : ℕ) (d : Disk) (scratch : Buffer) (inode : Inode) (inode_id : ℕ) (path : Name)
    → length path < fuel
    → Answers (resolve_from fuel d scratch inode inode_id path)
unfolding resolve_from
resolve_from-Answers zero d scratch inode inode_id path h = absurd (omega arith)
resolve_from-Answers (suc fuel) d scratch inode inode_id path h =
    round (skip_slash path) (skip_slash-Consumed path)
      λ id rest lt. resolve_from-Answers fuel d scratch (inode_read d id) id rest (omega arith)
  where
    round :
        (r : Name)
        → Consumed path r
        → ((id : ℕ) (rest : Name)
            → length rest < length path
            → Answers (resolve_from fuel d scratch (inode_read d id) id rest))
        → Answers (elim r [
          | [] ↦ some (done (inode, inode_id) d)
          | c ∷ cs ↦
              resolve_next d scratch inode
                (first_name (c ∷ cs))
                λ id. resolve_from fuel d scratch (inode_read d id) id (behind_name (c ∷ cs))
        ])
    round [] k rec = (done (inode, inode_id) d, refl)
    round (c ∷ cs) k rec =
        resolve_next-Answers d scratch inode (first_name (c ∷ cs)) _
          λ id. rec id (behind_name (c ∷ cs)) k

-- The fuel that `resolve_path` has suffices for every path: its result is the loop's own.
pub resolve_path_total :
    (d : Disk) (scratch : Buffer) (path : Name)
    → resolve_from (length path + 1) d scratch (inode_read d root_inode) root_inode path
      ≡ some (resolve_path d scratch path)
unfolding resolve_path
resolve_path_total d scratch path =
    let (out, e) =
      resolve_from-Answers (length path + 1) d scratch (inode_read d root_inode) root_inode path
        (omega arith) in
    rw e
