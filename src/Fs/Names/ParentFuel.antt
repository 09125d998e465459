-- ===== src/Fs/Names/ParentFuel.antt =====
-- The loop of `resolve_parent_path` ends: every round consumes a character.
use ics.Common.{
  ℕ, zero, suc, ◌+◌, ◌<◌, ◌≡◌, refl, Bool, true, false, not, Option, none, some, [], ◌∷◌, arith,
  if◌then◌else◌, length,
}
use ics.Bytes.{Buffer}
use ics.Fs.Disk.{Disk}
use ics.Fs.Alloc.{Out, enotdir, enoent, done, failed, faulted}
use ics.Fs.Inode.{inode_read, root_inode, Inode}
use ics.Fs.Dir.{Name, Lookup, overrun, absent, hit}
use ics.Fs.Names.{
  skip_slash, first_name, behind_name, lookup_name, parent_next, parent_from, resolve_parent_path,
  Parent,
}
use ics.Fs.Names.Fuel.{Consumed, skip_slash-Consumed}

abbrev Answers : Option (Out Parent) → Type 0
Answers r = (out : Out Parent) × (r ≡ some out)

parent_next-Answers :
    (d : Disk) (scratch : Buffer) (inode : Inode) (inode_id : ℕ) (found_non_exist : Bool)
    (name : Name) (continue : Inode → ℕ → Bool → Option (Out Parent))
    → ((inode' : Inode) (id : ℕ) (found : Bool) → Answers (continue inode' id found))
    → Answers (parent_next d scratch inode inode_id found_non_exist name continue)
unfolding parent_next
parent_next-Answers d scratch inode inode_id found_non_exist name continue h =
    split found_non_exist inode.is_directory (lookup_name d inode name scratch)
  where
    split :
        (found is_directory : Bool) (r : Lookup)
        → Answers (
            if found
            then some (failed enoent d)
            else if not is_directory
            then some (failed enotdir d)
            else elim r [
              | overrun ↦ some faulted
              | absent ↦ continue inode inode_id true
              | hit id ↦ continue (inode_read d id) id false
            ])
    split true dir r = (failed enoent d, refl)
    split false false r = (failed enotdir d, refl)
    split false true overrun = (faulted, refl)
    split false true absent = h inode inode_id true
    split false true (hit id) = h (inode_read d id) id false

ended :
    (d : Disk) (parent : Option Parent)
    → Answers (some (elim parent [ none ↦ faulted | some p ↦ done p d ]))
ended d none = (faulted, refl)
ended d (some p) = (done p d, refl)

parent_from-Answers :
    (fuel : ℕ) (d : Disk) (scratch : Buffer) (inode : Inode) (inode_id : ℕ) (found_non_exist : Bool)
    (parent : Option Parent) (path : Name)
    → length path < fuel
    → Answers (parent_from fuel d scratch inode inode_id found_non_exist parent path)
unfolding parent_from
parent_from-Answers zero d scratch inode inode_id found_non_exist parent path h =
    absurd (omega arith)
parent_from-Answers (suc fuel) d scratch inode inode_id found_non_exist parent path h =
    round (skip_slash path) (skip_slash-Consumed path) λ inode' id found p rest lt.
      parent_from-Answers fuel d scratch inode' id found p rest (omega arith)
  where
    round :
        (r : Name)
        → Consumed path r
        → ((inode' : Inode) (id : ℕ) (found : Bool) (p : Option Parent) (rest : Name)
            → length rest < length path
            → Answers (parent_from fuel d scratch inode' id found p rest))
        → Answers (elim r [
          | [] ↦ some (elim parent [ none ↦ faulted | some p ↦ done p d ])
          | c ∷ cs ↦
              let name = first_name (c ∷ cs) in
              let p : Parent = record {
                directory = inode;
                directory_id = inode_id;
                basename = name;
              } in
              parent_next d scratch inode inode_id found_non_exist name λ inode' id' found'.
                parent_from fuel d scratch inode' id' found' (some p) (behind_name (c ∷ cs))
        ])
    round [] k rec = ended d parent
    round (c ∷ cs) k rec =
        parent_next-Answers d scratch inode inode_id found_non_exist (first_name (c ∷ cs)) _
          λ inode' id found. rec inode' id found _ (behind_name (c ∷ cs)) k

-- The fuel that `resolve_parent_path` has suffices for every path: its result is the loop's own.
pub resolve_parent_path_total :
    (d : Disk) (scratch : Buffer) (path : Name)
    → parent_from (length path + 1) d scratch (inode_read d root_inode) root_inode false none path
      ≡ some (resolve_parent_path d scratch path)
unfolding resolve_parent_path
resolve_parent_path_total d scratch path =
    let (out, e) =
      parent_from-Answers (length path + 1) d scratch (inode_read d root_inode) root_inode false
        none path (omega arith) in
    rw e
