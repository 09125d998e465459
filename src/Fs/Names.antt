-- ===== src/Fs/Names.antt =====
-- Paths of fslab/fs.c. A path is the list of its characters; a pointer into it is what is left.
pub mod Fuel
pub mod ParentFuel
use ics.Common.{
  ℕ, zero, suc, ◌+◌, Bool, true, false, not, Option, none, some, [], ◌∷◌, ◌==◌, if◌then◌else◌,
  length,
}
use ics.Bytes.{Buffer}
use ics.Fs.Disk.{Disk}
use ics.Fs.Alloc.{Out, enotdir, enoent, done, failed, faulted}
use ics.Fs.Inode.{inode_read, root_inode, Inode}
use ics.Fs.Dir.{
  Name, entries_count, entry_inode_id, entries_read, entries_find, Lookup, overrun, absent, hit,
}

abbrev pub slash : ℕ
slash = b'/'

-- `if (*path == '/') path++;`
unfoldable pub skip_slash : Name → Name
skip_slash [] = []
skip_slash (c ∷ cs) = if c == slash then cs else c ∷ cs

-- The first name of a path, up to `strchrnul(path, '/')`, and the path from there on.
unfoldable pub first_name : Name → Name
first_name [] = []
first_name (c ∷ cs) = if c == slash then [] else c ∷ first_name cs

unfoldable pub behind_name : Name → Name
behind_name [] = []
behind_name (c ∷ cs) = if c == slash then c ∷ cs else behind_name cs

-- `entry->inode_id`, where an entry was found.
unfoldable pub found_id : Buffer → Lookup → Lookup
found_id entries overrun = overrun
found_id entries absent = absent
found_id entries (hit i) = hit (entry_inode_id entries i)

-- What a lookup in a directory finds: the inode id.
unfoldable pub lookup_name : Disk → Inode → Name → Buffer → Lookup
unfolding found_id
lookup_name d directory name scratch = elim (entries_read d directory scratch) [
  | none ↦ overrun
  | some entries ↦ found_id entries (entries_find entries (entries_count directory) name)
]

-- The steps of a round of `resolve_path` for one name; `continue` is the rest, with the id found.
unfoldable pub resolve_next :
    Disk → Buffer → Inode → Name → (ℕ → Option (Out (Inode × ℕ))) → Option (Out (Inode × ℕ))
resolve_next d scratch inode name continue =
    if not inode.is_directory
    then some (failed enotdir d)
    else elim (lookup_name d inode name scratch) [
      | overrun ↦ some faulted
      | absent ↦ some (failed enoent d)
      | hit id ↦ continue id
    ]

-- The loop of `resolve_path` from an inode on; `none` means that the fuel ran out.
unfoldable pub resolve_from : ℕ → Disk → Buffer → Inode → ℕ → Name → Option (Out (Inode × ℕ))
resolve_from zero d scratch inode inode_id path = none
resolve_from (suc fuel) d scratch inode inode_id path = elim (skip_slash path) [
  | [] ↦ some (done (inode, inode_id) d)
  | c ∷ cs ↦
      resolve_next d scratch inode (first_name (c ∷ cs))
        λ id. resolve_from fuel d scratch (inode_read d id) id (behind_name (c ∷ cs))
]

abbrev pub or_fault {ℓ} : {A : Type ℓ} → Option (Out A) → Out A
or_fault none = faulted
or_fault (some out) = out

unfoldable pub resolve_path : Disk → Buffer → Name → Out (Inode × ℕ)
resolve_path d scratch path =
    or_fault (resolve_from (length path + 1) d scratch (inode_read d root_inode) root_inode path)

-- `directory_inode`, `*directory_inode_id` and `basename_buffer`.
pub record Parent : Type 0 where
  pub directory : Inode
  pub directory_id : ℕ
  pub basename : Name

-- A round of `resolve_parent_path`: `continue` takes the inode, its id and `found_non_exist`.
unfoldable pub parent_next :
    Disk
    → Buffer
    → Inode
    → ℕ
    → Bool
    → Name
    → (Inode → ℕ → Bool → Option (Out Parent))
    → Option (Out Parent)
parent_next d scratch inode inode_id found_non_exist name continue =
    if found_non_exist
    then some (failed enoent d)
    else if not inode.is_directory
    then some (failed enotdir d)
    else elim (lookup_name d inode name scratch) [
      | overrun ↦ some faulted
      | absent ↦ continue inode inode_id true
      | hit id ↦ continue (inode_read d id) id false
    ]

-- The loop of `resolve_parent_path`. Where it ends with no name seen, `directory_inode` was never
-- set.
unfoldable pub parent_from :
    ℕ → Disk → Buffer → Inode → ℕ → Bool → Option Parent → Name → Option (Out Parent)
parent_from zero d scratch inode inode_id found_non_exist parent path = none
parent_from (suc fuel) d scratch inode inode_id found_non_exist parent path =
    elim (skip_slash path) [
      | [] ↦ some (elim parent [ none ↦ faulted | some p ↦ done p d ])
      | c ∷ cs ↦
          let name = first_name (c ∷ cs) in
          let p : Parent = record { directory = inode; directory_id = inode_id; basename = name } in
          parent_next d scratch inode inode_id found_non_exist name λ inode' id' found'.
            parent_from fuel d scratch inode' id' found' (some p) (behind_name (c ∷ cs))
    ]

unfoldable pub resolve_parent_path : Disk → Buffer → Name → Out Parent
resolve_parent_path d scratch path =
    or_fault
      (parent_from (length path + 1) d scratch (inode_read d root_inode) root_inode false none path)
