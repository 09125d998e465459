-- ===== src/Fs/Dir.antt =====
-- Directories of fslab/fs.c: arrays of 26-byte entries in the blocks of an inode. `scratch` is what
-- the static array `entries` holds before a call.
pub mod Extend
pub mod Find
pub mod RoundTrip
pub mod Insert
use ics.Common.{
  ℕ, zero, suc, ◌+◌, ◌-◌, ◌*◌, ◌/◌, Bool, true, ◌&&◌, Option, none, some, List, [], ◌∷◌, ltb, ◌==◌,
  if◌then◌else◌, length,
}
use ics.Bytes.{Buffer, get_le, put_le, copy, clear}
use ics.Fs.Disk.{
  block_size, Disk, block_read, block_write, from, inode_num, pointer_block_item_count,
}
use ics.Fs.Alloc.{◌>>=◌, block_new, block_delete, Out, done, faulted}
use ics.Fs.Inode.{block_count_from_size, id_at, put_id, ids_from, Inode}

abbrev pub Name : Type 0
Name = List ℕ

abbrev pub entry_name_length : ℕ
entry_name_length = 24

-- `sizeof(entry_t)`: the name, and a 2-byte inode id.
abbrev pub entry_size : ℕ
entry_size = 26

-- The blocks that `static entry_t entries[INODE_NUM]` has room for.
abbrev pub entries_blocks : ℕ
entries_blocks = inode_num * entry_size / block_size

unfoldable pub entries_count : Inode → ℕ
entries_count directory = directory.size / entry_size

abbrev pub entry_inode_id : Buffer → ℕ → ℕ
entry_inode_id entries i = get_le 2 entries (i * entry_size + entry_name_length)

-- `n` blocks of a directory, from index `i` on.
unfoldable pub read_loop : ℕ → Disk → Buffer → ℕ → Buffer → Buffer
read_loop zero d pointers i buffer = buffer
read_loop (suc n) d pointers i buffer =
    read_loop n d pointers (i + 1)
      (copy block_size buffer (i * block_size) (block_read d (id_at pointers i)) 0)

-- `none` is a directory that is larger than the array of entries, which the loop then overruns. The
-- array is smaller than what a pointer block reaches.
unfoldable pub entries_read : Disk → Inode → Buffer → Option Buffer
entries_read d directory scratch =
    let count = block_count_from_size directory.size in
    if ltb entries_blocks count
    then none
    else some (read_loop count d (block_read d directory.pointer_block) 0 scratch)

-- The block ids are read before `block_new`, and the pointer block is written after it.
unfoldable pub entries_extend : Disk → Inode → Out (Unit {0})
entries_extend d directory =
    let old_count = block_count_from_size directory.size in
    let new_count = block_count_from_size (directory.size + 1) in
    let pointers = block_read d directory.pointer_block in
    if old_count == new_count
    then done tt d
    else block_new d >>= λ id d'.
        if ltb pointer_block_item_count new_count
        then faulted
        else done tt (block_write d' directory.pointer_block (put_id pointers (new_count - 1) id))

unfoldable pub write_loop : ℕ → Disk → Buffer → ℕ → Buffer → Disk
write_loop zero d pointers i entries = d
write_loop (suc n) d pointers i entries =
    write_loop n (block_write d (id_at pointers i) (from entries (i * block_size))) pointers (i + 1)
      entries

-- The loop that counts the blocks behind the directory's end: `n` indices are left from `i` on.
unfoldable pub count_ids : ℕ → Buffer → ℕ → ℕ
count_ids zero pointers i = 0
count_ids (suc n) pointers i =
    let rest = count_ids n pointers (i + 1) in if id_at pointers i == 0 then 0 else suc rest

-- The pointer block is read at the start, and written back with the deleted ids cleared. The directory
-- is not larger than the array of entries: the callers have read it with `entries_read`.
unfoldable pub entries_write : Disk → Inode → Buffer → Disk
entries_write d directory entries =
    let pointers = block_read d directory.pointer_block in
    let count = block_count_from_size directory.size in
    let d1 = write_loop count d pointers 0 entries in
    let unused = count_ids (pointer_block_item_count - count) pointers count in
    let d2 = block_delete d1 (ids_from unused pointers count) in
    block_write d2 directory.pointer_block (clear (2 * unused) pointers (2 * count))

-- `normalized_name`: the name, filled up with zeros.
unfoldable pub normalized : Name → Buffer
normalized [] k = 0
normalized (c ∷ cs) k = if k == 0 then c else normalized cs (k - 1)

-- `memcmp(b + off, name, n) == 0`
unfoldable pub same_bytes : ℕ → Buffer → ℕ → Buffer → ℕ → Bool
same_bytes zero b off name at = true
same_bytes (suc n) b off name at = b off == name at && same_bytes n b (off + 1) name (at + 1)

-- The loop of `entries_find`: the index of the first entry with the name, `n` being left from `i` on.
unfoldable pub find_loop : ℕ → Buffer → Buffer → ℕ → Option ℕ
find_loop zero entries name i = none
find_loop (suc n) entries name i =
    let rest = find_loop n entries name (i + 1) in
    if same_bytes entry_name_length entries (i * entry_size) name 0 then some i else rest

-- The result of a search in a directory; `overrun` is a write outside an array.
pub data Lookup : Type 0 where
  overrun : Lookup
  absent : Lookup
  hit : ℕ → Lookup

abbrev pub to_lookup : Option ℕ → Lookup
to_lookup none = absent
to_lookup (some i) = hit i

-- `memcpy(buffer, name, length)` overruns `normalized_name` with a longer name.
abbrev pub too_long : Name → Bool
too_long name = ltb entry_name_length (length name)

-- The index of the entry with the name.
unfoldable pub entries_find : Buffer → ℕ → Name → Lookup
entries_find entries count name =
    if too_long name then overrun else to_lookup (find_loop count entries (normalized name) 0)

-- `memcpy(entries[i].name, basename, ENTRY_NAME_LENGTH)`
abbrev pub put_name : Buffer → ℕ → Name → Buffer
put_name entries i name = copy entry_name_length entries (i * entry_size) (normalized name) 0

abbrev pub put_entry_id : Buffer → ℕ → ℕ → Buffer
put_entry_id entries i id = put_le 2 entries (i * entry_size + entry_name_length) id

-- `memmove(entry, entry + 1, …)`: the entries behind index `i` of `count` move down.
abbrev pub drop_entry : Buffer → ℕ → ℕ → Buffer
drop_entry entries i count =
    copy ((count - (i + 1)) * entry_size) entries (i * entry_size) entries ((i + 1) * entry_size)
