-- ===== src/Fs/File.antt =====
-- File contents in fslab/fs.c: `fs_read`, `fs_write` and `fs_truncate`. `buffer` is the caller's.
pub mod Blocks
pub mod Assign
pub mod Write
pub mod Written
pub mod Whole
pub mod Outcome
pub mod RoundTrip
pub mod Truncate
use ics.Common.{
  ℕ, zero, suc, ◌+◌, ◌-◌, ◌*◌, ◌/◌, ◌%◌, min, max, Bool, true, not, ◌&&◌, List, [], ◌∷◌, ltb, ◌==◌,
  if◌then◌else◌,
}
use ics.Bytes.{Buffer, copy, clear}
use ics.Fs.Disk.{block_size, Disk, block_read, block_write, pointer_block_item_count}
use ics.Fs.Alloc.{◌>>=◌, block_new_many, block_delete, Out, eisdir, done, failed, faulted}
use ics.Fs.Inode.{inode_write, block_count_from_size, id_at, put_id, ids_from, Inode}
use ics.Fs.Dir.{Name}
use ics.Fs.Names.{resolve_path}

-- A round of FOR_DATA_BLOCKS: the block's index, where the bytes lie in it, and how many.
pub record Piece : Type 0 where
  pub index : ℕ
  pub start : ℕ
  pub bytes : ℕ

-- The rounds of FOR_DATA_BLOCKS; each leaves fewer bytes, so `size` rounds are enough.
unfoldable pub pieces_from : ℕ → ℕ → ℕ → ℕ → List Piece
pieces_from zero i offset_in_block size_remain = []
pieces_from (suc fuel) i offset_in_block size_remain =
    let bytes = min (block_size - offset_in_block) size_remain in
    let rest = pieces_from fuel (i + 1) 0 (size_remain - bytes) in
    if bytes == 0 then [] else (record { index = i; start = offset_in_block; bytes = bytes }) ∷ rest

unfoldable pub pieces : ℕ → ℕ → List Piece
pieces size offset = pieces_from size (offset / block_size) (offset % block_size) size

-- Every index lies within the pointer block; otherwise `block_ids[i]` is outside the array.
unfoldable pub in_pointer_block : List Piece → Bool
in_pointer_block [] = true
in_pointer_block (p ∷ ps) = ltb p.index pointer_block_item_count && in_pointer_block ps

-- `at` is how far `buffer` has moved.
unfoldable pub read_pieces : Disk → Buffer → List Piece → Buffer → ℕ → Buffer
read_pieces d pointers [] buffer at = buffer
read_pieces d pointers (p ∷ ps) buffer at =
    read_pieces d pointers ps
      (copy p.bytes buffer at (block_read d (id_at pointers p.index)) p.start) (at + p.bytes)

-- The result with the buffer that the caller gets back.
unfoldable pub fs_read : Disk → Buffer → ℕ → Name → Buffer → ℕ → ℕ → Out (ℕ × Buffer)
fs_read d scratch now path buffer size offset = resolve_path d scratch path >>= λ found d.
    let (inode, inode_id) = found in
    if inode.is_directory
    then failed eisdir d
    else if not (in_pointer_block (pieces size offset))
    then faulted
    else done (size, read_pieces d (block_read d inode.pointer_block) (pieces size offset) buffer 0)
        (inode_write d inode_id (record inode { atime = now }))

-- `new_blocks_needed`
unfoldable pub count_missing : Buffer → List Piece → ℕ
count_missing pointers [] = 0
count_missing pointers (p ∷ ps) =
    (if id_at pointers p.index == 0 then 1 else 0) + count_missing pointers ps

-- `new_block_ids[i]`, 0 where the array ends.
unfoldable pub nth_id : List ℕ → ℕ → ℕ
nth_id [] i = 0
nth_id (x ∷ xs) zero = x
nth_id (x ∷ xs) (suc i) = nth_id xs i

-- The second loop of `fs_write`: the disk and the pointer block, with `needed` new ids left.
unfoldable pub write_pieces : Disk → Buffer → List ℕ → ℕ → List Piece → Buffer → ℕ → Disk × Buffer
write_pieces d pointers new_ids needed [] buffer at = (d, pointers)
write_pieces d pointers new_ids needed (p ∷ ps) buffer at =
    let missing = id_at pointers p.index == 0 in
    let needed' = if missing then needed - 1 else needed in
    let pointers' =
      if missing then put_id pointers p.index (nth_id new_ids needed') else pointers in
    let id = id_at pointers' p.index in
    write_pieces (block_write d id (copy p.bytes (block_read d id) p.start buffer at)) pointers'
      new_ids needed' ps buffer (at + p.bytes)

unfoldable pub fs_write : Disk → Buffer → ℕ → Name → Buffer → ℕ → ℕ → Out ℕ
fs_write d scratch now path buffer size offset = resolve_path d scratch path >>= λ found d.
    let (inode, inode_id) = found in
    if inode.is_directory
    then failed eisdir d
    else if not (in_pointer_block (pieces size offset))
    then faulted
    else let pointers = block_read d inode.pointer_block in
      let needed = count_missing pointers (pieces size offset) in
      block_new_many needed d >>= λ new_ids d.
      let (d', pointers') = write_pieces d pointers new_ids needed (pieces size offset) buffer 0 in
      done size (
        inode_write (block_write d' inode.pointer_block pointers') inode_id
          (record inode { ctime = now; atime = now; size = max inode.size (size + offset) }))

-- `block_ids[i] = new_block_ids[--n]` for `n` indices from `i` on.
unfoldable pub fill_ids : ℕ → Buffer → ℕ → List ℕ → Buffer
fill_ids zero pointers i new_ids = pointers
fill_ids (suc n) pointers i new_ids =
    fill_ids n (put_id pointers i (nth_id new_ids n)) (i + 1) new_ids

-- The branch of `fs_truncate` for a larger size.
unfoldable pub grow : Disk → Inode → Buffer → ℕ → Out Buffer
grow d inode pointers size =
    let old_count = block_count_from_size inode.size in
    let new_count = block_count_from_size size in
    block_new_many (new_count - old_count) d >>= λ new_ids d.
    if ltb pointer_block_item_count new_count
    then faulted
    else done (fill_ids (new_count - old_count) pointers old_count new_ids) d

-- The branch for a size that is not larger: the tail of the last block is cleared, and the blocks
-- behind it are deleted.
unfoldable pub shrink : Disk → Inode → Buffer → ℕ → Out Buffer
shrink d inode pointers size =
    let old_count = block_count_from_size inode.size in
    let new_count = block_count_from_size size in
    let tail = size % block_size in
    let last = id_at pointers (new_count - 1) in
    let d1 =
      if tail == 0
      then d
      else block_write d last (clear (block_size - tail) (block_read d last) tail) in
    if ltb pointer_block_item_count old_count
    then faulted
    else done (clear (2 * (old_count - new_count)) pointers (2 * new_count))
        (block_delete d1 (ids_from (old_count - new_count) pointers new_count))

unfoldable pub fs_truncate : Disk → Buffer → ℕ → Name → ℕ → Out (Unit {0})
fs_truncate d scratch now path size = resolve_path d scratch path >>= λ found d.
    let (inode, inode_id) = found in
    if inode.is_directory
    then failed eisdir d
    else let pointers = block_read d inode.pointer_block in
      (if ltb inode.size size then grow d inode pointers size else shrink d inode pointers size)
      >>= λ pointers' d. done tt (
          inode_write (block_write d inode.pointer_block pointers') inode_id
            (record inode { size = size; ctime = now }))
