-- ===== src/Fs/Inode.antt =====
-- The inodes of fslab/fs.c: their places in the inode table and the life of one. `now` is what
-- `time(NULL)` returns.
pub mod Table
use ics.Common.{
  ℕ, zero, suc, ◌+◌, ◌-◌, ◌*◌, ◌/◌, ◌%◌, Bool, true, not, List, [], ◌∷◌, ltb, ◌==◌, if◌then◌else◌,
}
use ics.Bytes.{Buffer, get_le, put_le}
use ics.Fs.Disk.{
  block_size, Disk, block_read, block_write, inode_size, inode_block_start,
  pointer_block_item_count,
}
use ics.Fs.Alloc.{◌>>=◌, block_new, block_delete, inode_delete, Out, done, faulted}

pub record Inode : Type 0 where
  pub atime : ℕ
  pub mtime : ℕ
  pub ctime : ℕ
  pub size : ℕ
  pub is_directory : Bool
  pub pointer_block : ℕ

-- `inode_t` in a buffer: three 8-byte times, a 4-byte size, a 1-byte flag, a byte that is not used,
-- and a 2-byte block id.
unfoldable pub load_inode : Buffer → ℕ → Inode
load_inode b off = record {
  atime = get_le 8 b off;
  mtime = get_le 8 b (off + 8);
  ctime = get_le 8 b (off + 16);
  size = get_le 4 b (off + 24);
  is_directory = not (get_le 1 b (off + 28) == 0);
  pointer_block = get_le 2 b (off + 30);
}

unfoldable pub store_inode : Buffer → ℕ → Inode → Buffer
store_inode b off inode =
    let b1 = put_le 8 b off inode.atime in
    let b2 = put_le 8 b1 (off + 8) inode.mtime in
    let b3 = put_le 8 b2 (off + 16) inode.ctime in
    let b4 = put_le 4 b3 (off + 24) inode.size in
    let b5 = put_le 1 b4 (off + 28) (if inode.is_directory then 1 else 0) in
    put_le 2 b5 (off + 30) inode.pointer_block

-- `*block_id` and `*offset_in_block` of `inode_resolve`.
abbrev pub inode_block : ℕ → ℕ
inode_block inode_id = inode_block_start + inode_id * inode_size / block_size

abbrev pub inode_offset : ℕ → ℕ
inode_offset inode_id =
    inode_id * inode_size - (inode_block inode_id - inode_block_start) * block_size

unfoldable pub inode_read : Disk → ℕ → Inode
inode_read d inode_id = load_inode (block_read d (inode_block inode_id)) (inode_offset inode_id)

unfoldable pub inode_write : Disk → ℕ → Inode → Disk
inode_write d inode_id inode =
    let block_id = inode_block inode_id in
    block_write d block_id (store_inode (block_read d block_id) (inode_offset inode_id) inode)

abbrev pub root_inode : ℕ
root_inode = 0

unfoldable pub inode_initialize : Disk → ℕ → Bool → ℕ → Out (Unit {0})
inode_initialize d inode_id is_directory now = block_new d >>= λ pointer d'. done tt (
    inode_write d' inode_id (record {
      atime = now;
      mtime = now;
      ctime = now;
      size = 0;
      is_directory = is_directory;
      pointer_block = pointer;
    }))

-- `size / BLOCK_SIZE + !!(size % BLOCK_SIZE)`
unfoldable pub block_count_from_size : ℕ → ℕ
block_count_from_size size = size / block_size + (if size % block_size == 0 then 0 else 1)

-- `block_ids[i]` of a pointer block.
abbrev pub id_at : Buffer → ℕ → ℕ
id_at pointers i = get_le 2 pointers (2 * i)

abbrev pub put_id : Buffer → ℕ → ℕ → Buffer
put_id pointers i id = put_le 2 pointers (2 * i) id

-- `n` block ids from index `i` on.
unfoldable pub ids_from : ℕ → Buffer → ℕ → List ℕ
ids_from zero pointers i = []
ids_from (suc n) pointers i = id_at pointers i ∷ ids_from n pointers (i + 1)

-- A file of more blocks than a pointer block has entries is read beyond its end.
unfoldable pub inode_finalize : Disk → ℕ → Out (Unit {0})
inode_finalize d inode_id =
    let inode = inode_read d inode_id in
    let count = block_count_from_size inode.size in
    let pointers = block_read d inode.pointer_block in
    let d1 = block_delete d (ids_from count pointers 0) in
    let d2 = block_delete d1 (inode.pointer_block ∷ []) in
    if ltb pointer_block_item_count count then faulted else done tt (inode_delete d2 inode_id)

-- `mkfs`, on the disk that `disk_init` leaves.
unfoldable pub mkfs : Disk → ℕ → Out (Unit {0})
mkfs d now = inode_initialize d root_inode true now
