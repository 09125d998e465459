-- ===== src/Fs/Dir/Extend.antt =====
-- When a directory that grows gets a new block.
use ics.Common.{◌+◌, ◌-◌, ◌%◌, ◌<◌, ◌≡◌, true, arith, ◌==◌, ==_iff}
use ics.Fs.Disk.{block_size, Disk}
use ics.Fs.Alloc.{done}
use ics.Fs.Inode.{block_count_from_size, Inode}
use ics.Fs.Dir.{entry_size, entries_extend}

-- Where the last block of a directory has between 1 and 25 bytes left, the next entry runs over into
-- another block, and `entries_extend` allocates none: it leaves the disk as it is.
pub entries_extend_short :
    (d : Disk) (directory : Inode)
    → block_size - entry_size < directory.size % block_size
    → (entries_extend d directory ≡ done tt d)
      × (block_count_from_size (directory.size + entry_size)
          ≡ block_count_from_size directory.size + 1)
unfolding entries_extend block_count_from_size
entries_extend_short d directory h =
    let size = directory.size in
    let e : block_count_from_size size ≡ block_count_from_size (size + 1) = ground arith in
    let t : (block_count_from_size size == block_count_from_size (size + 1)) ≡ true =
      (==_iff _ _).1 e in
    (rw t, ground arith)
