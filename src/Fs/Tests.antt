-- ===== src/Fs/Tests.antt =====
-- The file system on small disks, and the theorems at concrete disks and paths.
use ics.Common.{
  ℕ, zero, suc, ◌+◌, ◌*◌, ◌≤◌, ◌<◌, ◌≡◌, refl, ◌≢◌, ◌⊎◌, true, none, some, [], ◌∷◌, arith, ltb,
  if◌then◌else◌, length, replicate,
}
use ics.Bytes.{Buffer, get_le, copy, zeros}
use ics.Fs.Disk.{
  block_size, fresh_disk, disk_read, block_read, block_read_many, inode_size, inode_block_start,
  data_start,
}
use ics.Fs.Bitmap.{block_bitmap_read}
use ics.Fs.Alloc.{block_new_many, block_seek, block_delete, enotdir, enoent, done, failed}
use ics.Fs.Alloc.Blocks.{BytesOnDisk}
use ics.Fs.Alloc.Blocks.New.{NewBlocks, block_new_many-NewBlocks, succeeds, block_seek-new_many}
use ics.Fs.Alloc.Blocks.Delete.{block_delete-Frees, Frees}
use ics.Fs.Inode.{
  load_inode, inode_block, inode_offset, inode_read, inode_write, root_inode, block_count_from_size,
  Inode,
}
use ics.Fs.Inode.Table.{inode_resolve_bounds, inode_read-write, InodeFits}
use ics.Fs.Dir.{
  entry_size, entries_count, read_loop, entries_read, entries_extend, normalized, same_bytes,
  find_loop, entries_find, overrun,
}
use ics.Fs.Dir.Extend.{entries_extend_short}
use ics.Fs.Dir.Find.{Answers, entries_find-FirstNamed}
use ics.Fs.Names.{
  slash, skip_slash, first_name, behind_name, lookup_name, found_id, resolve_next, resolve_from,
  resolve_path,
}
use ics.Fs.Names.Fuel.{resolve_path_total}
use ics.Fs.File.{pieces_from, pieces, in_pointer_block, fs_read}
use ics.Fs.File.Blocks.{file_content, fs_read-bytes}
use ics.Fs.Examples.{tiny_disk, path_a, inode_a}

resolves_a : resolve_path tiny_disk zeros path_a ≡ done (inode_a, 1) tiny_disk
unfolding resolve_path resolve_from resolve_next skip_slash first_name behind_name lookup_name
    found_id entries_find find_loop normalized same_bytes entries_read entries_count read_loop copy
    block_count_from_size block_read disk_read inode_read load_inode get_le
resolves_a = refl

pieces_a : in_pointer_block (pieces 3 1) ≡ true
unfolding in_pointer_block pieces pieces_from
pieces_a = refl

content_a : (at : ℕ) → 1 ≤ at → at < 4 → file_content tiny_disk inode_a at ≢ none
unfolding block_read disk_read get_le
content_a zero h lt = absurd (omega arith)
content_a (suc zero) h lt = λ e. cc
content_a (suc (suc zero)) h lt = λ e. cc
content_a (suc (suc (suc zero))) h lt = λ e. cc
content_a (suc (suc (suc (suc at)))) h lt = absurd (omega arith)

fs_read-bytes_example :
    (out : Buffer) × (fs_read tiny_disk zeros 7 path_a zeros 3 1
      ≡ done (3, out) (inode_write tiny_disk 1 (record inode_a { atime = 7 })))
    × ((k : ℕ)
        → some (out k)
          ≡ (if ltb k 3 then file_content tiny_disk inode_a (1 + k) else some (zeros k)))
fs_read-bytes_example =
    fs_read-bytes tiny_disk zeros 7 path_a zeros 3 1 inode_a 1 tiny_disk resolves_a refl pieces_a
      content_a

-- 4,000 to 9,000 lie in three blocks.
three_rounds : length (pieces 5000 4000) ≡ 3
unfolding pieces pieces_from
three_rounds = refl

fresh-BytesOnDisk : BytesOnDisk fresh_disk
unfolding block_bitmap_read block_read_many copy block_read disk_read
fresh-BytesOnDisk k = ground arith

block_new_many-NewBlocks_example : NewBlocks 3 fresh_disk (block_new_many 3 fresh_disk)
block_new_many-NewBlocks_example = block_new_many-NewBlocks 3 fresh_disk fresh-BytesOnDisk

block_seek-new_many_example : block_seek 3 fresh_disk ≡ succeeds (block_new_many 3 fresh_disk)
block_seek-new_many_example = block_seek-new_many 3 fresh_disk

block_delete-Frees_example :
    Frees (300 ∷ 301 ∷ []) fresh_disk (block_delete fresh_disk (300 ∷ 301 ∷ []))
block_delete-Frees_example = block_delete-Frees fresh_disk (300 ∷ 301 ∷ []) fresh-BytesOnDisk

entries_find-FirstNamed_example :
    Answers (tiny_disk 260) 1 (b'a' ∷ []) (entries_find (tiny_disk 260) 1 (b'a' ∷ []))
entries_find-FirstNamed_example = entries_find-FirstNamed (tiny_disk 260) 1 (b'a' ∷ [])

resolve_path_total_example :
    resolve_from 3 tiny_disk zeros (inode_read tiny_disk root_inode) root_inode path_a
    ≡ some (resolve_path tiny_disk zeros path_a)
resolve_path_total_example = resolve_path_total tiny_disk zeros path_a

inode_a-InodeFits : InodeFits inode_a
inode_a-InodeFits = record {
  atime_fits = refl;
  mtime_fits = refl;
  ctime_fits = refl;
  size_fits = refl;
  pointer_fits = refl;
}

inode_read-write_example :
    (inode_read (inode_write tiny_disk 1 inode_a) 1 ≡ inode_a)
    × ((j : ℕ) → 1 ≢ j → inode_read (inode_write tiny_disk 1 inode_a) j ≡ inode_read tiny_disk j)
    × ((id : ℕ)
        → (id < inode_block_start) ⊎ (data_start ≤ id)
        → block_read (inode_write tiny_disk 1 inode_a) id ≡ block_read tiny_disk id)
inode_read-write_example = inode_read-write tiny_disk 1 inode_a (omega arith) inode_a-InodeFits

-- A directory of 157 entries: 14 bytes are left in its only block.
abbrev full_directory : Inode
full_directory = record {
  atime = 0;
  mtime = 0;
  ctime = 0;
  size = 4082;
  is_directory = true;
  pointer_block = 259;
}

entries_extend_short_example :
    (entries_extend tiny_disk full_directory ≡ done tt tiny_disk)
    × (block_count_from_size (4082 + entry_size) ≡ block_count_from_size 4082 + 1)
entries_extend_short_example = entries_extend_short tiny_disk full_directory (omega arith)

-- `getattr` of a path whose file is missing.
missing : resolve_path tiny_disk zeros (slash ∷ b'b' ∷ []) ≡ failed enoent tiny_disk
unfolding resolve_path resolve_from resolve_next skip_slash first_name behind_name lookup_name
    found_id entries_find find_loop normalized same_bytes entries_read entries_count read_loop copy
    block_count_from_size block_read disk_read inode_read load_inode get_le
missing = refl

-- A file is no directory on the way to another.
through_file :
    resolve_path tiny_disk zeros (slash ∷ b'a' ∷ slash ∷ b'b' ∷ []) ≡ failed enotdir tiny_disk
unfolding resolve_path resolve_from resolve_next skip_slash first_name behind_name lookup_name
    found_id entries_find find_loop normalized same_bytes entries_read entries_count read_loop copy
    block_count_from_size block_read disk_read inode_read load_inode get_le
through_file = refl

inode_resolve_bounds_example :
    (inode_block_start ≤ inode_block 300)
    × (inode_block 300 < data_start)
    × (inode_offset 300 + inode_size ≤ block_size)
inode_resolve_bounds_example = inode_resolve_bounds 300 (omega arith)

-- A name of 25 bytes, and a directory one block larger than the array of entries.
name_overrun : entries_find (tiny_disk 260) 1 (replicate 25 b'a') ≡ overrun
unfolding entries_find
name_overrun = refl

directory_overrun :
    entries_read tiny_disk (record full_directory { size = 208 * block_size + 1 }) zeros ≡ none
unfolding entries_read block_count_from_size
directory_overrun = refl
