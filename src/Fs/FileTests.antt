-- ===== src/Fs/FileTests.antt =====
-- Writes, truncations and directory entries on small disks, and the theorems there.
use ics.Common.{ℕ, ◌≡◌, refl, true, [], ◌∷◌, arith, ltb, ◌==◌, if◌then◌else◌}
use ics.Bytes.{Buffer, get_le, put_le, copy, zeros}
use ics.Fs.Disk.{Disk, disk_read, disk_write, block_read, block_write, block_read_many}
use ics.Fs.Bitmap.{bit, bitmap_get_member, block_bitmap_read}
use ics.Fs.Alloc.{block_new_many, done}
use ics.Fs.Alloc.Blocks.{block_used, BytesOnDisk}
use ics.Fs.Inode.{
  load_inode, store_inode, inode_read, inode_write, block_count_from_size, id_at, Inode,
}
use ics.Fs.Inode.Table.{InodeFits}
use ics.Fs.Dir.{
  entries_count, entry_inode_id, read_loop, entries_read, entries_write, normalized, same_bytes,
  find_loop, entries_find, put_name, put_entry_id, absent, hit,
}
use ics.Fs.Dir.Insert.{put_name-entries_find}
use ics.Fs.Dir.RoundTrip.{entries_write-EntriesStored, EntriesStored}
use ics.Fs.Names.{
  skip_slash, first_name, behind_name, lookup_name, found_id, resolve_next, resolve_from,
  resolve_path,
}
use ics.Fs.File.{
  pieces_from, pieces, in_pointer_block, fs_read, count_missing, write_pieces, fs_write,
  fs_truncate,
}
use ics.Fs.File.Whole.{FileOk}
use ics.Fs.File.RoundTrip.{fs_read-fs_write}
use ics.Fs.File.Truncate.{fs_truncate-Truncated, Truncated}
use ics.Fs.File.Outcome.{WriteOutcome, fs_write-Outcome}
use ics.Fs.Examples.{tiny_disk, path_a, inode_a}

-- `tiny_disk` with a block bitmap in which the blocks up to 262 are used.
abbrev used_disk : Disk
used_disk id =
    if id == 0 then (λ k. if ltb k 32 then 255 else if k == 32 then 127 else 0) else tiny_disk id

resolves_used : resolve_path used_disk zeros path_a ≡ done (inode_a, 1) used_disk
unfolding resolve_path resolve_from resolve_next skip_slash first_name behind_name lookup_name
    found_id entries_find find_loop normalized same_bytes entries_read entries_count read_loop copy
    block_count_from_size block_read disk_read inode_read load_inode get_le
resolves_used = refl

used-BytesOnDisk : BytesOnDisk used_disk
unfolding block_bitmap_read block_read_many copy block_read disk_read
used-BytesOnDisk k = ground arith

blocks_used : (block_used used_disk 261 ≡ true) × (block_used used_disk 262 ≡ true)
unfolding block_bitmap_read block_read_many copy block_read disk_read bitmap_get_member bit get_le
blocks_used = (refl, refl)

only_block : (i : ℕ) → id_at (block_read used_disk 261) i ≡ (if i == 0 then 262 else 0)
unfolding block_read disk_read get_le
only_block i = ground arith

used-FileOk : FileOk used_disk 261
used-FileOk = record {
  own_place = (omega arith, omega arith, blocks_used.0);
  ids_place = λ i lt ne.
      let z : i ≡ 0 = ground (arith, only_block i) in
      rw (z, only_block 0) (omega arith, omega arith, blocks_used.1, λ q. omega arith);
  ids_apart = λ i j hi hj ne e. ground (arith, only_block i, only_block j);
}

pieces_far : in_pointer_block (pieces 3 4095) ≡ true
unfolding in_pointer_block pieces pieces_from
pieces_far = refl

after_a-InodeFits : InodeFits (record inode_a { ctime = 7; atime = 7; size = 4098 })
after_a-InodeFits = record {
  atime_fits = refl;
  mtime_fits = refl;
  ctime_fits = refl;
  size_fits = refl;
  pointer_fits = refl;
}

-- Three bytes across the end of the file's only block.
fs_write-Outcome_example :
    WriteOutcome used_disk inode_a 1 7
      (tiny_disk 262)
      3
      4095
      (fs_write used_disk zeros 7 path_a (tiny_disk 262) 3 4095)
fs_write-Outcome_example =
    fs_write-Outcome used_disk zeros 7 path_a (tiny_disk 262) 3 4095 inode_a 1 used_disk
      resolves_used refl (omega arith) used-BytesOnDisk used-FileOk after_a-InodeFits pieces_far

-- The root directory of `used_disk`, with its entry in block 260.
abbrev root_directory : Inode
root_directory = record {
  atime = 0;
  mtime = 0;
  ctime = 0;
  size = 26;
  is_directory = true;
  pointer_block = 259;
}

root_block : (i : ℕ) → id_at (block_read used_disk 259) i ≡ (if i == 0 then 260 else 0)
unfolding block_read disk_read get_le
root_block i = ground arith

root_used : (block_used used_disk 259 ≡ true) × (block_used used_disk 260 ≡ true)
unfolding block_bitmap_read block_read_many copy block_read disk_read bitmap_get_member bit get_le
root_used = (refl, refl)

root-FileOk : FileOk used_disk 259
root-FileOk = record {
  own_place = (omega arith, omega arith, root_used.0);
  ids_place = λ i lt ne.
      let z : i ≡ 0 = ground (arith, root_block i) in
      rw (z, root_block 0) (omega arith, omega arith, root_used.1, λ q. omega arith);
  ids_apart = λ i j hi hj ne e. ground (arith, root_block i, root_block j);
}

one_block : block_count_from_size 26 ≡ 1
unfolding block_count_from_size
one_block = refl

entries_write-EntriesStored_example :
    EntriesStored used_disk
      (entries_write used_disk root_directory (tiny_disk 260))
      root_directory
      (tiny_disk 260)
entries_write-EntriesStored_example =
    entries_write-EntriesStored used_disk root_directory (tiny_disk 260) root-FileOk
      used-BytesOnDisk (omega (arith, one_block))
      (λ i lt. let z : i ≡ 0 = omega (arith, one_block) in rw (z, root_block 0) (λ q. omega arith))

pieces_inner : in_pointer_block (pieces 3 1) ≡ true
unfolding in_pointer_block pieces pieces_from
pieces_inner = refl

after_inner-InodeFits : InodeFits (record inode_a { ctime = 7; atime = 7; size = 5 })
after_inner-InodeFits = record {
  atime_fits = refl;
  mtime_fits = refl;
  ctime_fits = refl;
  size_fits = refl;
  pointer_fits = refl;
}

-- The disk after the bytes "hel" are written at offset 1 of the file: no block is missing.
abbrev written_disk : Disk
written_disk =
    inode_write
      (block_write
        (block_write used_disk 262 (copy 3 (block_read used_disk 262) 1 (tiny_disk 262) 0)) 261
        (block_read used_disk 261))
      1 (record inode_a { ctime = 7; atime = 7; size = 5 })

writes_inner : fs_write used_disk zeros 7 path_a (tiny_disk 262) 3 1 ≡ done 3 written_disk
unfolding fs_write resolve_path resolve_from resolve_next skip_slash first_name behind_name
    lookup_name found_id entries_find find_loop normalized same_bytes entries_read entries_count
    read_loop copy block_count_from_size block_read disk_read inode_read load_inode get_le
    in_pointer_block pieces pieces_from count_missing block_new_many write_pieces
writes_inner = refl

resolves_inner :
    resolve_path written_disk zeros path_a
    ≡ done (record inode_a { ctime = 7; atime = 7; size = 5 }, 1) written_disk
unfolding resolve_path resolve_from resolve_next skip_slash first_name behind_name lookup_name
    found_id entries_find find_loop normalized same_bytes entries_read entries_count read_loop copy
    block_count_from_size block_read disk_read inode_read load_inode get_le inode_write store_inode
    put_le block_write disk_write
resolves_inner = refl

fs_read-fs_write_example :
    (out : Buffer) × (fs_read written_disk zeros 9 path_a zeros 3 1
      ≡ done
          (3, out)
          (inode_write written_disk 1 (record inode_a { ctime = 7; atime = 9; size = 5 })))
    × ((k : ℕ) → out k ≡ (if ltb k 3 then tiny_disk 262 k else zeros k))
fs_read-fs_write_example =
    fs_read-fs_write used_disk zeros 7 path_a (tiny_disk 262) 3 1 inode_a 1 used_disk written_disk 9
      zeros resolves_used refl (omega arith) used-BytesOnDisk used-FileOk after_inner-InodeFits
      pieces_inner writes_inner resolves_inner

one_block_a : block_count_from_size 5 ≡ 1
unfolding block_count_from_size
one_block_a = refl

shorter-InodeFits : InodeFits (record inode_a { size = 3; ctime = 7 })
shorter-InodeFits = record {
  atime_fits = refl;
  mtime_fits = refl;
  ctime_fits = refl;
  size_fits = refl;
  pointer_fits = refl;
}

fs_truncate-Truncated_example :
    (d' : Disk) × (fs_truncate used_disk zeros 7 path_a 3 ≡ done tt d')
    × Truncated used_disk d' inode_a 1 7 3
fs_truncate-Truncated_example =
    fs_truncate-Truncated used_disk zeros 7 path_a 3 inode_a 1 used_disk resolves_used refl
      (omega arith) used-BytesOnDisk used-FileOk shorter-InodeFits (omega arith)
      (omega (arith, one_block_a))
      (λ i lt.
        let z : i ≡ 0 = omega (arith, one_block_a) in rw (z, only_block 0) (λ q. omega arith))

find_a : entries_find (tiny_disk 260) 1 (b'a' ∷ []) ≡ hit 0
unfolding entries_find find_loop normalized same_bytes
find_a = refl

find_b : entries_find (tiny_disk 260) 1 (b'b' ∷ []) ≡ absent
unfolding entries_find find_loop normalized same_bytes
find_b = refl

-- "b", with inode 7, behind "a".
abbrev two_entries : Buffer
two_entries = put_name (put_entry_id (tiny_disk 260) 1 7) 1 (b'b' ∷ [])

put_name-entries_find_example :
    (entry_inode_id two_entries 1 ≡ 7)
    × (entries_find two_entries 2 (b'b' ∷ []) ≡ hit 1)
    × (entries_find two_entries 2 (b'a' ∷ []) ≡ hit 0)
    × (entry_inode_id two_entries 0 ≡ entry_inode_id (tiny_disk 260) 0)
put_name-entries_find_example =
    put_name-entries_find (tiny_disk 260) 1 7 (b'b' ∷ []) (omega arith) (b'a' ∷ []) 0 (omega arith)
      find_b find_a (omega arith)
