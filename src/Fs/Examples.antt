-- ===== src/Fs/Examples.antt =====
-- A small disk of the file system in fslab/fs.c.
use ics.Common.{ℕ, ◌-◌, false, List, [], ◌∷◌, ◌==◌, if◌then◌else◌}
use ics.Bytes.{Buffer, zeros}
use ics.Fs.Disk.{Disk}
use ics.Fs.Inode.{Inode}
use ics.Fs.Dir.{Name}
use ics.Fs.Names.{slash}

-- A byte list as a block, with zeros behind it.
abbrev pub block_of : List ℕ → Buffer
block_of [] k = 0
block_of (b ∷ bs) k = if k == 0 then b else block_of bs (k - 1)

-- The root directory (inode 0) has its entries in block 260: "a", which is inode 1. The bytes of
-- "a" are in block 262.
abbrev pub tiny_table : Buffer
tiny_table k =
    if k == 24
    then 26
    else if k == 28
    then 1
    else if k == 30
    then 3
    else if k == 31
    then 1
    else if k == 56
    then 5
    else if k == 62
    then 5
    else if k == 63
    then 1
    else 0

abbrev pub tiny_disk : Disk
tiny_disk id =
    if id == 3
    then tiny_table
    else if id == 259
    then block_of (4 ∷ 1 ∷ [])
    else if id == 260
    then (λ k. if k == 0 then b'a' else if k == 24 then 1 else 0)
    else if id == 261
    then block_of (6 ∷ 1 ∷ [])
    else if id == 262
    then block_of (b'h' ∷ b'e' ∷ b'l' ∷ b'l' ∷ b'o' ∷ [])
    else zeros

abbrev pub path_a : Name
path_a = slash ∷ b'a' ∷ []

abbrev pub inode_a : Inode
inode_a = record {
  atime = 0;
  mtime = 0;
  ctime = 0;
  size = 5;
  is_directory = false;
  pointer_block = 261;
}
