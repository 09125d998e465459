-- ===== src/Fs/File/Outcome.antt =====
-- The outcomes of `fs_write` in fslab/fs.c.
use ics.Common.{
  ℕ, ◌+◌, ◌≤◌, ◌<◌, max, ◌≡◌, refl, sym, Bool, true, false, not, List, arith, if◌then◌else◌, length,
}
use ics.Bytes.{Buffer}
use ics.Fs.Disk.{Disk, block_read, block_write, inode_num}
use ics.Fs.Alloc.{◌>>=◌, Out, enospc, done, failed, faulted}
use ics.Fs.Alloc.Blocks.{BytesOnDisk}
use ics.Fs.Alloc.Blocks.New.{free_blocks, NewBlocks, block_new_many-NewBlocks}
use ics.Fs.Inode.{inode_read, inode_write, Inode}
use ics.Fs.Inode.Table.{inode_read-write, InodeFits}
use ics.Fs.Dir.{Name}
use ics.Fs.Names.{resolve_path}
use ics.Fs.File.{pieces, in_pointer_block, count_missing, write_pieces, fs_write}
use ics.Fs.File.Write.{write_pieces-split}
use ics.Fs.File.Whole.{Assignable-free, whole-Wrote, FileOk, Wrote}

-- What `fs_write` promises of each outcome, for the file with `inode` on the disk `d`.
abbrev pub WriteOutcome : Disk → Inode → ℕ → ℕ → Buffer → ℕ → ℕ → Out ℕ → Type 0
WriteOutcome d inode inode_id now buffer size offset (done n d') =
    (n ≡ size)
    × Wrote d d' inode.pointer_block buffer size offset
    × (inode_read d' inode_id
        ≡ record inode { ctime = now; atime = now; size = max inode.size (size + offset) })
WriteOutcome d inode inode_id now buffer size offset (failed e d') =
    let needed = count_missing (block_read d inode.pointer_block) (pieces size offset) in
    (e ≡ enospc) × (d' ≡ d) × (free_blocks d < needed)
WriteOutcome d inode inode_id now buffer size offset faulted = ⊥

module _ (d : Disk) (inode : Inode) (inode_id now : ℕ) (buffer : Buffer) (size offset : ℕ)
    (ok : FileOk d inode.pointer_block) (lt : inode_id < inode_num)
    (fits : InodeFits
      (record inode { ctime = now; atime = now; size = max inode.size (size + offset) }))
    (inside : in_pointer_block (pieces size offset) ≡ true) where
  abbrev after : Inode
  after = record inode { ctime = now; atime = now; size = max inode.size (size + offset) }

  abbrev pointers : Buffer
  pointers = block_read d inode.pointer_block

  abbrev needed : ℕ
  needed = count_missing pointers (pieces size offset)

  abbrev store : List ℕ → Disk → Out ℕ
  store new_ids d1 =
      let (d', pointers') = write_pieces d1 pointers new_ids needed (pieces size offset) buffer 0 in
      done size (inode_write (block_write d' inode.pointer_block pointers') inode_id after)

  after_blocks :
      (r : Out (List ℕ))
      → NewBlocks needed d r
      → WriteOutcome d inode inode_id now buffer size offset (r >>= store)
  after_blocks faulted impossible = absurd impossible
  after_blocks (failed e d') (is_enospc, same, few) = (is_enospc, same, few)
  after_blocks (done ids d1) (all, free, takes) =
      let enough : needed ≤ length ids = omega arith in
      let split =
        write_pieces-split d1 pointers ids (length ids) (pieces size offset) buffer 0
          (Assignable-free d inode.pointer_block ok ids free) enough inside in
      rw (sym all, split)
        (
          refl,
          whole-Wrote d d1 inode.pointer_block ok ids free takes buffer size offset enough inside
              inode_id after lt fits,
          (inode_read-write _ inode_id after lt fits).0,
        )

past_guards :
    (P : Out ℕ → Type 0) (directory inside : Bool) (a b c : Out ℕ)
    → directory ≡ false
    → inside ≡ true
    → P c
    → P (if directory then a else if not inside then b else c)
past_guards P directory inside a b c e f h = rw (e, f) h

-- Writing `size` bytes at `offset` to a file whose blocks are data blocks in use, apart from each other
-- and from its pointer block, in a range within the pointer block, on a disk whose block bitmap holds
-- bytes: `fs_write` does not fault. Either it returns `size`, the file has the buffer's bytes in the
-- range and every other byte of the blocks that it had is as before, and the inode has the new times
-- and a size that reaches the end of the range; or it fails with ENOSPC with the disk as it was, and
-- then fewer blocks are free than are missing.
pub fs_write-Outcome :
    (d0 : Disk) (scratch : Buffer) (now : ℕ) (path : Name) (buffer : Buffer) (size offset : ℕ)
    → (inode : Inode) (inode_id : ℕ) (d : Disk)
    → resolve_path d0 scratch path ≡ done (inode, inode_id) d
    → inode.is_directory ≡ false
    → inode_id < inode_num
    → BytesOnDisk d
    → FileOk d inode.pointer_block
    → InodeFits (record inode { ctime = now; atime = now; size = max inode.size (size + offset) })
    → in_pointer_block (pieces size offset) ≡ true
    → WriteOutcome d inode inode_id now buffer size offset
        (fs_write d0 scratch now path buffer size offset)
unfolding fs_write
fs_write-Outcome d0 scratch now path buffer size offset inode inode_id d found file lt bytes ok fits
      inside =
    rw found (
      past_guards (WriteOutcome d inode inode_id now buffer size offset) _ _ _ _ _ file inside (
        after_blocks d inode inode_id now buffer size offset ok lt fits inside _ (
          block_new_many-NewBlocks
            (count_missing (block_read d inode.pointer_block) (pieces size offset)) d bytes)))
