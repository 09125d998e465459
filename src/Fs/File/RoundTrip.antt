-- ===== src/Fs/File/RoundTrip.antt =====
-- What `fs_write` in fslab/fs.c writes is what `fs_read` reads.
use mathlib.Core.Path.{subst}
use ics.Common.{
  ℕ, ◌+◌, ◌-◌, ◌<◌, max, ◌≡◌, refl, ap, ◌∙◌, inl, inr, true, false, List, [], ◌∷◌, arith, ltb,
  if◌then◌else◌, Bool-cases,
}
use ics.Bytes.{Buffer}
use ics.Fs.Disk.{Disk, block_read, inode_num}
use ics.Fs.Alloc.{Out, done}
use ics.Fs.Alloc.Blocks.{BytesOnDisk}
use ics.Fs.Inode.{inode_write, Inode}
use ics.Fs.Inode.Table.{InodeFits}
use ics.Fs.Dir.{Name}
use ics.Fs.Names.{resolve_path}
use ics.Fs.File.{pieces, in_pointer_block, fs_read, fs_write, Piece}
use ics.Fs.File.Blocks.{Covers, file_byte, pieces-Covers, fs_read_lem}
use ics.Fs.File.Written.{file_limit, within}
use ics.Fs.File.Whole.{FileOk, Wrote}
use ics.Fs.File.Outcome.{WriteOutcome, fs_write-Outcome}

-- A byte of the range lies within the pointer block.
covered_inside :
    (ps : List Piece) (origin size at : ℕ)
    → Covers ps origin size
    → in_pointer_block ps ≡ true
    → within origin size at ≡ true
    → at < file_limit
unfolding in_pointer_block
covered_inside [] origin size at c inside w = absurd (ground arith)
covered_inside (p ∷ ps) origin size at (e, some', fit, le, c) inside w =
    elim (Bool-cases (within origin p.bytes at)) [
      | inl t ↦ ground arith
      | inr t ↦
          covered_inside ps (origin + p.bytes) (size - p.bytes) at c (ground arith) (ground arith)
    ]

abbrev after_write : Inode → ℕ → ℕ → Inode
after_write inode now end' = record inode { ctime = now; atime = now; size = max inode.size end' }

-- For a file whose blocks are data blocks in use, apart from each other and from its pointer block, and
-- a range within the pointer block, on a disk whose block bitmap holds bytes: where `fs_write` succeeds
-- and the path still leads to the file afterwards, with the new inode, `fs_read` of the same range
-- returns the number of bytes and exactly the bytes that were written, leaves the caller's buffer
-- behind them as it is, and changes the access time alone.
pub fs_read-fs_write :
    (d0 : Disk) (scratch : Buffer) (now : ℕ) (path : Name) (buffer : Buffer) (size offset : ℕ)
    → (inode : Inode) (inode_id : ℕ) (d d2 : Disk) (later : ℕ) (out0 : Buffer)
    → resolve_path d0 scratch path ≡ done (inode, inode_id) d
    → inode.is_directory ≡ false
    → inode_id < inode_num
    → BytesOnDisk d
    → FileOk d inode.pointer_block
    → InodeFits (after_write inode now (size + offset))
    → in_pointer_block (pieces size offset) ≡ true
    → fs_write d0 scratch now path buffer size offset ≡ done size d2
    → resolve_path d2 scratch path ≡ done (after_write inode now (size + offset), inode_id) d2
    → (out : Buffer) × (fs_read d2 scratch later path out0 size offset
        ≡ done
            (size, out)
            (inode_write d2 inode_id
              (record (after_write inode now (size + offset)) { atime = later })))
      × ((k : ℕ) → out k ≡ (if ltb k size then buffer k else out0 k))
fs_read-fs_write d0 scratch now path buffer size offset inode inode_id d d2 later out0 found file lt
      bytes ok fits inside wrote again =
    let (out, e, b) =
      fs_read_lem d2 scratch later path out0 size offset (after_write inode now (size + offset))
        inode_id d2 again file inside in
    let promised : WriteOutcome d inode inode_id now buffer size offset (done size d2) =
      subst (λ (r : Out ℕ). WriteOutcome d inode inode_id now buffer size offset r) wrote
        (fs_write-Outcome d0 scratch now path buffer size offset inode inode_id d found file lt
          bytes ok fits inside) in
    (out, e, λ k. b k ∙ same promised.1 k)
  where
    same :
        Wrote d d2 inode.pointer_block buffer size offset
        → (k : ℕ)
        → (if ltb k size
            then file_byte d2 (block_read d2 inode.pointer_block) (offset + k)
            else out0 k)
          ≡ (if ltb k size then buffer k else out0 k)
    same w k = elim (Bool-cases (ltb k size)) [
      | inl t ↦
          let inside_range : within offset size (offset + k) ≡ true = ground arith in
          let q : offset + k - offset ≡ k = omega arith in
          rw t (
            w.bytes_written (offset + k)
              (covered_inside (pieces size offset) offset size (offset + k)
                (pieces-Covers size offset) inside inside_range)
              inside_range
            ∙ ap buffer q)
      | inr t ↦ rw t refl
    ]
