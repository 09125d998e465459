-- ===== src/Fs/File/Blocks.antt =====
-- The rounds of FOR_DATA_BLOCKS in fslab/fs.c, and the bytes that `fs_read` copies out in them.
use mathlib.Core.Path.{subst}
use ics.Common.{
  ℕ, zero, suc, ◌+◌, ◌-◌, ◌*◌, ◌/◌, ◌%◌, ◌≤◌, ◌<◌, min, ◌≡◌, refl, ap, ◌∙◌, ◌≢◌, ◌⊎◌, inl, inr,
  true, false, not, ◌&&◌, Option, none, some, List, [], ◌∷◌, arith, ltb, leb, ◌==◌, if◌then◌else◌,
  Bool-cases,
}
use ics.Bytes.{Buffer, copy}
use ics.Fs.Disk.{block_size, block_num, Disk, block_read}
use ics.Fs.Inode.{inode_write, block_count_from_size, id_at, Inode}
use ics.Fs.Alloc.{done}
use ics.Fs.Dir.{Name}
use ics.Fs.Names.{resolve_path}
use ics.Fs.File.{pieces_from, pieces, in_pointer_block, read_pieces, fs_read, Piece}

-- The rounds go through the `size` bytes from `at` on in order, without a gap, none of them empty
-- and none across the end of a block.
abbrev pub Covers : List Piece → ℕ → ℕ → Type 0
Covers [] at size = size ≡ 0
Covers (p ∷ ps) at size =
    (p.index * block_size + p.start ≡ at)
    × (0 < p.bytes)
    × (p.start + p.bytes ≤ block_size)
    × (p.bytes ≤ size)
    × Covers ps (at + p.bytes) (size - p.bytes)

-- Byte `at` of the file whose blocks are `pointers`.
abbrev pub file_byte : Disk → Buffer → ℕ → ℕ
file_byte d pointers at = block_read d (id_at pointers (at / block_size)) (at % block_size)

pieces_from-zero : (fuel i at : ℕ) → Covers (pieces_from fuel i 0 0) at 0
unfolding pieces_from
pieces_from-zero zero i at = refl
pieces_from-zero (suc fuel) i at = refl

pieces_from-Covers :
    (fuel i start size : ℕ)
    → size ≤ fuel
    → start < block_size
    → Covers (pieces_from fuel i start size) (i * block_size + start) size
unfolding pieces_from
pieces_from-Covers zero i start size h g = omega arith
pieces_from-Covers (suc fuel) i start size h g =
    elim (Bool-cases (min (block_size - start) size == 0)) [
      | inl e ↦ rw e (ground arith)
      | inr e ↦ rw e (
        refl,
        ground arith,
        ground arith,
        omega arith,
        behind (Bool-cases (ltb (block_size - start) size)) λ le.
            pieces_from-Covers fuel (i + 1) 0 (size - min (block_size - start) size) le
              (omega arith),
      )
    ]
  where
    behind :
        (ltb (block_size - start) size ≡ true) ⊎ (ltb (block_size - start) size ≡ false)
        → (size - min (block_size - start) size ≤ fuel
            → Covers
                (pieces_from fuel (i + 1) 0 (size - min (block_size - start) size))
                ((i + 1) * block_size + 0)
                (size - min (block_size - start) size))
        → Covers
            (pieces_from fuel (i + 1) 0 (size - min (block_size - start) size))
            (i * block_size + start + min (block_size - start) size)
            (size - min (block_size - start) size)
    behind (inl lt) rec =
        let at : (i + 1) * block_size + 0 ≡ i * block_size + start + min (block_size - start) size =
          ground arith in
        subst
          (λ (at : ℕ).
            Covers (pieces_from fuel (i + 1) 0 (size - min (block_size - start) size)) at
              (size - min (block_size - start) size))
          at (rec (ground arith))
    behind (inr ge) rec =
        let none_left : size - min (block_size - start) size ≡ 0 = ground arith in
        rw none_left (pieces_from-zero fuel (i + 1) _)

-- For every size and offset, the rounds of FOR_DATA_BLOCKS cover the bytes from `offset` to
-- `offset + size`: contiguous, in order, each round inside one block and not empty.
pub pieces-Covers : (size offset : ℕ) → Covers (pieces size offset) offset size
unfolding pieces
pieces-Covers size offset =
    let e : offset / block_size * block_size + offset % block_size ≡ offset = omega arith in
    subst (λ (at : ℕ). Covers (pieces size offset) at size) e
      (pieces_from-Covers size (offset / block_size) (offset % block_size) size (omega arith)
        (omega arith))

-- The number of blocks is the size divided by the size of a block, rounded up.
pub block_count_from_size-ceiling :
    (size : ℕ)
    → (size ≤ block_count_from_size size * block_size)
      × (block_count_from_size size * block_size < size + block_size)
unfolding block_count_from_size
block_count_from_size-ceiling size = ground arith

piece_byte :
    (d : Disk) (pointers : Buffer) (p : Piece) (origin j : ℕ)
    → p.index * block_size + p.start ≡ origin
    → p.start + p.bytes ≤ block_size
    → j < p.bytes
    → block_read d (id_at pointers p.index) (p.start + j) ≡ file_byte d pointers (origin + j)
piece_byte d pointers p origin j e inside lt =
    let q : (origin + j) / block_size ≡ p.index = omega arith in
    let r : (origin + j) % block_size ≡ p.start + j = omega arith in rw (q, r)

-- A copy of the bytes of `ps` puts into the buffer, from `at` on, the bytes of the file from `pos` on.
read_pieces-byte :
    (d : Disk) (pointers : Buffer) (ps : List Piece) (buffer : Buffer) (at origin size k : ℕ)
    → Covers ps origin size
    → read_pieces d pointers ps buffer at k ≡ (
        if leb at k && ltb k (at + size)
        then file_byte d pointers (origin + (k - at))
        else buffer k)
unfolding read_pieces copy
read_pieces-byte d pointers [] buffer at origin size k c = ground arith
read_pieces-byte d pointers (p ∷ ps) buffer at origin size k (e, lt, inside, le, c) =
    read_pieces-byte d pointers ps _ (at + p.bytes) (origin + p.bytes) (size - p.bytes) k c
    ∙ this_piece (Bool-cases (leb at k && ltb k (at + p.bytes)))
  where
    this_piece :
        (leb at k && ltb k (at + p.bytes) ≡ true) ⊎ (leb at k && ltb k (at + p.bytes) ≡ false)
        → (if leb (at + p.bytes) k && ltb k (at + p.bytes + (size - p.bytes))
            then file_byte d pointers (origin + p.bytes + (k - (at + p.bytes)))
            else copy p.bytes buffer at (block_read d (id_at pointers p.index)) p.start k)
          ≡ (if leb at k && ltb k (at + size)
              then file_byte d pointers (origin + (k - at))
              else buffer k)
    this_piece (inl within) =
        let outside : leb (at + p.bytes) k && ltb k (at + p.bytes + (size - p.bytes)) ≡ false =
          ground arith in
        let inside' : leb at k && ltb k (at + size) ≡ true = ground arith in
        rw (outside, inside', within)
          (piece_byte d pointers p origin (k - at) e inside (ground arith))
    this_piece (inr beyond) =
        let same : leb (at + p.bytes) k && ltb k (at + p.bytes + (size - p.bytes))
            ≡ leb at k && ltb k (at + size) =
          ground arith in
        rw (beyond, same)
          (elim (Bool-cases (leb at k && ltb k (at + size))) [
            | inl t ↦
                let q : origin + p.bytes + (k - (at + p.bytes)) ≡ origin + (k - at) =
                  ground arith in
                rw (t, q)
            | inr t ↦ rw t
          ])

-- What `fs_read` copies out, whether the file has the bytes or not: a hole is read as block 0.
pub fs_read_lem :
    (d : Disk) (scratch : Buffer) (now : ℕ) (path : Name) (buffer : Buffer) (size offset : ℕ)
    (inode : Inode) (inode_id : ℕ) (d' : Disk)
    → resolve_path d scratch path ≡ done (inode, inode_id) d'
    → inode.is_directory ≡ false
    → in_pointer_block (pieces size offset) ≡ true
    → (out : Buffer) × (fs_read d scratch now path buffer size offset
        ≡ done (size, out) (inode_write d' inode_id (record inode { atime = now })))
      × ((k : ℕ)
          → out k ≡ (
              if ltb k size
              then file_byte d' (block_read d' inode.pointer_block) (offset + k)
              else buffer k))
unfolding fs_read
fs_read_lem d scratch now path buffer size offset inode inode_id d' e file inside = (
  read_pieces d' (block_read d' inode.pointer_block) (pieces size offset) buffer 0,
  rw (e, file, inside),
  λ k.
      read_pieces-byte d' (block_read d' inode.pointer_block) (pieces size offset) buffer 0 offset
        size k (pieces-Covers size offset)
      ∙ ground arith,
)

-- The byte at `at` of a file, and none behind the file's end or where it has no block on the disk.
abbrev pub file_content : Disk → Inode → ℕ → Option ℕ
file_content d inode at =
    let id = id_at (block_read d inode.pointer_block) (at / block_size) in
    if ltb at inode.size && not (id == 0) && ltb id block_num
    then some (block_read d id (at % block_size))
    else none

content_byte :
    (d : Disk) (inode : Inode) (at : ℕ)
    → file_content d inode at ≢ none
    → some (file_byte d (block_read d inode.pointer_block) at) ≡ file_content d inode at
content_byte d inode at there =
    let id = id_at (block_read d inode.pointer_block) (at / block_size) in
    elim (Bool-cases (ltb at inode.size && not (id == 0) && ltb id block_num)) [
      | inl t ↦ rw t refl
      | inr t ↦ absurd (there (rw t refl))
    ]

-- `fs_read` of a range within the pointer block, every byte of which lies before the file's end and in a
-- block that the file has, returns `size`, fills the caller's buffer with the file's bytes from `offset`
-- on and leaves the rest of it as it is, and writes back the inode with `now` as its access time.
pub fs_read-bytes :
    (d : Disk) (scratch : Buffer) (now : ℕ) (path : Name) (buffer : Buffer) (size offset : ℕ)
    (inode : Inode) (inode_id : ℕ) (d' : Disk)
    → resolve_path d scratch path ≡ done (inode, inode_id) d'
    → inode.is_directory ≡ false
    → in_pointer_block (pieces size offset) ≡ true
    → ((at : ℕ) → offset ≤ at → at < offset + size → file_content d' inode at ≢ none)
    → (out : Buffer) × (fs_read d scratch now path buffer size offset
        ≡ done (size, out) (inode_write d' inode_id (record inode { atime = now })))
      × ((k : ℕ)
          → some (out k)
            ≡ (if ltb k size then file_content d' inode (offset + k) else some (buffer k)))
fs_read-bytes d scratch now path buffer size offset inode inode_id d' e file inside there =
    let (out, run, bytes) =
      fs_read_lem d scratch now path buffer size offset inode inode_id d' e file inside in
    (
      out,
      run,
      λ k. elim (Bool-cases (ltb k size)) [
        | inl t ↦
            let here = there (offset + k) (omega arith) (ground arith) in
            let own = bytes k in
            rw t (ap some (own ∙ rw t refl) ∙ content_byte d' inode (offset + k) here)
        | inr t ↦ let own = bytes k in rw t (ap some (own ∙ rw t refl))
      ],
    )
