-- ===== src/Fs/File/Whole.antt =====
-- `fs_write` as a whole: which bytes the file has afterwards.
use ics.Common.{
  ℕ, ◌+◌, ◌-◌, ◌/◌, ◌%◌, ◌≤◌, ◌<◌, ◌≡◌, sym, ap, ◌∙◌, ◌≢◌, ◌⊎◌, inl, inr, true, false, List, [],
  ◌∷◌, arith, if◌then◌else◌, Bool-cases, length, All,
}
use ics.Bytes.{Buffer}
use ics.Fs.Disk.{
  block_size, block_num, Disk, block_read, block_write, inode_num, data_start, data_end,
  pointer_block_item_count,
}
use ics.Fs.Disk.Many.{block_read-write_self, block_read-write_other}
use ics.Fs.Alloc.Search.{FreeIds}
use ics.Fs.Alloc.Blocks.{block_used}
use ics.Fs.Alloc.Blocks.New.{Takes}
use ics.Fs.Inode.{inode_write, id_at, Inode}
use ics.Fs.Inode.Table.{inode_read-write, InodeFits}
use ics.Fs.File.{pieces, in_pointer_block, count_missing, nth_id, Piece}
use ics.Fs.File.Blocks.{Covers, file_byte, pieces-Covers}
use ics.Fs.File.Assign.{assign, assign-Assigned, Assignable, Assigned}
use ics.Fs.File.Write.{write_all, Writable}
use ics.Fs.File.Written.{file_limit, within, write_all-byte, nth_id-free, nth_id_ascends}

-- The blocks of a file are data blocks in use, apart from each other and from its pointer block.
pub record FileOk (d : Disk) (pointer_block : ℕ) : Type 0 where
  pub own_place :
      (data_start ≤ pointer_block)
      × (pointer_block < data_end)
      × (block_used d pointer_block ≡ true)
  pub ids_place :
      (i : ℕ)
      → i < pointer_block_item_count
      → id_at (block_read d pointer_block) i ≢ 0
      → (data_start ≤ id_at (block_read d pointer_block) i)
        × (id_at (block_read d pointer_block) i < data_end)
        × (block_used d (id_at (block_read d pointer_block) i) ≡ true)
        × (id_at (block_read d pointer_block) i ≢ pointer_block)
  pub ids_apart :
      (i j : ℕ)
      → i < pointer_block_item_count
      → j < pointer_block_item_count
      → id_at (block_read d pointer_block) i ≢ 0
      → id_at (block_read d pointer_block) i ≡ id_at (block_read d pointer_block) j
      → i ≡ j

covered_filled :
    (ptr : Buffer) (ps : List Piece) (origin size at : ℕ)
    → Covers ps origin size
    → All (λ p. id_at ptr p.index ≢ 0) ps
    → within origin size at ≡ true
    → id_at ptr (at / block_size) ≢ 0
covered_filled ptr [] origin size at c f w = absurd (ground arith)
covered_filled ptr (p ∷ ps) origin size at (e, some', fit, le, c) f w =
    elim (Bool-cases (within origin p.bytes at)) [
      | inl t ↦
          let same : at / block_size ≡ p.index = ground arith in
          λ z. f.0 (ap (λ k. id_at ptr k) (sym same) ∙ z)
      | inr t ↦ covered_filled ptr ps (origin + p.bytes) (size - p.bytes) at c f.1 (ground arith)
    ]

module _ (d : Disk) (pb : ℕ) (ok : FileOk d pb) (ids : List ℕ)
    (free : FreeIds (block_used d) data_start data_end ids) where
  abbrev old : Buffer
  old = block_read d pb

  new_id :
      (k : ℕ)
      → k < length ids
      → (data_start ≤ nth_id ids k)
        × (nth_id ids k < data_end)
        × (block_used d (nth_id ids k) ≡ false)
  new_id k h = nth_id-free (block_used d) data_start data_end ids k free h

  used_free : (i j : ℕ) → block_used d i ≡ true → block_used d j ≡ false → j ≢ i
  used_free i j u f e = cc (u, f, ap (λ k. block_used d k) e)

  pub Assignable-free : Assignable old ids (length ids)
  Assignable-free = record {
    ids_fit = λ k h. let (a, b, c) = new_id k h in omega arith;
    ids_not_zero = λ k h z. let (a, b, c) = new_id k h in omega arith;
    ids_apart = λ k l h g e. elim (lt-cases k l) [
      | inl lt ↦ absurd (
          let up = nth_id_ascends (block_used d) data_start data_end ids k l free lt g in
          omega arith)
      | inr (inl same) ↦ same
      | inr (inr gt) ↦ absurd (
          let up = nth_id_ascends (block_used d) data_start data_end ids l k free gt h in
          omega arith)
    ];
    ids_new = λ k i h g e.
        let (a, b, c) = new_id k h in
        let not_zero : id_at old i ≢ 0 = λ z. omega arith in
        let (a', b', u, ne) = ok.ids_place i g not_zero in
        used_free (id_at old i) (nth_id ids k) u c e;
    blocks_apart = ok.ids_apart;
  }
    where
      lt-cases : (k l : ℕ) → (k < l) ⊎ ((k ≡ l) ⊎ (l < k))
      lt-cases k l = ground arith

  -- Every id after the assignment is that of a data block other than the pointer block.
  id_place :
      (ps : List Piece) (ptr' : Buffer)
      → Assigned old ptr' ids (length ids) ps
      → (i : ℕ) → i < pointer_block_item_count
      → id_at ptr' i ≢ 0
      → (data_start ≤ id_at ptr' i) × (id_at ptr' i < data_end) × (id_at ptr' i ≢ pb)
  id_place ps ptr' s i lt ne = pick (s.from_ids i)
    where
      pick :
          (id_at ptr' i ≡ id_at old i)
            ⊎ ((k : ℕ) × (k < length ids) × (id_at ptr' i ≡ nth_id ids k))
          → (data_start ≤ id_at ptr' i) × (id_at ptr' i < data_end) × (id_at ptr' i ≢ pb)
      pick (inl e) =
          let (a, b, u, apart) = ok.ids_place i lt (λ z. ne (e ∙ z)) in
          (omega arith, omega arith, λ q. apart (sym e ∙ q))
      pick (inr (k, h, e)) =
          let (a, b, c) = new_id k h in
          (omega arith, omega arith, λ q. used_free pb (nth_id ids k) ok.own_place.2 c (sym e ∙ q))

  blocks_there :
      (ps qs : List Piece) (ptr' : Buffer)
      → Assigned old ptr' ids (length ids) qs
      → in_pointer_block ps ≡ true
      → All (λ p. id_at ptr' p.index ≢ 0) ps
      → All (λ p. (id_at ptr' p.index ≢ 0) × (id_at ptr' p.index < block_num)) ps
  unfolding in_pointer_block
  blocks_there [] qs ptr' s inside f = tt
  blocks_there (p ∷ ps) qs ptr' s inside f =
      let (a, b, c) = id_place qs ptr' s p.index (ground arith) f.0 in
      ((f.0, omega arith), blocks_there ps qs ptr' s (ground arith) f.1)

-- What the file at `pointer_block` holds after a write of `size` bytes at `offset`.
pub record Wrote (d d' : Disk) (pointer_block : ℕ) (buffer : Buffer) (size offset : ℕ)
    : Type 0 where
  pub bytes_written :
      (at : ℕ)
      → at < file_limit
      → within offset size at ≡ true
      → file_byte d' (block_read d' pointer_block) at ≡ buffer (at - offset)
  pub bytes_kept :
      (at : ℕ)
      → at < file_limit
      → within offset size at ≡ false
      → id_at (block_read d pointer_block) (at / block_size) ≢ 0
      → file_byte d' (block_read d' pointer_block) at ≡ file_byte d (block_read d pointer_block) at

module _ (d d1 : Disk) (pb : ℕ) (ok : FileOk d pb) (ids : List ℕ)
    (free : FreeIds (block_used d) data_start data_end ids) (takes : Takes ids d d1)
    (buffer : Buffer) (size offset : ℕ)
    (enough : count_missing (block_read d pb) (pieces size offset) ≤ length ids)
    (inside : in_pointer_block (pieces size offset) ≡ true) (inode_id : ℕ) (inode : Inode)
    (lt : inode_id < inode_num) (fits : InodeFits inode) where
  abbrev ps : List Piece
  ps = pieces size offset

  abbrev ptr' : Buffer
  ptr' = assign (block_read d pb) ids (length ids) ps

  abbrev d3 : Disk
  d3 = write_all d1 ptr' ps buffer 0

  abbrev d2 : Disk
  d2 = inode_write (block_write d3 pb ptr') inode_id inode

  assigned : Assigned (block_read d pb) ptr' ids (length ids) ps
  assigned =
      assign-Assigned (block_read d pb) ids (length ids) ps (Assignable-free d pb ok ids free)
        enough inside

  writable : Writable ptr' ps
  writable = record {
    there = blocks_there d pb ok ids free ps ps ptr' assigned inside assigned.filled;
    apart = assigned.all_apart;
  }

  table_apart :
      (id : ℕ) → data_start ≤ id → block_read d2 id ≡ block_read (block_write d3 pb ptr') id
  table_apart id h = (inode_read-write (block_write d3 pb ptr') inode_id inode lt fits).2 id (inr h)

  pointers_after : block_read d2 pb ≡ ptr'
  pointers_after =
      let (a, b, c) = ok.own_place in
      table_apart pb a ∙ block_read-write_self d3 pb ptr' (omega arith)

  byte_after :
      (at : ℕ)
      → at < file_limit
      → id_at ptr' (at / block_size) ≢ 0
      → file_byte d2 (block_read d2 pb) at
        ≡ (if within offset size at then buffer (0 + (at - offset)) else file_byte d1 ptr' at)
  byte_after at h ne =
      let (a, b, c) =
        id_place d pb ok ids free ps ptr' assigned (at / block_size) (omega arith) ne in
      ap (λ (p : Buffer). file_byte d2 p at) pointers_after
      ∙ ap (λ (b : Buffer). b (at % block_size)) (table_apart (id_at ptr' (at / block_size)) a)
      ∙ ap (λ (b : Buffer). b (at % block_size))
          (block_read-write_other d3 pb (id_at ptr' (at / block_size)) ptr' (λ q. c (sym q)))
      ∙ write_all-byte d1 ptr' ps buffer 0 offset size at (pieces-Covers size offset) inside
          writable h

  pub whole-Wrote : Wrote d d2 pb buffer size offset
  whole-Wrote = record {
    bytes_written = λ at h w.
        let ne =
          covered_filled ptr' ps offset size at (pieces-Covers size offset) assigned.filled w in
        let e : 0 + (at - offset) ≡ at - offset = omega arith in byte_after at h ne ∙ rw (w, e);
    bytes_kept = λ at h w ne.
        let kept = assigned.old_kept (at / block_size) ne in
        let (a, b, c, e) = ok.ids_place (at / block_size) (omega arith) ne in
        byte_after at h (λ z. ne (sym kept ∙ z))
        ∙ rw w (
            ap (λ k. block_read d1 k (at % block_size)) kept
            ∙ ap (λ (b : Buffer). b (at % block_size))
                (takes.same (id_at (block_read d pb) (at / block_size)) (omega arith)));
  }
