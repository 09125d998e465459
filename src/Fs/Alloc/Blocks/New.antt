-- ===== src/Fs/Alloc/Blocks/New.antt =====
-- Allocation: `block_new`, `block_new_many` and `block_seek`.
use ics.Common.{
  ℕ, zero, suc, ◌≤◌, ◌<◌, ◌≡◌, refl, ◌∙◌, inl, inr, Bool, true, false, Option, none, some, List, [],
  ◌∷◌, arith, ltb, ◌==◌, if◌then◌else◌, ltb→lt, Bool-cases, length,
}
use ics.Fs.Disk.{
  block_num, Disk, block_read, block_bitmap_block_num, data_start, data_end, data_num,
}
use ics.Fs.Bitmap.{bitmap_set_member, block_bitmap_read, block_bitmap_write}
use ics.Fs.Alloc.{
  take_free, set_members, block_new, block_new_many, block_seek, Out, enospc, done, failed, faulted,
}
use ics.Fs.Alloc.Search.{
  FirstFree, first_free-FirstFree, FreeIds, take_free-FreeIds, length-take_free, count_free,
  length-take_free-eq-min, seek_free-take_free,
}
use ics.Fs.Alloc.Blocks.{
  block_used, BytesOnDisk, block_used-write, block_bitmap_write_outside, has_id,
  bitmap_get_member-set_members,
}

-- Exactly the listed blocks become used, and no block outside the bitmap changes.
pub record Takes (ids : List ℕ) (d d' : Disk) : Type 0 where
  pub taken :
      (j : ℕ) → j < block_num → block_used d' j ≡ (if has_id j ids then true else block_used d j)
  pub same : (id : ℕ) → block_bitmap_block_num ≤ id → block_read d' id ≡ block_read d id

Takes-write :
    (d : Disk) (ids : List ℕ)
    → BytesOnDisk d
    → Takes ids d (block_bitmap_write d (set_members (block_bitmap_read d) ids true))
Takes-write d ids h = record {
  taken = λ j lt.
      block_used-write d _ j lt ∙ bitmap_get_member-set_members (block_bitmap_read d) ids true j h;
  same = λ id le. block_bitmap_write_outside d _ id le;
}

-- What `block_new` promises of each outcome.
abbrev pub NewBlock : Disk → Out ℕ → Type 0
NewBlock d (done i d') =
    (data_start ≤ i) × (i < data_end) × (block_used d i ≡ false) × Takes (i ∷ []) d d'
NewBlock d (failed e d') =
    (e ≡ enospc) × (d' ≡ d) × ((k : ℕ) → data_start ≤ k → k < data_end → block_used d k ≡ true)
NewBlock d faulted = ⊥

new_of_search :
    (d : Disk) (r : Option ℕ)
    → BytesOnDisk d
    → FirstFree (block_used d) data_num data_start r
    → NewBlock d (elim r [
      | none ↦ failed enospc d
      | some i ↦ done i (block_bitmap_write d (bitmap_set_member (block_bitmap_read d) i true))
    ])
unfolding set_members
new_of_search d none h f = (refl, refl, f)
new_of_search d (some i) h (lo, hi, free, _) = (lo, hi, free, Takes-write d (i ∷ []) h)

-- On a disk whose block bitmap holds bytes, `block_new` returns a data block that was free, marks
-- it, and it alone, as used, and changes no block outside the bitmap; or it fails with ENOSPC and
-- changes nothing, and then every data block is used.
pub block_new-NewBlock : (d : Disk) → BytesOnDisk d → NewBlock d (block_new d)
unfolding block_new
block_new-NewBlock d h =
    new_of_search d _ h (first_free-FirstFree (block_used d) data_num data_start)

-- How many data blocks are free.
abbrev pub free_blocks : Disk → ℕ
free_blocks d = count_free (block_used d) data_num data_start

abbrev pub NewBlocks : ℕ → Disk → Out (List ℕ) → Type 0
NewBlocks n d (done ids d') =
    (length ids ≡ n) × FreeIds (block_used d) data_start data_end ids × Takes ids d d'
NewBlocks n d (failed e d') = (e ≡ enospc) × (d' ≡ d) × (free_blocks d < n)
NewBlocks n d faulted = ⊥

Takes-nil : (d : Disk) → Takes [] d d
unfolding has_id
Takes-nil d = record { taken = λ j lt. refl; same = λ id le. refl }

-- On a disk whose block bitmap holds bytes, `block_new_many` takes `n` different data blocks that
-- were free, marks exactly those as used and changes no block outside the bitmap, or fails with
-- ENOSPC and changes nothing, and then fewer than `n` are free.
pub block_new_many-NewBlocks :
    (n : ℕ) (d : Disk) → BytesOnDisk d → NewBlocks n d (block_new_many n d)
unfolding block_new_many
block_new_many-NewBlocks n d h =
    let ids = take_free (block_used d) n data_num data_start in
    let count = length-take_free-eq-min (block_used d) n data_num data_start in
    let bound : length ids ≤ n = length-take_free (block_used d) n data_num data_start in
    let free : FreeIds (block_used d) data_start data_end ids =
      take_free-FreeIds (block_used d) n data_num data_start in
    elim (Bool-cases (n == 0)) [
      | inl z ↦ let z' : 0 ≡ n = ground arith in rw z (z', tt, Takes-nil d)
      | inr nz ↦ rw nz (elim (Bool-cases (ltb (length ids) n)) [
        | inl few ↦ let short = ltb→lt (length ids) n few in rw few (refl, refl, omega arith)
        | inr all ↦ let e : length ids ≡ n = ground arith in rw all (e, free, Takes-write d ids h)
      ])
    ]

abbrev pub succeeds {ℓ} : {A : Type ℓ} → Out A → Bool
succeeds (done a d) = true
succeeds (failed e d) = false
succeeds faulted = false

-- `block_seek` foretells `block_new_many`: it answers true exactly where that succeeds.
pub block_seek-new_many : (n : ℕ) (d : Disk) → block_seek n d ≡ succeeds (block_new_many n d)
unfolding block_seek block_new_many
block_seek-new_many zero d = refl
block_seek-new_many (suc n) d =
    ground (arith, seek_free-take_free (block_used d) n data_num data_start)
