-- ===== src/Fs/Alloc/Blocks/Delete.antt =====
-- Deletion: `block_delete`.
use ics.Common.{
  ℕ, ◌≤◌, ◌<◌, ◌≡◌, refl, ap, ◌∙◌, inl, inr, Bool, true, false, List, [], ◌∷◌, ◌==◌, if◌then◌else◌,
  ==_iff, Bool-cases,
}
use ics.Bytes.{Buffer, zeros}
use ics.Fs.Disk.{block_num, Disk, block_read, block_write, block_empty, block_bitmap_block_num}
use ics.Fs.Disk.Many.{block_read-write_self, block_read-write_other}
use ics.Fs.Bitmap.{bitmap_get_member, bitmap_set_member, block_bitmap_read}
use ics.Fs.Alloc.{set_members, delete_loop, block_delete}
use ics.Fs.Alloc.Blocks.{
  block_used, BytesOnDisk, block_used-write, block_bitmap_write_outside, has_id,
  bitmap_get_member-set_members,
}

delete_loop-bitmap :
    (b : Buffer) (d : Disk) (ids : List ℕ) → (delete_loop b d ids).0 ≡ set_members b ids false
unfolding delete_loop set_members
delete_loop-bitmap b d [] = refl
delete_loop-bitmap b d (i ∷ ids) = delete_loop-bitmap (bitmap_set_member b i false) _ ids

delete_loop-disk :
    (b : Buffer) (d : Disk) (ids : List ℕ) (id : ℕ)
    → id < block_num
    → block_read (delete_loop b d ids).1 id ≡ (if has_id id ids then zeros else block_read d id)
unfolding delete_loop has_id block_empty
delete_loop-disk b d [] id lt = refl
delete_loop-disk b d (i ∷ ids) id lt = elim (Bool-cases (i == id)) [
  | inl e ↦
      let same : i ≡ id = (==_iff i id).0 e in
      let read : block_read (block_write d i zeros) id ≡ zeros =
        rw same (block_read-write_self d id zeros lt) in
      rw e (
        delete_loop-disk (bitmap_set_member b i false) (block_write d i zeros) ids id lt
        ∙ rw read (if_same (has_id id ids)))
  | inr e ↦
      let read : block_read (block_write d i zeros) id ≡ block_read d id =
        block_read-write_other d i id zeros (λ q. cc ((==_iff i id).1 q)) in
      rw e
        (delete_loop-disk (bitmap_set_member b i false) (block_write d i zeros) ids id lt ∙ rw read)
]
  where
    if_same : (t : Bool) → (if t then zeros else zeros) ≡ zeros
    if_same true = refl
    if_same false = refl

-- The listed blocks become free and are filled with zeros; every other block of the bitmap's range
-- keeps its mark, and every other block outside the bitmap its contents.
pub record Frees (ids : List ℕ) (d d' : Disk) : Type 0 where
  pub freed :
      (j : ℕ) → j < block_num → block_used d' j ≡ (if has_id j ids then false else block_used d j)
  pub emptied :
      (id : ℕ)
      → block_bitmap_block_num ≤ id
      → id < block_num
      → block_read d' id ≡ (if has_id id ids then zeros else block_read d id)

-- On a disk whose block bitmap holds bytes, `block_delete` marks exactly the blocks of its array as
-- free and fills them with zeros; the other blocks keep their marks and, outside the bitmap, their
-- contents.
pub block_delete-Frees :
    (d : Disk) (ids : List ℕ) → BytesOnDisk d → Frees ids d (block_delete d ids)
unfolding block_delete has_id
block_delete-Frees d [] h = record { freed = λ j lt. refl; emptied = λ id le lt. refl }
block_delete-Frees d (i ∷ ids) h = record {
  freed = λ j lt.
      block_used-write _ _ j lt
      ∙ ap (λ (b : Buffer). bitmap_get_member b j)
          (delete_loop-bitmap (block_bitmap_read d) d (i ∷ ids))
      ∙ bitmap_get_member-set_members (block_bitmap_read d) (i ∷ ids) false j h;
  emptied = λ id le lt.
      block_bitmap_write_outside _ _ id le
      ∙ delete_loop-disk (block_bitmap_read d) d (i ∷ ids) id lt;
}
