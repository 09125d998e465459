-- ===== src/Fs/Alloc/Inodes.antt =====
-- Allocation of inodes: `inode_new` and `inode_delete`.
use ics.Common.{
  ℕ, ◌-◌, ◌*◌, ◌/◌, ◌%◌, ◌≤◌, ◌<◌, ◌≡◌, refl, ap, ◌∙◌, ◌⊎◌, Bool, true, false, Option, none, some,
  arith, ◌==◌, if◌then◌else◌,
}
use ics.Bytes.{Buffer, IsBytes}
use ics.Bytes.Laws.{get_le_cong}
use ics.Fs.Disk.{
  block_size, Disk, block_read, inode_num, inode_bitmap_block_start, inode_block_start,
}
use ics.Fs.Disk.Many.{block_write_many_outside, block_read_many-write_many}
use ics.Fs.Bitmap.{bit, bitmap_get_member, bitmap_set_member, inode_bitmap_read, inode_bitmap_write}
use ics.Fs.Bitmap.Member.{bitmap_get_member-set}
use ics.Fs.Alloc.{inode_new, inode_delete, Out, enospc, done, failed, faulted}
use ics.Fs.Alloc.Search.{FirstFree, first_free-FirstFree}

-- What the bitmap on the disk says of an inode.
abbrev pub inode_used : Disk → ℕ → Bool
inode_used d i = bitmap_get_member (inode_bitmap_read d) i

-- The inode bitmap's block holds bytes.
abbrev pub InodeBytesOnDisk : Disk → Type 0
InodeBytesOnDisk d = IsBytes (inode_bitmap_read d)

member_cong :
    (b c : Buffer) (j : ℕ)
    → ((k : ℕ) → k < block_size → b k ≡ c k)
    → j < inode_num
    → bitmap_get_member b j ≡ bitmap_get_member c j
unfolding bitmap_get_member
member_cong b c j h lt =
    ap (λ w. bit w (j % 64)) (get_le_cong 8 b c (8 * (j / 64)) (λ k p q. h k (omega arith)))

inode_used-write :
    (d : Disk) (bitmap : Buffer) (j : ℕ)
    → j < inode_num
    → inode_used (inode_bitmap_write d bitmap) j ≡ bitmap_get_member bitmap j
unfolding inode_bitmap_read inode_bitmap_write
inode_used-write d bitmap j lt =
    member_cong _ bitmap j
      (λ k p. block_read_many-write_many 1 d 2 bitmap k (omega arith) (omega arith)) lt

-- The mark of inode `i` is `v`, the other inodes keep theirs, and no other block changes.
pub record Marks (i : ℕ) (v : Bool) (d d' : Disk) : Type 0 where
  pub marked : (j : ℕ) → j < inode_num → inode_used d' j ≡ (if i == j then v else inode_used d j)
  pub same :
      (id : ℕ)
      → (id < inode_bitmap_block_start) ⊎ (inode_block_start ≤ id)
      → block_read d' id ≡ block_read d id

Marks-write :
    (d : Disk) (i : ℕ) (v : Bool)
    → InodeBytesOnDisk d
    → Marks i v d (inode_bitmap_write d (bitmap_set_member (inode_bitmap_read d) i v))
unfolding inode_bitmap_write
Marks-write d i v h = record {
  marked = λ j lt. inode_used-write d _ j lt ∙ bitmap_get_member-set (inode_bitmap_read d) i j v h;
  same = λ id out. block_write_many_outside 1 d 2 _ 0 id (ground arith);
}

-- What `inode_new` promises of each outcome.
abbrev pub NewInode : Disk → Out ℕ → Type 0
NewInode d (done i d') = (0 < i) × (i < inode_num) × (inode_used d i ≡ false) × Marks i true d d'
NewInode d (failed e d') =
    (e ≡ enospc) × (d' ≡ d) × ((k : ℕ) → 0 < k → k < inode_num → inode_used d k ≡ true)
NewInode d faulted = ⊥

new_of_search :
    (d : Disk) (r : Option ℕ)
    → InodeBytesOnDisk d
    → FirstFree (inode_used d) (inode_num - 1) 1 r
    → NewInode d (elim r [
      | none ↦ failed enospc d
      | some i ↦ done i (inode_bitmap_write d (bitmap_set_member (inode_bitmap_read d) i true))
    ])
new_of_search d none h f = (refl, refl, f)
new_of_search d (some i) h (lo, hi, free, _) = (lo, hi, free, Marks-write d i true h)

-- On a disk whose inode bitmap holds bytes, `inode_new` returns an inode other than the root that
-- was free, marks it, and it alone, as used, and changes no block outside the bitmap; or it fails
-- with ENOSPC and changes nothing, and then every inode but the root is used.
pub inode_new-NewInode : (d : Disk) → InodeBytesOnDisk d → NewInode d (inode_new d)
unfolding inode_new
inode_new-NewInode d h = new_of_search d _ h (first_free-FirstFree (inode_used d) (inode_num - 1) 1)

-- On a disk whose inode bitmap holds bytes, `inode_delete` marks the inode, and it alone, as free,
-- and changes no block outside the bitmap.
pub inode_delete-Marks :
    (d : Disk) (inode_id : ℕ)
    → InodeBytesOnDisk d
    → Marks inode_id false d (inode_delete d inode_id)
unfolding inode_delete
inode_delete-Marks d inode_id h = Marks-write d inode_id false h
