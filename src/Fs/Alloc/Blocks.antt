-- ===== src/Fs/Alloc/Blocks.antt =====
-- The block bitmap on the disk: what allocation and deletion change in it, and in no other block.
pub mod New
pub mod Delete
use ics.Common.{
  ℕ, ◌*◌, ◌/◌, ◌%◌, ◌≤◌, ◌<◌, ◌≡◌, refl, ap, inr, Bool, false, ◌||◌, List, [], ◌∷◌, arith, ◌==◌,
  if◌then◌else◌,
}
use ics.Bytes.{Buffer, IsBytes}
use ics.Bytes.Laws.{get_le_cong}
use ics.Fs.Disk.{block_size, block_num, Disk, block_read, block_bitmap_block_num}
use ics.Fs.Disk.Many.{block_write_many_outside, block_read_many-write_many}
use ics.Fs.Bitmap.{bit, bitmap_get_member, bitmap_set_member, block_bitmap_read, block_bitmap_write}
use ics.Fs.Bitmap.Member.{bitmap_set_member-IsBytes, bitmap_get_member-set}
use ics.Fs.Alloc.{set_members}

-- What the bitmap on the disk says of a block.
abbrev pub block_used : Disk → ℕ → Bool
block_used d i = bitmap_get_member (block_bitmap_read d) i

-- The bitmap's blocks hold bytes.
abbrev pub BytesOnDisk : Disk → Type 0
BytesOnDisk d = IsBytes (block_bitmap_read d)

member_cong :
    (b c : Buffer) (j : ℕ)
    → ((k : ℕ) → k < 2 * block_size → b k ≡ c k)
    → j < block_num
    → bitmap_get_member b j ≡ bitmap_get_member c j
unfolding bitmap_get_member
member_cong b c j h lt =
    ap (λ w. bit w (j % 64)) (get_le_cong 8 b c (8 * (j / 64)) (λ k p q. h k (omega arith)))

-- The bitmap that is written is the one that is read back.
pub block_used-write :
    (d : Disk) (bitmap : Buffer) (j : ℕ)
    → j < block_num
    → block_used (block_bitmap_write d bitmap) j ≡ bitmap_get_member bitmap j
unfolding block_bitmap_read block_bitmap_write
block_used-write d bitmap j lt =
    member_cong _ bitmap j (λ k p. block_read_many-write_many 2 d 0 bitmap k (omega arith) p) lt

-- Writing the bitmap leaves every other block as it is.
pub block_bitmap_write_outside :
    (d : Disk) (bitmap : Buffer) (id : ℕ)
    → block_bitmap_block_num ≤ id
    → block_read (block_bitmap_write d bitmap) id ≡ block_read d id
unfolding block_bitmap_write
block_bitmap_write_outside d bitmap id h =
    block_write_many_outside 2 d 0 bitmap 0 id (inr (omega arith))

-- Whether a number stands in a list.
unfoldable pub has_id : ℕ → List ℕ → Bool
has_id j [] = false
has_id j (i ∷ ids) = i == j || has_id j ids

pub set_members-IsBytes :
    (b : Buffer) (ids : List ℕ) (v : Bool) → IsBytes b → IsBytes (set_members b ids v)
unfolding set_members
set_members-IsBytes b [] v h = h
set_members-IsBytes b (i ∷ ids) v h =
    set_members-IsBytes (bitmap_set_member b i v) ids v (bitmap_set_member-IsBytes b i v h)

pub bitmap_get_member-set_members :
    (b : Buffer) (ids : List ℕ) (v : Bool) (j : ℕ)
    → IsBytes b
    → bitmap_get_member (set_members b ids v) j
      ≡ (if has_id j ids then v else bitmap_get_member b j)
unfolding set_members has_id
bitmap_get_member-set_members b [] v j h = refl
bitmap_get_member-set_members b (i ∷ ids) v j h = ground (
  arith,
  bitmap_get_member-set_members (bitmap_set_member b i v) ids v j
      (bitmap_set_member-IsBytes b i v h),
  bitmap_get_member-set b i j v h,
)
