-- ===== src/Fs/Bitmap.antt =====
-- The bitmaps of fslab/fs.c: 64-bit words that lie in a buffer.
pub mod Bits
pub mod Member
use ics.Common.{ℕ, zero, suc, ◌+◌, ◌*◌, ◌/◌, ◌%◌, Bool, ◌==◌, if◌then◌else◌}
use ics.Bytes.{Buffer, get_le, put_le, zeros}
use ics.Fs.Disk.{
  Disk, block_read_many, block_write_many, block_bitmap_block_start, block_bitmap_block_num,
  inode_bitmap_block_start, inode_bitmap_block_num,
}

-- `(w >> k) & 1`, one shift at a time.
unfoldable pub bit : ℕ → ℕ → Bool
bit w zero = w % 2 == 1
bit w (suc k) = bit (w / 2) k

abbrev pub bit_value : Bool → ℕ
bit_value v = if v then 1 else 0

-- `w | (1 << k)` for true, and `w & ~(1 << k)` for false.
unfoldable pub set_bit : ℕ → ℕ → Bool → ℕ
set_bit w zero v = w / 2 * 2 + bit_value v
set_bit w (suc k) v = set_bit (w / 2) k v * 2 + w % 2

-- `bitmap[k]`
abbrev pub word : Buffer → ℕ → ℕ
word bitmap k = get_le 8 bitmap (8 * k)

unfoldable pub bitmap_get_member : Buffer → ℕ → Bool
bitmap_get_member bitmap i = bit (word bitmap (i / 64)) (i % 64)

unfoldable pub bitmap_set_member : Buffer → ℕ → Bool → Buffer
bitmap_set_member bitmap i value =
    put_le 8 bitmap (8 * (i / 64)) (set_bit (word bitmap (i / 64)) (i % 64) value)

-- The loop of `bitmap_count_impl`, from the index and the result so far.
unfoldable pub bitmap_count_from : ℕ → Buffer → ℕ → ℕ → ℕ
bitmap_count_from zero bitmap i result = result
bitmap_count_from (suc n) bitmap i result =
    bitmap_count_from n bitmap (i + 1) (if bitmap_get_member bitmap i then result + 1 else result)

unfoldable pub bitmap_count : Buffer → ℕ → ℕ
bitmap_count bitmap size = bitmap_count_from size bitmap 0 0

unfoldable pub block_bitmap_read : Disk → Buffer
block_bitmap_read d = block_read_many block_bitmap_block_num d block_bitmap_block_start zeros 0

unfoldable pub block_bitmap_write : Disk → Buffer → Disk
block_bitmap_write d bitmap =
    block_write_many block_bitmap_block_num d block_bitmap_block_start bitmap 0

unfoldable pub inode_bitmap_read : Disk → Buffer
inode_bitmap_read d = block_read_many inode_bitmap_block_num d inode_bitmap_block_start zeros 0

unfoldable pub inode_bitmap_write : Disk → Buffer → Disk
inode_bitmap_write d bitmap =
    block_write_many inode_bitmap_block_num d inode_bitmap_block_start bitmap 0
