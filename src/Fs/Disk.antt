-- ===== src/Fs/Disk.antt =====
-- fslab/disk.c and the block layer of fslab/fs.c, with the layout of the disk.
pub mod Many
use ics.Common.{ℕ, zero, suc, ◌+◌, ◌-◌, ◌*◌, ◌/◌, Option, none, some, leb, ◌==◌, if◌then◌else◌}
use ics.Bytes.{Buffer, copy, zeros}

abbrev pub block_size : ℕ
block_size = 4096

abbrev pub block_num : ℕ
block_num = 65536

-- One file for each block, of `block_size` bytes.
abbrev pub Disk : Type 0
Disk = ℕ → Buffer

-- What `disk_init` writes.
abbrev pub fresh_disk : Disk
fresh_disk id = zeros

-- `none` stands for the result 1, with nothing read or written.
unfoldable pub disk_read : Disk → ℕ → Option Buffer
disk_read d id = if leb block_num id then none else some (d id)

unfoldable pub disk_write : Disk → ℕ → Buffer → Option Disk
disk_write d id b = if leb block_num id then none else some (λ k. if k == id then b else d k)

-- A `block_id_t` has 16 bits, so the result 1, which the code ignores, is not met.
unfoldable pub block_read : Disk → ℕ → Buffer
block_read d id = elim (disk_read d id) [ none ↦ zeros | some b ↦ b ]

unfoldable pub block_write : Disk → ℕ → Buffer → Disk
block_write d id b = elim (disk_write d id b) [ none ↦ d | some d' ↦ d' ]

unfoldable pub block_empty : Disk → ℕ → Disk
block_empty d id = block_write d id zeros

-- The loop of `block_read_many`: `n` blocks from `i` on, to the buffer from `at` on.
unfoldable pub block_read_many : ℕ → Disk → ℕ → Buffer → ℕ → Buffer
block_read_many zero d i buffer at = buffer
block_read_many (suc n) d i buffer at =
    block_read_many n d (i + 1) (copy block_size buffer at (block_read d i) 0) (at + block_size)

-- The bytes of a buffer from an offset on.
abbrev pub from : Buffer → ℕ → Buffer
from b at off = b (at + off)

unfoldable pub block_write_many : ℕ → Disk → ℕ → Buffer → ℕ → Disk
block_write_many zero d i buffer at = d
block_write_many (suc n) d i buffer at =
    block_write_many n (block_write d i (from buffer at)) (i + 1) buffer (at + block_size)

-- The layout: block bitmap, inode bitmap, inode table, pointer and data blocks.
abbrev pub inode_num : ℕ
inode_num = 32768

abbrev pub inode_size : ℕ
inode_size = 32

abbrev pub block_bitmap_block_start : ℕ
block_bitmap_block_start = 0

abbrev pub block_bitmap_block_num : ℕ
block_bitmap_block_num = block_num / block_size / 8

abbrev pub inode_bitmap_block_start : ℕ
inode_bitmap_block_start = block_bitmap_block_start + block_bitmap_block_num

abbrev pub inode_bitmap_block_num : ℕ
inode_bitmap_block_num = inode_num / block_size / 8

abbrev pub inode_block_start : ℕ
inode_block_start = inode_bitmap_block_start + inode_bitmap_block_num

abbrev pub inode_block_num : ℕ
inode_block_num = inode_num * inode_size / block_size

abbrev pub data_start : ℕ
data_start = inode_block_start + inode_block_num

abbrev pub data_end : ℕ
data_end = block_num - 1

abbrev pub data_num : ℕ
data_num = data_end - data_start

abbrev pub pointer_block_item_count : ℕ
pointer_block_item_count = block_size / 2
