-- ===== src/Malloc/OldBlock.antt =====
-- The block headers of malloclab/block.h. They have the layout of those in malloclab/mm.c, and are
-- accessed in units of one and two bytes. Pointers are offsets from `mem_heap_lo()`.
pub mod Same
use ics.Common.{ℕ, ◌+◌, ◌-◌, ◌*◌, ◌/◌, ◌%◌, ◌^◌, ◌==◌, if◌then◌else◌}
use ics.Bytes.{Buffer, update, get_le, put_le}
use ics.Malloc.Block.{
  get_block_type, read_bit, get_block_is_free, transformed, join_24, write_split, write_with_type,
  block_8_aligned, block_4_aligned,
}

unfoldable pub make_high_16_low_8 : Buffer → ℕ → ℕ → ℕ
make_high_16_low_8 m p16 p8 = get_le 2 m p16 * 2 ^ 8 + m p8

unfoldable pub make_high_8_low_16 : Buffer → ℕ → ℕ → ℕ
make_high_8_low_16 m p8 p16 = m p8 * 2 ^ 16 + get_le 2 m p16

unfoldable pub make_high_16_low_8_transformed : Buffer → ℕ → ℕ → ℕ
make_high_16_low_8_transformed m p16 p8 = make_high_16_low_8 m p16 p8 / 2 * 4

unfoldable pub make_high_8_low_16_transformed : Buffer → ℕ → ℕ → ℕ
make_high_8_low_16_transformed m p8 p16 = make_high_8_low_16 m p8 p16 / 2 * 4

-- The high byte first, then the two low bytes with the bit that is there.
unfoldable pub replace_high_8_low_16_preserve_low_bit : Buffer → ℕ → ℕ → ℕ → Buffer
replace_high_8_low_16_preserve_low_bit m p8 p16 value =
    let b0 = update m p8 (2 * value / 2 ^ 16 % 256) in put_le 2 b0 p16 (2 * value + read_bit b0 p16)

-- The two high bytes first, then the low byte with the bit that is there.
unfoldable pub replace_high_16_low_8_preserve_low_bit : Buffer → ℕ → ℕ → ℕ → Buffer
replace_high_16_low_8_preserve_low_bit m p16 p8 value =
    let b0 = put_le 2 m p16 (2 * value / 2 ^ 8) in update b0 p8 ((2 * value + read_bit b0 p8) % 256)

unfoldable pub get_block_length : Buffer → ℕ → ℕ
get_block_length m block = make_high_8_low_16_transformed m (block + 2) block

unfoldable pub set_block_length_footer : Buffer → ℕ → ℕ → Buffer
set_block_length_footer m block value =
    replace_high_16_low_8_preserve_low_bit m (block + value - 2) (block + value - 3)
      (transformed value)

unfoldable pub set_block_length : Buffer → ℕ → ℕ → Buffer
set_block_length m block value =
    let m' = replace_high_8_low_16_preserve_low_bit m (block + 2) block (transformed value) in
    if get_block_is_free m' block then set_block_length_footer m' block value else m'

unfoldable pub get_block_header_second_part_offseted : Buffer → ℕ → ℕ
get_block_header_second_part_offseted m block =
    let block_end = block + get_block_length m block in
    block_end - (if get_block_is_free m block then 3 else 0) - 12

-- Index 1 to 3; for any other the result is -1.
unfoldable pub read_8_aligned : Buffer → ℕ → ℕ → ℕ → ℕ
read_8_aligned m block second_part index =
    if index == 1
    then make_high_16_low_8_transformed m (block + 4) (block + 3)
    else if index == 2
    then join_24 (m (block + 6)) (m (block + 7) / 2 * 2 + read_bit m (second_part + 9))
        (m (second_part + 8))
    else if index == 3
    then make_high_16_low_8_transformed m (second_part + 10) (second_part + 9)
    else 2 ^ 32 - 1

unfoldable pub read_4_aligned : Buffer → ℕ → ℕ → ℕ
read_4_aligned m block index =
    if index == 1
    then make_high_16_low_8_transformed m (block + 4) (block + 3)
    else if index == 2
    then make_high_8_low_16_transformed m (block + 8) (block + 6)
    else if index == 3
    then join_24 (m (block + 9)) (m (block + 10)) (m (block + 11) / 2 * 2 + m (block + 9) % 2)
    else 2 ^ 32 - 1

unfoldable pub read_block_header_integer : Buffer → ℕ → ℕ → ℕ
read_block_header_integer m block index = elim (get_block_type block) [
  | block_8_aligned ↦ read_8_aligned m block (get_block_header_second_part_offseted m block) index
  | block_4_aligned ↦ read_4_aligned m block index
]

-- `write_split` and `write_with_type` are the same lines as in malloclab/mm.c.
unfoldable pub write_block_header_integer : Buffer → ℕ → ℕ → ℕ → Buffer
write_block_header_integer m block index value = elim (get_block_type block) [
  | block_8_aligned ↦
      let second_part = get_block_header_second_part_offseted m block in
      if index == 1
      then replace_high_8_low_16_preserve_low_bit m (block + 5) (block + 3) (transformed value)
      else if index == 2
      then write_split m block second_part (transformed value)
      else if index == 3
      then replace_high_8_low_16_preserve_low_bit m (second_part + 11) (second_part + 9)
          (transformed value)
      else m
  | block_4_aligned ↦
      if index == 1
      then replace_high_16_low_8_preserve_low_bit m (block + 4) (block + 3) (transformed value)
      else if index == 2
      then replace_high_8_low_16_preserve_low_bit m (block + 8) (block + 6) (transformed value)
      else if index == 3
      then write_with_type m block (transformed value)
      else m
]
