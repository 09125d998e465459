-- ===== src/Malloc/Block.antt =====
-- The block headers of malloclab/mm.c, with fields of 23 bits. A block is its offset from
-- `mem_heap_lo()`, which is a multiple of 8, and memory is the bytes from there on.
pub mod Words
pub mod Fields
pub mod Eight
pub mod Four
pub mod RoundTrip
pub mod Length
pub mod Frame
pub mod ColorBit
use ics.Common.{ℕ, zero, suc, ◌+◌, ◌-◌, ◌*◌, ◌/◌, ◌%◌, ◌^◌, max, Bool, ◌==◌, if◌then◌else◌}
use ics.Bytes.{Buffer, update, get_le}

pub data BlockType : Type 0 where
  block_8_aligned block_4_aligned : BlockType

unfoldable pub get_block_type : ℕ → BlockType
get_block_type block = if block / 4 % 2 == 0 then block_8_aligned else block_4_aligned

unfoldable pub read_24 : Buffer → ℕ → ℕ
read_24 m p24 = get_le 4 m p24 % 2 ^ 24

abbrev pub read_bit : Buffer → ℕ → ℕ
read_bit m pb = m pb % 2

unfoldable pub read_24_transformed : Buffer → ℕ → ℕ
read_24_transformed m p24 = read_24 m p24 / 2 * 4

-- `x | y` on bytes.
unfoldable pub or_bits : ℕ → ℕ → ℕ → ℕ
or_bits zero x y = 0
or_bits (suc n) x y = 2 * or_bits n (x / 2) (y / 2) + max (x % 2) (y % 2)

-- The four bytes of `(value << 1) | (old & 0xFF000001)`.
unfoldable pub write_24_preserve_low_bit : Buffer → ℕ → ℕ → Buffer
write_24_preserve_low_bit m p24 value =
    let word = 2 * value in
    let b0 = update m p24 (word % 256 + m p24 % 2) in
    let b1 = update b0 (p24 + 1) (word / 2 ^ 8 % 256) in
    let b2 = update b1 (p24 + 2) (word / 2 ^ 16 % 256) in
    update b2 (p24 + 3) (or_bits 8 (word / 2 ^ 24 % 256) (m (p24 + 3)))

unfoldable pub write_bit : Buffer → ℕ → ℕ → Buffer
write_bit m pb value = update m pb (m pb / 2 * 2 + value)

unfoldable pub get_block_length : Buffer → ℕ → ℕ
get_block_length m block = read_24_transformed m block

unfoldable pub get_block_is_free : Buffer → ℕ → Bool
get_block_is_free m block = read_bit m block == 1

-- `(uint32_t)(value >> 2)`
abbrev pub transformed : ℕ → ℕ
transformed value = value / 4 % 2 ^ 32

unfoldable pub set_block_length_footer : Buffer → ℕ → ℕ → Buffer
set_block_length_footer m block value =
    write_24_preserve_low_bit m (block + value - 3) (transformed value)

unfoldable pub set_block_length : Buffer → ℕ → ℕ → Buffer
set_block_length m block value =
    let m' = write_24_preserve_low_bit m block (transformed value) in
    if get_block_is_free m' block then set_block_length_footer m' block value else m'

unfoldable pub set_block_is_free_flag_only : Buffer → ℕ → Bool → Buffer
set_block_is_free_flag_only m block value = write_bit m block (if value then 1 else 0)

unfoldable pub init_block_header_type_bit : Buffer → ℕ → Buffer
init_block_header_type_bit m block = elim (get_block_type block) [
  | block_8_aligned ↦ write_bit m (block + 7) 0
  | block_4_aligned ↦ write_bit m (block + 11) 1
]

unfoldable pub get_block_payload : ℕ → ℕ
get_block_payload block = elim (get_block_type block) [
  | block_8_aligned ↦ block + 8
  | block_4_aligned ↦ block + 12
]

unfoldable pub get_payload_block : Buffer → ℕ → ℕ
get_payload_block m payload = if read_bit m (payload - 1) == 0 then payload - 8 else payload - 12

unfoldable pub get_block_header_second_part_offseted : Buffer → ℕ → ℕ
get_block_header_second_part_offseted m block =
    let block_end = block + get_block_length m block in
    block_end - (if get_block_is_free m block then 3 else 0) - 12

-- `((x2 << 16 | x1 << 8 | x0) >> 1) << 2`
abbrev pub join_24 : ℕ → ℕ → ℕ → ℕ
join_24 x0 x1 x2 = (x2 * 2 ^ 16 + x1 * 2 ^ 8 + x0) / 2 * 4

-- Index 1 to 3; for any other the result is -1.
unfoldable pub read_8_aligned : Buffer → ℕ → ℕ → ℕ → ℕ
read_8_aligned m block second_part index =
    if index == 1
    then read_24_transformed m (block + 3)
    else if index == 2
    then join_24 (m (block + 6)) (m (block + 7) / 2 * 2 + read_bit m (second_part + 9))
        (m (second_part + 8))
    else if index == 3
    then read_24_transformed m (second_part + 9)
    else 2 ^ 32 - 1

unfoldable pub read_4_aligned : Buffer → ℕ → ℕ → ℕ
read_4_aligned m block index =
    if index == 1
    then read_24_transformed m (block + 3)
    else if index == 2
    then read_24_transformed m (block + 6)
    else if index == 3
    then join_24 (m (block + 9)) (m (block + 10)) (m (block + 11) / 2 * 2 + m (block + 9) % 2)
    else 2 ^ 32 - 1

unfoldable pub read_block_header_integer : Buffer → ℕ → ℕ → ℕ
read_block_header_integer m block index = elim (get_block_type block) [
  | block_8_aligned ↦ read_8_aligned m block (get_block_header_second_part_offseted m block) index
  | block_4_aligned ↦ read_4_aligned m block index
]

-- The store of the field that is split between the parts: bytes 6 and 7, then 8 and a bit of 9.
unfoldable pub write_split : Buffer → ℕ → ℕ → ℕ → Buffer
write_split m block second_part value =
    let word = value * 2 + read_bit m (block + 6) in
    let x1 = word / 2 ^ 8 % 256 in
    let b0 = update m (block + 6) (word % 256) in
    let b1 = update b0 (block + 7) (x1 / 2 * 2) in
    let b2 = update b1 (second_part + 8) (word / 2 ^ 16 % 256) in
    write_bit b2 (second_part + 9) (x1 % 2)

-- The store of the field with the type bit in its last byte.
unfoldable pub write_with_type : Buffer → ℕ → ℕ → Buffer
write_with_type m block value =
    let word = value * 2 in
    let x2 = word / 2 ^ 16 % 256 in
    let b0 = update m (block + 9) (word % 256 / 2 * 2 + x2 % 2) in
    let b1 = update b0 (block + 10) (word / 2 ^ 8 % 256) in update b1 (block + 11) (x2 / 2 * 2 + 1)

unfoldable pub write_block_header_integer : Buffer → ℕ → ℕ → ℕ → Buffer
write_block_header_integer m block index value = elim (get_block_type block) [
  | block_8_aligned ↦
      let second_part = get_block_header_second_part_offseted m block in
      if index == 1
      then write_24_preserve_low_bit m (block + 3) (transformed value)
      else if index == 2
      then write_split m block second_part (transformed value)
      else if index == 3
      then write_24_preserve_low_bit m (second_part + 9) (transformed value)
      else m
  | block_4_aligned ↦
      if index == 1
      then write_24_preserve_low_bit m (block + 3) (transformed value)
      else if index == 2
      then write_24_preserve_low_bit m (block + 6) (transformed value)
      else if index == 3
      then write_with_type m block (transformed value)
      else m
]

-- Index 1 or 2; for any other the result is -1.
unfoldable pub read_block_header_bit : Buffer → ℕ → ℕ → ℕ
read_block_header_bit m block index =
    if index == 1
    then read_bit m (block + 3)
    else if index == 2
    then read_bit m (block + 6)
    else 2 ^ 32 - 1

unfoldable pub write_block_header_bit : Buffer → ℕ → ℕ → ℕ → Buffer
write_block_header_bit m block index value =
    if index == 1
    then write_bit m (block + 3) value
    else if index == 2
    then write_bit m (block + 6) value
    else m
