-- ===== src/Malloc/OldBlock/Same.antt =====
-- The header encodings of malloclab/block.h and malloclab/mm.c.
use ics.Common.{ℕ, ◌+◌, ◌-◌, ◌^◌, ◌≤◌, ◌<◌, ◌≡◌, refl, arith}
use ics.Bytes.{Buffer, get_le, put_le, IsBytes}
use ics.Malloc.Block.{
  get_block_type, read_24_transformed, write_24_preserve_low_bit, get_block_length, transformed,
  set_block_length_footer, set_block_length, get_block_header_second_part_offseted, read_8_aligned,
  read_4_aligned, read_block_header_integer, write_block_header_integer, BlockType, block_8_aligned,
  block_4_aligned,
}
use ics.Malloc.Block.Words.{read_24_bytes, write_24_byte, write_24-IsBytes}
use ics.Malloc.OldBlock
use mathlib.Core.Path.{fun_ext}

old_read_high :
    (m : Buffer) (p q : ℕ)
    → IsBytes m
    → q ≡ p + 1
    → OldBlock.make_high_16_low_8_transformed m q p ≡ read_24_transformed m p
unfolding OldBlock.make_high_16_low_8_transformed OldBlock.make_high_16_low_8 get_le
old_read_high m p q h e =
    let e2 : p + 1 + 1 ≡ p + 2 = omega arith in rw (read_24_bytes m p h, e, e2) (omega arith)

old_read_low :
    (m : Buffer) (p q : ℕ)
    → IsBytes m
    → q ≡ p + 2
    → OldBlock.make_high_8_low_16_transformed m q p ≡ read_24_transformed m p
unfolding OldBlock.make_high_8_low_16_transformed OldBlock.make_high_8_low_16 get_le
old_read_low m p q h e = rw (read_24_bytes m p h, e) (omega arith)

old_write_high :
    (m : Buffer) (p q v : ℕ)
    → IsBytes m
    → v < 2 ^ 23
    → q ≡ p + 1
    → OldBlock.replace_high_16_low_8_preserve_low_bit m q p v ≡ write_24_preserve_low_bit m p v
unfolding OldBlock.replace_high_16_low_8_preserve_low_bit put_le
old_write_high m p q v h lt e =
    fun_ext λ k. rw (write_24_byte m p v k h lt, e) (ground (arith, h p))

old_write_low :
    (m : Buffer) (p q v : ℕ)
    → IsBytes m
    → v < 2 ^ 23
    → q ≡ p + 2
    → OldBlock.replace_high_8_low_16_preserve_low_bit m q p v ≡ write_24_preserve_low_bit m p v
unfolding OldBlock.replace_high_8_low_16_preserve_low_bit put_le
old_write_low m p q v h lt e = fun_ext λ k. rw (write_24_byte m p v k h lt, e) (ground (arith, h p))

old_length :
    (m : Buffer) (block : ℕ)
    → IsBytes m
    → OldBlock.get_block_length m block ≡ get_block_length m block
unfolding OldBlock.get_block_length get_block_length
old_length m block h = old_read_low m block (block + 2) h refl

old_second_part :
    (m : Buffer) (block : ℕ)
    → IsBytes m
    → OldBlock.get_block_header_second_part_offseted m block
      ≡ get_block_header_second_part_offseted m block
unfolding OldBlock.get_block_header_second_part_offseted get_block_header_second_part_offseted
old_second_part m block h = rw (old_length m block h) refl

old_set_length :
    (m : Buffer) (block value : ℕ)
    → IsBytes m
    → 3 ≤ value
    → value < 2 ^ 25
    → OldBlock.set_block_length m block value ≡ set_block_length m block value
unfolding OldBlock.set_block_length set_block_length OldBlock.set_block_length_footer
    set_block_length_footer
old_set_length m block value h some' lt =
    let small : transformed value < 2 ^ 23 = omega arith in
    let m' : Buffer = write_24_preserve_low_bit m block (transformed value) in
    let footer =
      old_write_high m' (block + value - 3) (block + value - 2) (transformed value)
        (write_24-IsBytes m block (transformed value) h small) small (omega arith) in
    rw (old_write_low m block (block + 2) (transformed value) h small refl, footer) refl

by_type {ℓ} :
    {A : Type ℓ} (t : BlockType) (a a' b b' : A)
    → a ≡ a'
    → b ≡ b'
    → elim t [ block_8_aligned ↦ a | block_4_aligned ↦ b ]
      ≡ elim t [ block_8_aligned ↦ a' | block_4_aligned ↦ b' ]
by_type block_8_aligned a a' b b' e f = e
by_type block_4_aligned a a' b b' e f = f

old_read :
    (m : Buffer) (block index : ℕ)
    → IsBytes m
    → OldBlock.read_block_header_integer m block index ≡ read_block_header_integer m block index
unfolding OldBlock.read_block_header_integer read_block_header_integer OldBlock.read_8_aligned
    read_8_aligned OldBlock.read_4_aligned read_4_aligned
old_read m block index h =
    let second_part = get_block_header_second_part_offseted m block in
    let first = old_read_high m (block + 3) (block + 4) h (omega arith) in
    by_type (get_block_type block) _ _ _ _
      (rw
        (
          old_second_part m block h,
          first,
          old_read_high m (second_part + 9) (second_part + 10) h (omega arith),
        )
        refl)
      (rw (first, old_read_low m (block + 6) (block + 8) h (omega arith)) refl)

old_write :
    (m : Buffer) (block index value : ℕ)
    → IsBytes m
    → value < 2 ^ 25
    → OldBlock.write_block_header_integer m block index value
      ≡ write_block_header_integer m block index value
unfolding OldBlock.write_block_header_integer write_block_header_integer
old_write m block index value h lt =
    let second_part = get_block_header_second_part_offseted m block in
    let v = transformed value in
    let small : v < 2 ^ 23 = omega arith in
    by_type (get_block_type block) _ _ _ _
      (rw
        (
          old_second_part m block h,
          old_write_low m (block + 3) (block + 5) v h small (omega arith),
          old_write_low m (second_part + 9) (second_part + 11) v h small (omega arith),
        )
        refl)
      (rw
        (
          old_write_high m (block + 3) (block + 4) v h small (omega arith),
          old_write_low m (block + 6) (block + 8) v h small (omega arith),
        )
        refl)

-- In a memory of bytes, block.h and mm.c agree: they read the same length and the same number in each
-- field of a header, and they leave the same memory when they set a length from 3 to below 2^25, and
-- when they write a number below 2^25 to a field.
pub old_headers_same :
    (m : Buffer) (block index value : ℕ)
    → IsBytes m
    → 3 ≤ value
    → value < 2 ^ 25
    → (OldBlock.get_block_length m block ≡ get_block_length m block)
      × (OldBlock.read_block_header_integer m block index ≡ read_block_header_integer m block index)
      × (OldBlock.set_block_length m block value ≡ set_block_length m block value)
      × (OldBlock.write_block_header_integer m block index value
          ≡ write_block_header_integer m block index value)
old_headers_same m block index value h enough lt = (
  old_length m block h,
  old_read m block index h,
  old_set_length m block value h enough lt,
  old_write m block index value h lt,
)
