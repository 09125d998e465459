-- ===== src/Malloc/Block/Frame.antt =====
-- A header field lies within its block: what a write changes, and what a read looks at.
use ics.Common.{ℕ, ◌+◌, ◌/◌, ◌%◌, ◌^◌, ◌≤◌, ◌<◌, ◌≡◌, refl, ap, ◌∙◌, ◌⊎◌, inl, inr, arith, ◌==◌}
use ics.Bytes.{Buffer, IsBytes}
use ics.Malloc.Block.{
  get_block_type, get_block_length, get_block_is_free, transformed,
  get_block_header_second_part_offseted, read_8_aligned, read_4_aligned, read_block_header_integer,
  write_block_header_integer, read_block_header_bit, block_8_aligned, block_4_aligned,
}
use ics.Malloc.Block.Words.{read_24_cong, write_24_outside}
use ics.Malloc.Block.Eight.{split_byte}
use ics.Malloc.Block.Four.{typed_byte}
use ics.Malloc.Block.RoundTrip.{
  HeaderFits, bits_same, read_at_8, read_at_4, second_part_same, type_cases, index_of, Field,
  parent_field, left_field, right_field,
}

module _ (m : Buffer) (block : ℕ) (h : IsBytes m) (fits : HeaderFits m block) where
  pub second_part_fits :
      (block ≤ get_block_header_second_part_offseted m block)
      × (get_block_header_second_part_offseted m block + 12 ≤ block + get_block_length m block)
  unfolding get_block_header_second_part_offseted
  second_part_fits = (omega arith, ground arith)

  inside_8 :
      (f : Field) (value k : ℕ)
      → value < 2 ^ 25
      → get_block_type block ≡ block_8_aligned
      → (k < block) ⊎ (block + get_block_length m block ≤ k)
      → write_block_header_integer m block (index_of f) value k ≡ m k
  unfolding write_block_header_integer
  inside_8 parent_field value k lt t out =
      let (ge, le) = second_part_fits in
      rw (t, write_block_header_integer)
        (write_24_outside m (block + 3) (transformed value) k h (omega arith) (ground arith))
  inside_8 left_field value k lt t out =
      let (ge, le) = second_part_fits in
      let s = get_block_header_second_part_offseted m block in
      rw (t, write_block_header_integer)
        (split_byte m block s (transformed value) h (omega arith) ge k ∙ ground arith)
  inside_8 right_field value k lt t out =
      let (ge, le) = second_part_fits in
      let s = get_block_header_second_part_offseted m block in
      rw (t, write_block_header_integer)
        (write_24_outside m (s + 9) (transformed value) k h (omega arith) (ground arith))

  inside_4 :
      (f : Field) (value k : ℕ)
      → value < 2 ^ 25
      → get_block_type block ≡ block_4_aligned
      → (k < block) ⊎ (block + get_block_length m block ≤ k)
      → write_block_header_integer m block (index_of f) value k ≡ m k
  unfolding write_block_header_integer
  inside_4 parent_field value k lt t out =
      rw (t, write_block_header_integer)
        (write_24_outside m (block + 3) (transformed value) k h (omega arith) (ground arith))
  inside_4 left_field value k lt t out =
      rw (t, write_block_header_integer)
        (write_24_outside m (block + 6) (transformed value) k h (omega arith) (ground arith))
  inside_4 right_field value k lt t out =
      rw (t, write_block_header_integer)
        (typed_byte m block (transformed value) h (omega arith) k ∙ ground arith)

  -- In a memory of bytes and for a block long enough for its header and footer, the write of a value
  -- below 2^25 to a field of the header changes no byte outside the block, for both alignments.
  pub write_inside :
      (f : Field) (value k : ℕ)
      → value < 2 ^ 25
      → (k < block) ⊎ (block + get_block_length m block ≤ k)
      → write_block_header_integer m block (index_of f) value k ≡ m k
  write_inside f value k lt out = elim (type_cases (get_block_type block)) [
    | inl t ↦ inside_8 f value k lt t out
    | inr t ↦ inside_4 f value k lt t out
  ]

-- Two memories say the same of a block.
pub record SameHeader (m m' : Buffer) (block : ℕ) : Type 0 where
  pub fields_same :
      (j : ℕ) → read_block_header_integer m' block j ≡ read_block_header_integer m block j
  pub bits_equal : (k : ℕ) → read_block_header_bit m' block k ≡ read_block_header_bit m block k
  pub length_same : get_block_length m' block ≡ get_block_length m block
  pub free_same : get_block_is_free m' block ≡ get_block_is_free m block

-- What a header says depends only on the bytes of its block.
pub read_inside :
    (m m' : Buffer) (block : ℕ)
    → IsBytes m
    → IsBytes m'
    → HeaderFits m block
    → ((k : ℕ) → block ≤ k → k < block + get_block_length m block → m' k ≡ m k)
    → SameHeader m m' block
unfolding get_block_length get_block_is_free read_8_aligned read_4_aligned
read_inside m m' block h h' fits same =
    let (ge, le) = second_part_fits m block h fits in
    let s = get_block_header_second_part_offseted m block in
    let at : (k : ℕ) → block ≤ k → k < block + 12 → m' k ≡ m k = λ k a b. same k a (omega arith) in
    let len =
      read_24_cong m' m block h' h (ap (λ k. k / 2) (at block (omega arith) (omega arith)))
        (at (block + 1) (omega arith) (omega arith)) (at (block + 2) (omega arith) (omega arith)) in
    let flag : (m' block % 2 == 1) ≡ (m block % 2 == 1) =
      ap (λ k. k % 2 == 1) (at block (omega arith) (omega arith)) in
    let b3 = at (block + 3) (omega arith) (omega arith) in
    let b6 = at (block + 6) (omega arith) (omega arith) in
    let b7 = at (block + 7) (omega arith) (omega arith) in
    let b9 = at (block + 9) (omega arith) (omega arith) in
    let b10 = at (block + 10) (omega arith) (omega arith) in
    let b11 = at (block + 11) (omega arith) (omega arith) in
    let t8 : m' (s + 8) ≡ m (s + 8) = same (s + 8) (omega arith) (omega arith) in
    let t9 : m' (s + 9) ≡ m (s + 9) = same (s + 9) (omega arith) (omega arith) in
    let first =
      read_24_cong m' m (block + 3) h' h (ap (λ k. k / 2) b3)
        (at (block + 3 + 1) (omega arith) (omega arith))
        (at (block + 3 + 2) (omega arith) (omega arith)) in
    let second =
      read_24_cong m' m (block + 6) h' h (ap (λ k. k / 2) b6)
        (at (block + 6 + 1) (omega arith) (omega arith))
        (at (block + 6 + 2) (omega arith) (omega arith)) in
    let third =
      read_24_cong m' m (s + 9) h' h (ap (λ k. k / 2) t9)
        (same (s + 9 + 1) (omega arith) (omega arith))
        (same (s + 9 + 2) (omega arith) (omega arith)) in
    let e = second_part_same m m' block len flag in
    record {
      fields_same = λ j. elim (type_cases (get_block_type block)) [
        | inl t ↦
            rw (read_at_8 m' block j t, read_at_8 m block j t, e, first, third, b6, b7, t8, t9) refl
        | inr t ↦
            rw (read_at_4 m' block j t, read_at_4 m block j t, first, second, b9, b10, b11) refl
      ];
      bits_equal = λ k. bits_same m m' block k (ap (λ k. k % 2) b3) (ap (λ k. k % 2) b6);
      length_same = len;
      free_same = flag;
    }
