-- ===== src/Malloc/Block/ColorBit.antt =====
-- The second bit of a block header: a write of it changes nothing else that the header says.
use ics.Common.{ℕ, ◌+◌, ◌*◌, ◌/◌, ◌%◌, ◌<◌, ◌≡◌, refl, ap, ◌∙◌, ◌≢◌, inl, inr, arith, ◌==◌}
use ics.Bytes.{Buffer, IsBytes}
use ics.Malloc.Block.{
  get_block_type, read_24_transformed, write_bit, get_block_length, get_block_is_free,
  get_block_header_second_part_offseted, join_24, read_8_aligned, read_4_aligned,
  read_block_header_integer, read_block_header_bit, write_block_header_bit,
}
use ics.Malloc.Block.Words.{read_24_cong}
use ics.Malloc.Block.Frame.{second_part_fits}
use ics.Malloc.Block.RoundTrip.{HeaderFits, read_at_8, read_at_4, second_part_same, type_cases}

module _ (m : Buffer) (block value : ℕ) (h : IsBytes m) (fits : HeaderFits m block)
    (lt : value < 2) where
  abbrev written : Buffer
  written = write_block_header_bit m block 2 value

  pub bit_outside : (k : ℕ) → k ≢ block + 6 → written k ≡ m k
  unfolding write_block_header_bit write_bit
  bit_outside k ne = ground arith

  bit_byte : written (block + 6) ≡ m (block + 6) / 2 * 2 + value
  unfolding write_block_header_bit write_bit
  bit_byte = ground arith

  bit_IsBytes : IsBytes written
  unfolding write_block_header_bit write_bit
  bit_IsBytes k = ground (arith, h k, h (block + 6))

  half_same : (k : ℕ) → written k / 2 ≡ m k / 2
  unfolding write_block_header_bit write_bit
  half_same k = ground arith

  pub bit_header :
      IsBytes written
      × ((j : ℕ) → read_block_header_integer written block j ≡ read_block_header_integer m block j)
      × (read_block_header_bit written block 2 ≡ value)
      × (get_block_length written block ≡ get_block_length m block)
      × (get_block_is_free written block ≡ get_block_is_free m block)
  unfolding get_block_length get_block_is_free read_8_aligned read_4_aligned read_block_header_bit
  bit_header =
      let m' = written in
      let h' = bit_IsBytes in
      let (ge, le) = second_part_fits m block h fits in
      let s = get_block_header_second_part_offseted m block in
      let at : (k : ℕ) → k ≢ block + 6 → m' k ≡ m k = bit_outside in
      let word : (k : ℕ)
          → k + 1 ≢ block + 6
          → k + 2 ≢ block + 6
          → read_24_transformed m' k ≡ read_24_transformed m k =
        λ k a b. read_24_cong m' m k h' h (half_same k) (at (k + 1) a) (at (k + 2) b) in
      let len = word block (omega arith) (omega arith) in
      let flag : (m' block % 2 == 1) ≡ (m block % 2 == 1) =
        ap (λ k. k % 2 == 1) (at block (omega arith)) in
      let first = word (block + 3) (omega arith) (omega arith) in
      let second = word (block + 6) (omega arith) (omega arith) in
      let third = word (s + 9) (omega arith) (omega arith) in
      let e = second_part_same m m' block len flag in
      let b7 = at (block + 7) (omega arith) in
      let t8 = at (s + 8) (omega arith) in
      let t9 = at (s + 9) (omega arith) in
      let b9 = at (block + 9) (omega arith) in
      let b10 = at (block + 10) (omega arith) in
      let b11 = at (block + 11) (omega arith) in
      let join : (x1 x2 : ℕ) → join_24 (m' (block + 6)) x1 x2 ≡ join_24 (m (block + 6)) x1 x2 =
        λ x1 x2. omega (arith, half_same (block + 6)) in
      (
        h',
        (λ j. elim (type_cases (get_block_type block)) [
          | inl t ↦
              rw
                (
                  read_at_8 m' block j t,
                  read_at_8 m block j t,
                  e,
                  first,
                  third,
                  b7,
                  t8,
                  t9,
                  join (m (block + 7) / 2 * 2 + m (s + 9) % 2) (m (s + 8)),
                )
                refl
          | inr t ↦
              rw (read_at_4 m' block j t, read_at_4 m block j t, first, second, b9, b10, b11) refl
        ]),
        ap (λ k. k % 2) bit_byte ∙ omega arith,
        len,
        flag,
      )
