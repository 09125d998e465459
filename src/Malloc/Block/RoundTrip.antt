-- ===== src/Malloc/Block/RoundTrip.antt =====
-- A header field that is written is read back, and the rest of the header is kept.
use ics.Common.{
  ℕ, ◌+◌, ◌*◌, ◌%◌, ◌^◌, ◌≤◌, ◌<◌, ◌≡◌, refl, ap, ◌∙◌, ◌≢◌, ◌⊎◌, inl, inr, arith, ◌==◌,
  if◌then◌else◌,
}
use ics.Bytes.{Buffer, IsBytes}
use ics.Malloc.Block.{
  get_block_type, get_block_length, get_block_is_free, transformed,
  get_block_header_second_part_offseted, read_8_aligned, read_4_aligned, read_block_header_integer,
  write_block_header_integer, read_block_header_bit, BlockType, block_8_aligned, block_4_aligned,
}
use ics.Malloc.Block.Words.{read_24-write_24}
use ics.Malloc.Block.Fields.{read_8, read_4, KeepsFields}
use ics.Malloc.Block.Eight.{first_8, third_8, split_8, split_back}
use ics.Malloc.Block.Four.{first_4, second_4, third_4, typed_back}

-- The field has the value, and all else that the header says is as before.
pub record Stores (m m' : Buffer) (block index value : ℕ) : Type 0 where
  pub stored : read_block_header_integer m' block index ≡ value
  pub fields_kept :
      (j : ℕ)
      → j ≢ index
      → read_block_header_integer m' block j ≡ read_block_header_integer m block j
  pub length_kept : get_block_length m' block ≡ get_block_length m block
  pub free_kept : get_block_is_free m' block ≡ get_block_is_free m block
  pub bits_kept : (k : ℕ) → read_block_header_bit m' block k ≡ read_block_header_bit m block k
  pub bytes_kept : IsBytes m'

-- The block is long enough for its header, and for its footer if it is free.
abbrev pub HeaderFits : Buffer → ℕ → Type 0
HeaderFits m block = 12 + (if get_block_is_free m block then 3 else 0) ≤ get_block_length m block

pub second_part_behind :
    (m : Buffer) (block : ℕ)
    → HeaderFits m block
    → block ≤ get_block_header_second_part_offseted m block
unfolding get_block_header_second_part_offseted
second_part_behind m block fits = omega arith

pub bits_same :
    (m m' : Buffer) (block k : ℕ)
    → m' (block + 3) % 2 ≡ m (block + 3) % 2
    → m' (block + 6) % 2 ≡ m (block + 6) % 2
    → read_block_header_bit m' block k ≡ read_block_header_bit m block k
unfolding read_block_header_bit
bits_same m m' block k e e' = rw (e, e')

pub read_at_8 :
    (m : Buffer) (block j : ℕ)
    → get_block_type block ≡ block_8_aligned
    → read_block_header_integer m block j
      ≡ read_8_aligned m block (get_block_header_second_part_offseted m block) j
unfolding read_block_header_integer read_8_aligned
read_at_8 m block j t = rw (t, read_block_header_integer) refl

pub read_at_4 :
    (m : Buffer) (block j : ℕ)
    → get_block_type block ≡ block_4_aligned
    → read_block_header_integer m block j ≡ read_4_aligned m block j
unfolding read_block_header_integer read_4_aligned
read_at_4 m block j t = rw (t, read_block_header_integer) refl

pub second_part_same :
    (m m' : Buffer) (block : ℕ)
    → get_block_length m' block ≡ get_block_length m block
    → get_block_is_free m' block ≡ get_block_is_free m block
    → get_block_header_second_part_offseted m' block ≡ get_block_header_second_part_offseted m block
unfolding get_block_header_second_part_offseted
second_part_same m m' block e e' = rw (e, e')

Stores-8 :
    (m m' : Buffer) (block index value : ℕ)
    → get_block_type block ≡ block_8_aligned
    → KeepsFields (read_8 block (get_block_header_second_part_offseted m block)) m m' block index
    → read_8_aligned m' block (get_block_header_second_part_offseted m block) index ≡ value
    → Stores m m' block index value
unfolding get_block_length get_block_is_free
Stores-8 m m' block index value t keeps back =
    let g0 : get_block_is_free m' block ≡ get_block_is_free m block =
      ap (λ k. k == 1) keeps.flag_0 in
    let s = second_part_same m m' block keeps.field_0 g0 in
    record {
      stored = rw (read_at_8 m' block index t, s) back;
      fields_kept =
          λ j ne. rw (read_at_8 m' block j t, read_at_8 m block j t, s) (keeps.others j ne);
      length_kept = keeps.field_0;
      free_kept = g0;
      bits_kept = λ k. bits_same m m' block k keeps.flag_1 keeps.flag_2;
      bytes_kept = keeps.bytes;
    }

Stores-4 :
    (m m' : Buffer) (block index value : ℕ)
    → get_block_type block ≡ block_4_aligned
    → KeepsFields (read_4 block) m m' block index
    → read_4_aligned m' block index ≡ value
    → Stores m m' block index value
unfolding get_block_length get_block_is_free
Stores-4 m m' block index value t keeps back = record {
  stored = rw (read_at_4 m' block index t) back;
  fields_kept = λ j ne. rw (read_at_4 m' block j t, read_at_4 m block j t) (keeps.others j ne);
  length_kept = keeps.field_0;
  free_kept = ap (λ k. k == 1) keeps.flag_0;
  bits_kept = λ k. bits_same m m' block k keeps.flag_1 keeps.flag_2;
  bytes_kept = keeps.bytes;
}

pub type_cases :
    (block_type : BlockType) → (block_type ≡ block_8_aligned) ⊎ (block_type ≡ block_4_aligned)
type_cases block_8_aligned = inl refl
type_cases block_4_aligned = inr refl

-- The fields that `write_block_header_integer` writes.
pub data Field : Type 0 where
  parent_field left_field right_field : Field

abbrev pub index_of : Field → ℕ
index_of parent_field = 1
index_of left_field = 2
index_of right_field = 3

module _ (m : Buffer) (block value : ℕ) (h : IsBytes m) (mul : value % 4 ≡ 0)
    (lt : value < 2 ^ 25) where
  small : transformed value < 2 ^ 23
  small = omega arith

  whole : transformed value * 4 ≡ value
  whole = omega arith

  write_8 :
      (f : Field)
      → HeaderFits m block
      → get_block_type block ≡ block_8_aligned
      → Stores m (write_block_header_integer m block (index_of f) value) block (index_of f) value
  unfolding write_block_header_integer read_8_aligned
  write_8 parent_field fits t =
      let s = get_block_header_second_part_offseted m block in
      let le = second_part_behind m block fits in
      rw (t, write_block_header_integer)
        (Stores-8 m _ block 1 value t (first_8 m block s _ h small le)
          (read_24-write_24 m (block + 3) _ h small ∙ whole))
  write_8 left_field fits t =
      let s = get_block_header_second_part_offseted m block in
      let le = second_part_behind m block fits in
      rw (t, write_block_header_integer)
        (Stores-8 m _ block 2 value t (split_8 m block s _ h small le)
          (split_back m block s _ h small le ∙ whole))
  write_8 right_field fits t =
      let s = get_block_header_second_part_offseted m block in
      let le = second_part_behind m block fits in
      rw (t, write_block_header_integer)
        (Stores-8 m _ block 3 value t (third_8 m block s _ h small le)
          (read_24-write_24 m (s + 9) _ h small ∙ whole))

  write_4 :
      (f : Field)
      → get_block_type block ≡ block_4_aligned
      → Stores m (write_block_header_integer m block (index_of f) value) block (index_of f) value
  unfolding write_block_header_integer read_4_aligned
  write_4 parent_field t =
      rw (t, write_block_header_integer)
        (Stores-4 m _ block 1 value t (first_4 m block _ h small)
          (read_24-write_24 m (block + 3) _ h small ∙ whole))
  write_4 left_field t =
      rw (t, write_block_header_integer)
        (Stores-4 m _ block 2 value t (second_4 m block _ h small)
          (read_24-write_24 m (block + 6) _ h small ∙ whole))
  write_4 right_field t =
      rw (t, write_block_header_integer)
        (Stores-4 m _ block 3 value t (third_4 m block _ h small)
          (typed_back m block _ h small ∙ whole))

  -- In a memory of bytes and a block long enough for its header and footer, a multiple of 4 below
  -- 2^25 that is written to a field of the header is read back, for both alignments; the other
  -- fields, the length, the free flag and the two bits are as before.
  pub write_block_header_integer-Stores :
      (f : Field)
      → HeaderFits m block
      → Stores m (write_block_header_integer m block (index_of f) value) block (index_of f) value
  write_block_header_integer-Stores f fits = elim (type_cases (get_block_type block)) [
    | inl t ↦ write_8 f fits t
    | inr t ↦ write_4 f t
  ]
