-- ===== src/Malloc/Block/Length.antt =====
-- The length of a block, its footer, and the way back from the payload to the block.
use ics.Common.{
  ℕ, ◌+◌, ◌-◌, ◌*◌, ◌/◌, ◌%◌, ◌^◌, ◌≤◌, ◌<◌, ◌≡◌, refl, sym, ap, ◌∙◌, inl, inr, Bool, true, false,
  arith, ◌==◌, if◌then◌else◌, Bool-cases,
}
use ics.Bytes.{Buffer, IsBytes}
use ics.Malloc.Block.{
  get_block_type, read_24_transformed, write_24_preserve_low_bit, write_bit, get_block_length,
  get_block_is_free, transformed, set_block_length_footer, set_block_length,
  init_block_header_type_bit, get_block_payload, get_payload_block,
}
use ics.Malloc.Block.Words.{
  write_24-IsBytes, read_24_cong, read_24-write_24, write_24_outside, write_24_low,
}

-- The length is stored, the flag is kept, and the footer of a free block shows the length too.
pub record HasLength (m m' : Buffer) (block value : ℕ) : Type 0 where
  pub length_stored : get_block_length m' block ≡ value
  pub free_kept : get_block_is_free m' block ≡ get_block_is_free m block
  pub footer_stored :
      get_block_is_free m block ≡ true → read_24_transformed m' (block + value - 3) ≡ value

module _ (m : Buffer) (block value : ℕ) (h : IsBytes m) (mul : value % 4 ≡ 0) (lt : value < 2 ^ 25)
    (min_length : 8 ≤ value) where
  split :
      (is_free : Bool)
      → get_block_is_free (write_24_preserve_low_bit m block (transformed value)) block ≡ is_free
      → get_block_is_free m block ≡ is_free
      → HasLength m
          (if is_free
            then set_block_length_footer
                (write_24_preserve_low_bit m block (transformed value))
                block
                value
            else write_24_preserve_low_bit m block (transformed value))
          block
          value
  unfolding get_block_length set_block_length_footer get_block_is_free
  split false e e' =
      let whole : transformed value * 4 ≡ value = omega arith in
      record {
        length_stored = read_24-write_24 m block _ h (omega arith) ∙ whole;
        free_kept = e ∙ sym e';
        footer_stored = λ q. cc;
      }
  split true e e' =
      let v = transformed value in
      let small : v < 2 ^ 23 = omega arith in
      let whole : v * 4 ≡ value = omega arith in
      let m1 = write_24_preserve_low_bit m block v in
      let p = block + value - 3 in
      let g : IsBytes m1 = write_24-IsBytes m block v h small in
      let m2 = write_24_preserve_low_bit m1 p v in
      let same : (k : ℕ) → k < block + 3 → m2 k ≡ m1 k =
        λ k o. write_24_outside m1 p v k g small (inl (omega arith)) in
      let s0 = same block (omega arith) in
      record {
        length_stored =
            read_24_cong m2 m1 block (write_24-IsBytes m1 p v g small) g (rw s0)
              (same (block + 1) (omega arith)) (same (block + 2) (omega arith))
            ∙ read_24-write_24 m block v h small
            ∙ whole;
        free_kept = rw s0 (e ∙ sym e');
        footer_stored = λ q. read_24-write_24 m1 p v g small ∙ whole;
      }

  -- In a memory of bytes, a multiple of 4 from 8 to below 2^25 that is set as a block's length is
  -- read back from its header, and from its footer where the block is free; the free flag is as
  -- before.
  pub set_block_length-HasLength : HasLength m (set_block_length m block value) block value
  unfolding set_block_length get_block_is_free
  set_block_length-HasLength =
      let low = write_24_low m block (transformed value) h (omega arith) in
      let same : get_block_is_free (write_24_preserve_low_bit m block (transformed value)) block
          ≡ get_block_is_free m block =
        ap (λ k. k == 1) low in
      split _ refl (sym same)

-- For a block at a multiple of 4, once its type bit is initialized, `get_payload_block` finds it
-- from its payload, and the payload is at a multiple of 8.
pub get_payload_block-init :
    (m : Buffer) (block : ℕ)
    → block % 4 ≡ 0
    → (get_payload_block (init_block_header_type_bit m block) (get_block_payload block) ≡ block)
      × (get_block_payload block % 8 ≡ 0)
unfolding get_payload_block init_block_header_type_bit get_block_payload get_block_type write_bit
get_payload_block-init m block mul = elim (Bool-cases (block / 4 % 2 == 0)) [
  | inl e ↦
      let a : block + 8 - 1 ≡ block + 7 = omega arith in
      rw (init_block_header_type_bit, get_block_payload, get_block_type, e, a) (ground arith)
  | inr e ↦
      let a : block + 12 - 1 ≡ block + 11 = omega arith in
      rw (init_block_header_type_bit, get_block_payload, get_block_type, e, a) (ground arith)
]
