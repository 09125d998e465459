-- ===== src/Malloc/Heap/Writes.antt =====
-- The single writes of `init_block`.
use ics.Common.{
  ℕ, ◌+◌, ◌-◌, ◌^◌, ◌≤◌, ◌<◌, ◌≡◌, refl, inl, inr, Bool, true, false, arith, ◌==◌, if◌then◌else◌,
}
use ics.Bytes.{Buffer, IsBytes}
use ics.Malloc.Block.{
  get_block_type, write_24_preserve_low_bit, write_bit, get_block_is_free, transformed,
  set_block_length_footer, set_block_length, init_block_header_type_bit, write_block_header_integer,
  BlockType, block_8_aligned, block_4_aligned,
}
use ics.Malloc.Block.Words.{write_24-IsBytes, write_24_outside}
use ics.Malloc.Tree.{rbnull, rb_set_parent_unchecked, rb_set_parent, rb_init_node}
use ics.Malloc.Heap.{bit_of}

pub write_bit-IsBytes :
    (m : Buffer) (p : ℕ) (v : Bool) → IsBytes m → IsBytes (write_bit m p (bit_of v))
unfolding write_bit
write_bit-IsBytes m p v h k = ground (arith, h k, h p)

pub init_type-IsBytes :
    (m : Buffer) (block : ℕ) → IsBytes m → IsBytes (init_block_header_type_bit m block)
unfolding init_block_header_type_bit
init_type-IsBytes m block h = split (get_block_type block)
  where
    split :
        (t : BlockType)
        → IsBytes (elim t [
          | block_8_aligned ↦ write_bit m (block + 7) 0
          | block_4_aligned ↦ write_bit m (block + 11) 1
        ])
    split block_8_aligned = write_bit-IsBytes m (block + 7) false h
    split block_4_aligned = write_bit-IsBytes m (block + 11) true h

-- The node becomes its own parent, in the three bytes behind the length.
pub init_node_bytes :
    (m : Buffer) (block : ℕ)
    → 16 ≤ block
    → rb_init_node m block ≡ write_24_preserve_low_bit m (block + 3) (transformed block)
unfolding rb_init_node rb_set_parent rb_set_parent_unchecked write_block_header_integer
init_node_bytes m block far =
    let ne : (block == rbnull) ≡ false = ground arith in rw ne (split (get_block_type block))
  where
    split :
        (t : BlockType)
        → (elim t [
          | block_8_aligned ↦ write_24_preserve_low_bit m (block + 3) (transformed block)
          | block_4_aligned ↦ write_24_preserve_low_bit m (block + 3) (transformed block)
        ])
          ≡ write_24_preserve_low_bit m (block + 3) (transformed block)
    split block_8_aligned = refl
    split block_4_aligned = refl

module _ (m : Buffer) (block value : ℕ) (h : IsBytes m) (lt : value < 2 ^ 25)
    (enough : 16 ≤ value) where
  pub set_length-IsBytes : IsBytes (set_block_length m block value)
  unfolding set_block_length set_block_length_footer
  set_length-IsBytes =
      pick (get_block_is_free (write_24_preserve_low_bit m block (transformed value)) block)
    where
      first : IsBytes (write_24_preserve_low_bit m block (transformed value))
      first = write_24-IsBytes m block (transformed value) h (omega arith)

      pick :
          (t : Bool)
          → IsBytes (
              if t
              then write_24_preserve_low_bit
                  (write_24_preserve_low_bit m block (transformed value))
                  (block + value - 3)
                  (transformed value)
              else write_24_preserve_low_bit m block (transformed value))
      pick true = write_24-IsBytes _ (block + value - 3) (transformed value) first (omega arith)
      pick false = first

  pub set_length_keeps :
      (k : ℕ) → block + 3 ≤ k → k < block + value - 3 → set_block_length m block value k ≡ m k
  unfolding set_block_length set_block_length_footer
  set_length_keeps k ge hi =
      let small : transformed value < 2 ^ 23 = omega arith in
      let m1 = write_24_preserve_low_bit m block (transformed value) in
      let first : m1 k ≡ m k = write_24_outside m block (transformed value) k h small (inr ge) in
      let second : write_24_preserve_low_bit m1 (block + value - 3) (transformed value) k ≡ m1 k =
        write_24_outside m1 (block + value - 3) (transformed value) k
          (write_24-IsBytes m block (transformed value) h small) small (inl hi) in
      ground arith
