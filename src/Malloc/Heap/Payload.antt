-- ===== src/Malloc/Heap/Payload.antt =====
-- Whether an allocated block is still found from its payload.
use ics.Common.{ℕ, ◌+◌, ◌-◌, ◌%◌, ◌≤◌, ◌<◌, ◌≡◌, ap, ◌∙◌, ◌⊎◌, false, arith, ◌==◌, if◌then◌else◌}
use ics.Bytes.{Buffer, copy, IsBytes}
use ics.Malloc.Block.{
  get_block_type, get_block_length, get_block_payload, get_payload_block, write_block_header_bit,
  block_8_aligned, block_4_aligned,
}
use ics.Malloc.Heap.{
  set_previous_is_free, get_logical_next_block, move_second_part, set_block_is_free, lo,
}
use ics.Malloc.Heap.Tags.{flagged_byte, next_outside, next_same, BlockFits}

-- The type bit in front of the payload tells where the block begins.
abbrev pub FromPayload : Buffer → ℕ → Type 0
FromPayload m block = get_payload_block m (get_block_payload block) ≡ block

-- The byte in front of the payload, where the second part does not reach.
abbrev type_place : ℕ → ℕ
type_place block = elim (get_block_type block) [
  | block_8_aligned ↦ block + 7
  | block_4_aligned ↦ block + 11
]

pub payload_cong :
    (m m' : Buffer) (block : ℕ)
    → m' (get_block_payload block - 1) ≡ m (get_block_payload block - 1)
    → FromPayload m block
    → FromPayload m' block
unfolding get_payload_block
payload_cong m m' block e f =
    ap (λ k. if k % 2 == 0 then get_block_payload block - 8 else get_block_payload block - 12) e ∙ f

module _ (m : Buffer) (size block : ℕ) (fit : BlockFits m block) (h : IsBytes m) where
  allocated_byte :
      (k : ℕ)
      → block < k
      → k < block + get_block_length m block
      → set_block_is_free m size block false k ≡ move_second_part m block false k
  unfolding set_block_is_free set_previous_is_free write_block_header_bit
  allocated_byte k lo hi =
      let out = next_outside m size block fit in
      rw (next_same m size block false fit h) (
        flagged_byte m block false fit h (get_logical_next_block m size block + 3) out k
        ∙ ground arith)

  payload_byte :
      (get_block_type block ≡ block_8_aligned) ⊎ (20 ≤ get_block_length m block)
      → move_second_part m block false (get_block_payload block - 1)
        ≡ m (get_block_payload block - 1)
  unfolding move_second_part copy get_block_payload
  payload_byte wide = let enough = fit.enough in ground arith

  place_inside :
      (block < get_block_payload block - 1)
      × (get_block_payload block - 1 < block + get_block_length m block)
  unfolding get_block_payload
  place_inside = let enough = fit.enough in (ground arith, ground arith)

  -- In a memory of bytes, a block of at least 16 bytes that is found from its payload is still found
  -- after it is marked as allocated, if it is 8-aligned or has at least 20 bytes.
  pub set_block_is_free-FromPayload :
      (get_block_type block ≡ block_8_aligned) ⊎ (20 ≤ get_block_length m block)
      → FromPayload m block
      → FromPayload (set_block_is_free m size block false) block
  set_block_is_free-FromPayload wide f =
      payload_cong m (set_block_is_free m size block false) block
        (allocated_byte _ place_inside.0 place_inside.1 ∙ payload_byte wide) f

  small_byte :
      get_block_type block ≡ block_4_aligned
      → get_block_length m block ≡ 16
      → move_second_part m block false (block + 11) ≡ m (block + 8)
  unfolding move_second_part copy
  small_byte t e = ground arith

  -- A 4-aligned block of 16 bytes that is marked as allocated while its byte 8 is even is not found
  -- from its payload: the second part that moves overwrites the type bit, and `get_payload_block`
  -- answers with an address 4 bytes behind the block.
  pub set_block_is_free_small :
      get_block_type block ≡ block_4_aligned
      → get_block_length m block ≡ 16
      → m (block + 8) % 2 ≡ 0
      → get_payload_block (set_block_is_free m size block false) (get_block_payload block)
        ≡ block + 4
  unfolding get_payload_block get_block_payload
  set_block_is_free_small t e even =
      let moved : set_block_is_free m size block false (block + 11) ≡ m (block + 8) =
        allocated_byte (block + 11) (omega arith) (omega arith) ∙ small_byte t e in
      ground arith
