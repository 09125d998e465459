-- ===== src/Malloc/Realloc/Moved.antt =====
-- The payload that `mm_realloc` of malloclab/mm.c moves to a merged block.
use ics.Common.{ℕ, ◌+◌, ◌-◌, ◌%◌, ◌≤◌, ◌<◌, ◌≡◌, refl, arith, ◌==◌, if◌then◌else◌}
use ics.Bytes.{Buffer, copy}
use ics.Malloc.Block.{get_block_payload, get_payload_block}
use ics.Malloc.Heap.{Heap}
use ics.Malloc.Realloc.{overlap_length, move_payload}

module _ (h : Heap) (backup : Buffer) (new_block new_length old_payload old_size : ℕ)
    (long : overlap_length new_block ≤ new_length)
    (before : new_block + new_length - overlap_length new_block < old_payload)
    (reaches : old_payload < new_block + new_length) where
  front_byte :
      (move_payload h backup new_block new_length old_payload old_size).bytes
        (get_block_payload new_block - 1)
      ≡ backup (old_payload - 1)
  unfolding move_payload copy get_block_payload
  front_byte = ground arith

  -- In case 3 of `mm_realloc`, where the second part of the new header begins before the old payload and
  -- reaches into it, the restore of the overwritten range writes the type bit of the new block too: the
  -- bit becomes the one that stood in front of the old payload, so that the new block is found from its
  -- payload only if the two blocks have the same type.
  pub move_payload_type :
      get_payload_block
        (move_payload h backup new_block new_length old_payload old_size).bytes
        (get_block_payload new_block)
      ≡ (if backup (old_payload - 1) % 2 == 0
          then get_block_payload new_block - 8
          else get_block_payload new_block - 12)
  unfolding get_payload_block
  move_payload_type = rw front_byte refl
