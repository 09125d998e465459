-- ===== src/Malloc/Realloc.antt =====
-- `mm_realloc` of malloclab/mm.c. A result of `none` means that the fuel of a loop in the tree ran
-- out; NULL is `none` inside.
pub mod Moved
use ics.Common.{
  ℕ, zero, suc, ◌+◌, ◌-◌, min, Bool, true, false, not, ◌&&◌, ◌||◌, Option, none, some, ltb, leb,
  ◌==◌, if◌then◌else◌,
}
use ics.Bytes.{Buffer, copy}
use ics.Malloc.Block.{
  get_block_type, get_block_length, get_block_payload, get_payload_block, block_8_aligned,
  block_4_aligned,
}
use ics.Malloc.Heap.{
  heap_size, minimal_block_size, block_length_from_payload_size, payload_size_from_block_length,
  size_minus, is_last_block, get_previous_block_if_free, get_next_block_if_free, ◌>>=◌, grow_heap,
  initialize, insert_node, Heap, set_to_false, preserve,
}
use ics.Malloc.Alloc.{mm_malloc, length_of, or_block, is_some, delete_if, mm_free}

-- `memmove(new_payload, old_payload, n)`
abbrev pub move : Heap → ℕ → ℕ → ℕ → Heap
move h new_payload old_payload n = record h {
  bytes = copy n h.bytes new_payload h.bytes old_payload;
}

unfoldable pub copy_and_free : ℕ → ℕ → ℕ → Option ℕ × Heap → Option (Option ℕ × Heap)
copy_and_free fuel ptr size (none, h) = some (none, h)
copy_and_free fuel ptr size (some new_payload, h) =
    let old_payload_size =
      payload_size_from_block_length (get_block_length h.bytes (get_payload_block h.bytes ptr)) in
    mm_free fuel (move h new_payload ptr (min size old_payload_size)) ptr >>= λ h1.
    some (some new_payload, h1)

unfoldable pub mm_realloc_by_malloc_free : ℕ → Heap → ℕ → ℕ → Option (Option ℕ × Heap)
mm_realloc_by_malloc_free fuel h ptr size =
    mm_malloc fuel h size >>= λ placed. copy_and_free fuel ptr size placed

-- Case 0: the rest of the block, with a free block behind it, becomes a free block.
unfoldable pub shrink : ℕ → Heap → ℕ → ℕ → ℕ → Option (Option ℕ × Heap)
shrink fuel h old_payload old_block size =
    let old_length = get_block_length h.bytes old_block in
    let new_length = block_length_from_payload_size size in
    let next_block = get_next_block_if_free h.bytes (heap_size h) old_block in
    let free_length = size_minus old_length new_length + length_of h next_block in
    if not (is_some next_block) && ltb free_length minimal_block_size
    then some (some old_payload, h)
    else delete_if fuel h next_block >>= λ h1.
        insert_node fuel
          (initialize (initialize h1 old_block new_length false preserve false)
            (old_block + new_length) free_length true set_to_false true)
          (old_block + new_length)
        >>= λ h2. some (some old_payload, h2)

-- Cases 1 and 2: the heap grows, and the block with it.
unfoldable pub grow_last : Heap → ℕ → ℕ → ℕ → ℕ → Option ℕ × Heap
grow_last h old_payload old_block incr new_length =
    (some old_payload, initialize (grow_heap h incr) old_block new_length false preserve true)

-- Which neighbours case 3 merges: the previous, and the next.
unfoldable pub choose_merge : ℕ → ℕ → ℕ → ℕ → Bool × Bool
choose_merge old_payload_size previous_length next_length size =
    let previous_enough = ltb size (old_payload_size + previous_length) in
    let next_enough = ltb size (old_payload_size + next_length) in
    if previous_enough && next_enough
    then (ltb previous_length next_length, not (ltb previous_length next_length))
    else if previous_enough
    then (true, false)
    else if next_enough
    then (false, true)
    else if ltb size (old_payload_size + previous_length + next_length)
    then (true, true)
    else (false, false)

abbrev pub overlap_length : ℕ → ℕ
overlap_length new_block = elim (get_block_type new_block) [
  | block_8_aligned ↦ 4
  | block_4_aligned ↦ 8
]

-- The payload moves to the new block. What the new header overwrote of it comes from the backup.
unfoldable pub move_payload : Heap → Buffer → ℕ → ℕ → ℕ → ℕ → Heap
move_payload h backup new_block new_length old_payload old_payload_size =
    let overlap_start = new_block + new_length - overlap_length new_block in
    let overlap =
      ltb old_payload (overlap_start + overlap_length new_block)
      && ltb overlap_start (old_payload + old_payload_size) in
    let new_payload = get_block_payload new_block in
    let h1 = move h new_payload old_payload old_payload_size in
    if overlap
    then record h1 {
      bytes =
          copy (overlap_length new_block) h1.bytes (new_payload + overlap_start - old_payload)
            backup overlap_start;
    }
    else h1

-- What is left of the merged blocks becomes a free block.
unfoldable pub free_rest : ℕ → Heap → ℕ → ℕ → Option Heap
free_rest fuel h new_free_block zero = some h
free_rest fuel h new_free_block (suc n) =
    insert_node fuel (initialize h new_free_block (suc n) true set_to_false true) new_free_block

abbrev pub when {ℓ} : {A : Type ℓ} → Bool → Option A → Option A
when test a = if test then a else none

-- Case 3, with the neighbours that are merged.
unfoldable pub merge_blocks : ℕ → Heap → ℕ → ℕ → ℕ → Option ℕ → Option ℕ → Option (Option ℕ × Heap)
merge_blocks fuel h old_payload old_block size previous_block next_block =
    let old_length = get_block_length h.bytes old_block in
    let total = old_length + length_of h previous_block + length_of h next_block in
    let wanted = block_length_from_payload_size size in
    let new_length = if ltb (size_minus total wanted) minimal_block_size then total else wanted in
    let new_block = or_block previous_block old_block in
    delete_if fuel h previous_block >>= λ h1. delete_if fuel h1 next_block >>= λ h2.
    let h3 = initialize h2 new_block new_length false preserve (total == new_length) in
    let h4 =
      if new_block == old_block
      then h3
      else move_payload h3 h2.bytes new_block new_length old_payload
          (payload_size_from_block_length old_length) in
    free_rest fuel h4 (new_block + new_length) (size_minus total new_length) >>= λ h5.
    some (some (get_block_payload new_block), h5)

-- Case 3 where a choice of neighbours is enough, and else case 4.
unfoldable pub merge_or_move : ℕ → Heap → ℕ → ℕ → ℕ → Option ℕ → Option ℕ → Option (Option ℕ × Heap)
merge_or_move fuel h old_payload old_block size previous_block next_block =
    let old_payload_size = payload_size_from_block_length (get_block_length h.bytes old_block) in
    let merge =
      choose_merge old_payload_size (length_of h previous_block) (length_of h next_block) size in
    if merge.0 || merge.1
    then merge_blocks fuel h old_payload old_block size (when merge.0 previous_block)
        (when merge.1 next_block)
    else mm_realloc_by_malloc_free fuel h old_payload size

-- Cases 1 to 4.
unfoldable pub grow : ℕ → Heap → ℕ → ℕ → ℕ → Option (Option ℕ × Heap)
grow fuel h old_payload old_block size =
    let old_length = get_block_length h.bytes old_block in
    let old_payload_size = payload_size_from_block_length old_length in
    let min_grow_size = size_minus (block_length_from_payload_size size) old_payload_size in
    let next_block = get_next_block_if_free h.bytes (heap_size h) old_block in
    let next_length = length_of h next_block in
    if is_last_block (heap_size h) old_block old_length
    then some (grow_last h old_payload old_block min_grow_size (old_length + min_grow_size))
    else if is_some next_block
        && is_last_block (heap_size h) (or_block next_block 0) next_length
        && leb next_length min_grow_size
    then (delete_if fuel h next_block >>= λ h1. some (
        grow_last h1 old_payload old_block (size_minus min_grow_size next_length)
          (old_length + min_grow_size)))
    else merge_or_move fuel h old_payload old_block size
        (get_previous_block_if_free h.bytes old_block) next_block

unfoldable pub mm_realloc : ℕ → Heap → ℕ → ℕ → Option (Option ℕ × Heap)
mm_realloc fuel h ptr size =
    let old_block = get_payload_block h.bytes ptr in
    let old_payload_size = payload_size_from_block_length (get_block_length h.bytes old_block) in
    if size == 0
    then (mm_free fuel h ptr >>= λ h1. some (none, h1))
    else if size == old_payload_size
    then some (some ptr, h)
    else if ltb size old_payload_size
    then shrink fuel h ptr old_block size
    else grow fuel h ptr old_block size
