-- ===== src/Malloc/Alloc.antt =====
-- `mm_malloc` and `mm_free` of malloclab/mm.c. A result of `none` means that the fuel of a loop in
-- the tree ran out.
use ics.Common.{
  ℕ, ◌+◌, ◌%◌, ◌^◌, Bool, true, false, ◌||◌, Option, none, some, ltb, ◌==◌, if◌then◌else◌,
}
use ics.Malloc.Block.{get_block_length, get_block_payload, get_payload_block}
use ics.Malloc.Tree.{rbnull, rb_lower_bound}
use ics.Malloc.Heap.{
  heap_size, minimal_block_size, min_extend_size, block_length_from_payload_size, size_minus,
  get_previous_block_if_free, get_next_block_if_free, set_block_is_free, ◌>>=◌, lo, initialize,
  delete_node, insert_node, extend, Heap, set_to_true, preserve,
}

-- A block of at least `length`, no longer in the tree.
unfoldable pub find_block : ℕ → Heap → ℕ → Option (ℕ × Heap)
find_block fuel h block_length = rb_lower_bound (lo h) fuel h.bytes block_length >>= λ node.
    if node == rbnull
    then extend fuel h (if ltb block_length min_extend_size then min_extend_size else block_length)
    else delete_node fuel h node >>= λ h1. some (node, h1)

-- A block that is much longer is split, and the rest goes back into the tree. Large requests take
-- the end of the block, small ones its beginning.
unfoldable pub split_block : ℕ → Heap → ℕ → ℕ → ℕ → Option (ℕ × Heap)
split_block fuel h found_block request_size block_length =
    let found_length = get_block_length h.bytes found_block in
    let rest_length = size_minus found_length block_length in
    let block1 = found_block + rest_length in
    let block2 = found_block + block_length in
    if ltb found_length ((block_length + minimal_block_size) % 2 ^ 64)
    then some (found_block, h)
    else if ltb 64 request_size
    then (insert_node fuel
          (initialize (initialize h found_block rest_length true preserve false) block1 block_length
            true set_to_true true)
          found_block
        >>= λ h1. some (block1, h1))
    else insert_node fuel
        (initialize (initialize h found_block block_length true preserve false) block2 rest_length
          true set_to_true true)
        block2
      >>= λ h1. some (found_block, h1)

abbrev pub set_free : Heap → ℕ → Bool → Heap
set_free h block is_free = record h {
  bytes = set_block_is_free h.bytes (heap_size h) block is_free;
}

-- The payload, or `none` for NULL.
unfoldable pub mm_malloc : ℕ → Heap → ℕ → Option (Option ℕ × Heap)
mm_malloc fuel h request_size =
    let block_length = block_length_from_payload_size request_size in
    if request_size == 0
    then some (none, h)
    else find_block fuel h block_length >>= λ found.
        split_block fuel found.1 found.0 request_size block_length >>= λ placed.
        some (some (get_block_payload placed.0), set_free placed.1 placed.0 false)

abbrev pub length_of : Heap → Option ℕ → ℕ
length_of h none = 0
length_of h (some block) = get_block_length h.bytes block

abbrev pub or_block : Option ℕ → ℕ → ℕ
or_block none block = block
or_block (some b) block = b

abbrev pub is_some {ℓ} : {A : Type ℓ} → Option A → Bool
is_some none = false
is_some (some a) = true

unfoldable pub delete_if : ℕ → Heap → Option ℕ → Option Heap
delete_if fuel h none = some h
delete_if fuel h (some block) = delete_node fuel h block

-- The free neighbours leave the tree, and the block is merged with them.
unfoldable pub mm_free : ℕ → Heap → ℕ → Option Heap
mm_free fuel h ptr =
    let block = get_payload_block h.bytes ptr in
    let block_length = get_block_length h.bytes block in
    let previous_block = get_previous_block_if_free h.bytes block in
    delete_if fuel h previous_block >>= λ h1.
    let next_block = get_next_block_if_free h1.bytes (heap_size h1) block in
    delete_if fuel h1 next_block >>= λ h2.
    let merged_block = or_block previous_block block in
    let merged_length = block_length + length_of h1 previous_block + length_of h2 next_block in
    let h3 =
      if is_some previous_block || is_some next_block
      then initialize h2 merged_block merged_length true preserve true
      else set_free h2 merged_block true in
    insert_node fuel h3 merged_block
