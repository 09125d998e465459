-- ===== src/Malloc/Runs.antt =====
-- Runs of the allocator: the payload of a last request with the block that is found from it, and the
-- replay of a trace.
use ics.Malloc.Driver.{
  overlaps_any, add_range, remove_range, clear_ranges, mm_package, fill, all_bytes, check_alloc,
  check_realloc, check_free, replay_op, replay, eval_mm_valid, Range, Verdict, alloc_request,
  realloc_request, free_request, valid, invalid, aborted, out_of_fuel,
}
use ics.Common.{ℕ, ◌+◌, ◌≡◌, refl, Option, none, some, List, [], ◌∷◌}
use ics.Bytes.{get_le, put_le, copy, clear, zeros}
use ics.Malloc.Memlib.{
  max_heap, mem_init, mem_reset_brk, mem_sbrk, mem_heap_lo, mem_heap_hi, mem_heapsize,
}
use ics.Malloc.Block.{
  get_block_type, read_24, read_24_transformed, or_bits, write_24_preserve_low_bit, write_bit,
  get_block_length, get_block_is_free, set_block_length_footer, set_block_length,
  set_block_is_free_flag_only, init_block_header_type_bit, get_block_payload, get_payload_block,
  get_block_header_second_part_offseted, read_8_aligned, read_4_aligned, read_block_header_integer,
  write_split, write_with_type, write_block_header_integer, read_block_header_bit,
  write_block_header_bit,
}
use ics.Malloc.Tree.{
  rb_parent, rb_child, rb_color, rb_value, rb_set_parent_unchecked, rb_set_parent,
  rb_set_child_unchecked, rb_set_child, rb_set_color_unchecked, rb_set_color, rb_which,
  rb_init_node, lower_loop, rbroot, set_rbroot, rb_init, rb_lower_bound,
}
use ics.Malloc.Tree.Insert.{
  insert_place, rb_rotate, fix_rotate, rb_insert_fixup, insert_at, rb_insert,
}
use ics.Malloc.Tree.Delete.{
  lift_brother, close_gap, rb_delete_fixup, rb_delete_with_at_most_one_child, replace_root,
  leftmost, swap_near, swap_far, delete_inner, delete_outer, mark_removed, rb_delete,
}
use ics.Malloc.Heap.{
  block_length_from_payload_size, payload_size_from_block_length, to_int, get_previous_is_free,
  set_previous_is_free, get_previous_block_if_free, get_next_block_if_free, get_logical_next_block,
  move_second_part, set_block_is_free, init_block, ◌>>=◌, delete_node, insert_node, extend, mm_init,
  Heap,
}
use ics.Malloc.Alloc.{find_block, split_block, mm_malloc, delete_if, mm_free}
use ics.Malloc.Realloc.{
  copy_and_free, mm_realloc_by_malloc_free, shrink, grow_last, choose_merge, move_payload,
  free_rest, merge_blocks, merge_or_move, grow, mm_realloc,
}

abbrev empty_heap : Heap
empty_heap = record {
  memory = record { mem_start_brk = 4096; mem_brk = 4096; mem_max_addr = 4096 + max_heap };
  bytes = zeros;
}

abbrev payload_of : Option ℕ → ℕ
payload_of none = 0
payload_of (some p) = p

-- What the replay of a trace says, with the ranges at its end.
abbrev ranges_left : Verdict → Option (List Range)
ranges_left (valid s) = some s.ranges
ranges_left invalid = none
ranges_left aborted = none
ranges_left out_of_fuel = none

runs : Option (Option ℕ × ℕ) × Option (Option ℕ × ℕ) × Option (List Range)
unfolding get_le put_le copy clear mem_init mem_reset_brk mem_sbrk mem_heap_lo mem_heap_hi
    mem_heapsize get_block_type read_24 read_24_transformed or_bits write_24_preserve_low_bit
    write_bit get_block_length get_block_is_free set_block_length_footer set_block_length
    set_block_is_free_flag_only init_block_header_type_bit get_block_payload get_payload_block
    get_block_header_second_part_offseted read_8_aligned read_4_aligned read_block_header_integer
    write_split write_with_type write_block_header_integer read_block_header_bit
    write_block_header_bit rb_parent rb_child rb_color rb_value rb_set_parent_unchecked
    rb_set_parent rb_set_child_unchecked rb_set_child rb_set_color_unchecked rb_set_color rb_which
    rb_init_node lower_loop rbroot set_rbroot rb_init rb_lower_bound insert_place rb_rotate
    fix_rotate rb_insert_fixup insert_at rb_insert lift_brother close_gap rb_delete_fixup
    rb_delete_with_at_most_one_child replace_root leftmost swap_near swap_far delete_inner
    delete_outer mark_removed rb_delete block_length_from_payload_size
    payload_size_from_block_length to_int get_previous_is_free set_previous_is_free
    get_previous_block_if_free get_next_block_if_free get_logical_next_block move_second_part
    set_block_is_free init_block delete_node insert_node extend mm_init find_block split_block
    mm_malloc delete_if mm_free copy_and_free mm_realloc_by_malloc_free shrink grow_last
    choose_merge move_payload free_rest merge_blocks merge_or_move grow mm_realloc overlaps_any
    add_range remove_range fill all_bytes check_alloc check_realloc check_free replay_op replay
    eval_mm_valid clear_ranges
runs = (
  mm_init 5 empty_heap >>= λ h. mm_malloc 5 h 8 >>= λ a. mm_malloc 5 a.1 64 >>= λ b.
      mm_malloc 5 b.1 40 >>= λ c. mm_malloc 5 c.1 8 >>= λ e.
      mm_free 5 e.1 (payload_of b.0) >>= λ h1. mm_realloc 5 h1 (payload_of c.0) 76 >>= λ r.
      some (r.0, get_payload_block r.1.bytes (payload_of r.0)),
  mm_init 5 empty_heap >>= λ h. mm_malloc 5 h 8 >>= λ a.
      mm_malloc 5 a.1 1 >>= λ b. some (b.0, get_payload_block b.1.bytes (payload_of b.0)),
  ranges_left (
      eval_mm_valid (mm_package 5) empty_heap [] zeros zeros
        (alloc_request 0 8 ∷ alloc_request 1 70 ∷ realloc_request 0 40 ∷ free_request 1 ∷ [])),
)

-- A block that `mm_realloc` merged with its previous neighbour: its payload is 48, and the block that
-- is found from it is not the one at 36.
grown_run : runs.0 ≡ some (some 48, 40)
unfolding runs
grown_run = refl

-- A request of one byte after one of 8 bytes.
tiny_run : runs.1 ≡ some (some 48, 40)
unfolding runs
tiny_run = refl

-- A replay that finds the package valid, with the one payload that is left.
replayed_run : runs.2 ≡ some ((record { low = 4120; high = 4159 }) ∷ [])
unfolding runs
replayed_run = refl
