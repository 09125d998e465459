-- ===== src/Malloc/Tests.antt =====
-- The allocator's parts on small memories, and the theorems there.
use ics.Malloc.Realloc.{overlap_length, move_payload}
use ics.Malloc.Realloc.Moved.{move_payload_type}
use ics.Malloc.Driver.{
  add_range, mm_package, replay_op, eval_mm_valid, Range, Session, added, alloc_request,
  realloc_request, free_request, valid,
}
use ics.Malloc.Driver.Replay.{WhileValid, eval_mm_valid-Separate, realloc_high_index}
use ics.Malloc.Driver.Ranges.{
  Separate, range_of, AddOutcome, add_range-AddOutcome, add_range_surrounding,
}
use ics.Malloc.OldBlock
use ics.Malloc.OldBlock.Same.{old_headers_same}
use ics.Malloc.Heap.{
  get_previous_is_free, set_block_is_free, previous_after, init_block, Heap, preserve,
}
use ics.Malloc.Heap.Tags.{set_block_is_free-Tagged, BlockFits, Tagged}
use ics.Malloc.Heap.Payload.{FromPayload, set_block_is_free-FromPayload, set_block_is_free_small}
use ics.Malloc.Heap.Init.{init_block-Initialized, Initialized}
use ics.Common.{
  ℕ, ◌+◌, ◌-◌, ◌%◌, ◌≤◌, ◌≡◌, refl, ◌≢◌, ◌⊎◌, inl, inr, true, false, Option, none, some, List, [],
  ◌∷◌, arith, ◌==◌, if◌then◌else◌,
}
use ics.Bytes.{Buffer, get_le, put_le, zeros, IsBytes}
use ics.Malloc.Memlib.{max_heap, Memory}
use ics.Malloc.Block.{
  get_block_type, read_24, read_24_transformed, or_bits, write_24_preserve_low_bit, write_bit,
  get_block_length, get_block_is_free, set_block_length_footer, set_block_length, get_block_payload,
  get_payload_block, get_block_header_second_part_offseted, read_8_aligned, read_4_aligned,
  read_block_header_integer, write_split, write_with_type, write_block_header_integer,
  read_block_header_bit, write_block_header_bit, block_8_aligned, block_4_aligned,
}
use ics.Malloc.Block.Frame.{write_inside}
use ics.Malloc.Block.RoundTrip.{HeaderFits, write_block_header_integer-Stores, Stores, left_field}
use ics.Malloc.Tree.{
  rb_parent, rb_child, rb_color, rb_value, rb_set_parent_unchecked, rb_set_parent,
  rb_set_child_unchecked, rb_set_child, rb_set_color_unchecked, rb_set_color, rb_which, lower_loop,
  rbroot, set_rbroot, rb_lower_bound,
}
use ics.Malloc.Tree.Insert.{
  insert_place, rb_rotate, fix_rotate, rb_insert_fixup, insert_at, rb_insert,
}
use ics.Malloc.Tree.Delete.{
  rb_delete_fixup, rb_delete_with_at_most_one_child, replace_root, leftmost, delete_inner,
  delete_outer, mark_removed, rb_delete,
}
use ics.Malloc.Tree.Bound.{Linked, Ordered, Shape, leaf, branch}

abbrev small_heap : Memory
small_heap = record { mem_start_brk = 4096; mem_brk = 4196; mem_max_addr = 4296 }

-- The root is the block at 24, of length 32; its left child is the block at 56, of length 16.
abbrev two_blocks : Buffer
two_blocks k =
    if k == 0
    then 24
    else if k == 1
    then 16
    else if k == 24
    then 16
    else if k == 30
    then 28
    else if k == 53
    then 4
    else if k == 56
    then 8
    else if k == 62
    then 4
    else if k == 69
    then 4
    else 0

two_blocks-IsBytes : IsBytes two_blocks
two_blocks-IsBytes k = ground arith

fits_24 : HeaderFits two_blocks 24
unfolding get_block_is_free get_block_length read_24_transformed read_24 get_le
fits_24 = omega arith

length_24 : get_block_length two_blocks 24 ≡ 32
unfolding get_block_length read_24_transformed read_24 get_le
length_24 = refl

write_inside_example : write_block_header_integer two_blocks 24 2 2097156 60 ≡ two_blocks 60
write_inside_example =
    write_inside two_blocks 24 two_blocks-IsBytes fits_24 left_field 2097156 60 (omega arith)
      (inr (rw length_24 (omega arith)))

write_block_header_integer-Stores_example :
    Stores two_blocks (write_block_header_integer two_blocks 24 2 2097156) 24 2 2097156
write_block_header_integer-Stores_example =
    write_block_header_integer-Stores two_blocks 24 2097156 two_blocks-IsBytes refl (omega arith)
      left_field fits_24

-- A 4-aligned block is written and read back by running the code.
runs_4_aligned :
    read_block_header_integer (write_block_header_integer two_blocks 28 3 2097156) 28 3 ≡ 2097156
unfolding read_block_header_integer write_block_header_integer get_block_type write_with_type
    read_4_aligned
runs_4_aligned = refl

abbrev two_nodes : Shape
two_nodes = branch 24 (branch 56 leaf leaf) leaf

linked : Linked two_blocks (rbroot 4096 two_blocks) two_nodes
unfolding rbroot rb_child read_block_header_integer get_block_type read_8_aligned
    get_block_header_second_part_offseted get_block_length get_block_is_free read_24_transformed
    read_24 get_le
linked = (refl, (λ e. omega arith), (refl, (λ e. omega arith), refl, refl), refl)

ordered : Ordered two_blocks two_nodes
unfolding rb_value get_block_length read_24_transformed read_24 get_le
ordered = ((omega arith, tt, tt), tt, (tt, tt, tt, tt), tt)

-- The smaller block is enough for 14 bytes.
finds_smaller : rb_lower_bound 4096 3 two_blocks 14 ≡ some 56
unfolding rb_lower_bound lower_loop rb_value rbroot rb_child read_block_header_integer
    get_block_type read_8_aligned get_block_header_second_part_offseted get_block_length
    get_block_is_free read_24_transformed read_24 get_le
finds_smaller = refl

-- The same two blocks with their parents and colors: the root is black, and so is the null node.
abbrev red_black : Buffer
red_black k =
    if k == 8
    then 6
    else if k == 14
    then 1
    else if k == 27
    then 4
    else if k == 30
    then 29
    else if k == 59
    then 12
    else two_blocks k

abbrev search_after : ℕ → Option Buffer → Option ℕ
search_after value none = none
search_after value (some m) = rb_lower_bound 4096 3 m value

-- With the smaller block deleted, the larger is found.
deleted_smaller : search_after 14 (rb_delete 4096 3 red_black 56) ≡ some 24
unfolding rb_delete mark_removed delete_outer delete_inner leftmost replace_root
    rb_delete_with_at_most_one_child rb_delete_fixup rb_set_parent rb_set_parent_unchecked
    rb_set_child rb_set_child_unchecked rb_set_color rb_set_color_unchecked rb_color rb_parent
    rb_which read_block_header_bit write_block_header_integer write_block_header_bit write_split
    write_bit write_24_preserve_low_bit or_bits write_with_type read_4_aligned set_rbroot put_le
    rb_lower_bound lower_loop rb_value rbroot rb_child read_block_header_integer get_block_type
    read_8_aligned get_block_header_second_part_offseted get_block_length get_block_is_free
    read_24_transformed read_24 get_le
deleted_smaller = refl

-- A third block, of length 24 at 72, is found after its insertion.
inserted_middle : search_after 20 (rb_insert 4096 3 (set_block_length red_black 72 24) 72) ≡ some 72
unfolding rb_insert insert_place insert_at rb_insert_fixup fix_rotate rb_rotate set_block_length
    set_block_length_footer rb_set_parent rb_set_parent_unchecked rb_set_child
    rb_set_child_unchecked rb_set_color rb_set_color_unchecked rb_color rb_parent rb_which
    read_block_header_bit write_block_header_integer write_block_header_bit write_split write_bit
    write_24_preserve_low_bit or_bits write_with_type read_4_aligned set_rbroot put_le
    rb_lower_bound lower_loop rb_value rbroot rb_child read_block_header_integer get_block_type
    read_8_aligned get_block_header_second_part_offseted get_block_length get_block_is_free
    read_24_transformed read_24 get_le
inserted_middle = refl

old_headers_same_example :
    (OldBlock.get_block_length two_blocks 24 ≡ get_block_length two_blocks 24)
    × (OldBlock.read_block_header_integer two_blocks 24 2
        ≡ read_block_header_integer two_blocks 24 2)
    × (OldBlock.set_block_length two_blocks 24 28 ≡ set_block_length two_blocks 24 28)
    × (OldBlock.write_block_header_integer two_blocks 24 2 28
        ≡ write_block_header_integer two_blocks 24 2 28)
old_headers_same_example =
    old_headers_same two_blocks 24 2 28 two_blocks-IsBytes (omega arith) (omega arith)

block_24-BlockFits : BlockFits two_blocks 24
unfolding get_block_length read_24_transformed read_24 get_le
block_24-BlockFits = record { behind_null = omega arith; enough = omega arith; fits = omega arith }

whole_24 : get_block_length two_blocks 24 % 4 ≡ 0
unfolding get_block_length read_24_transformed read_24 get_le
whole_24 = refl

set_block_is_free-Tagged_example :
    Tagged two_blocks (set_block_is_free two_blocks 100 24 true) 100 24 true
set_block_is_free-Tagged_example =
    set_block_is_free-Tagged two_blocks 100 24 block_24-BlockFits two_blocks-IsBytes whole_24 true

found_24 : FromPayload two_blocks 24
unfolding get_payload_block get_block_payload get_block_type
found_24 = refl

aligned_24 : (get_block_type 24 ≡ block_8_aligned) ⊎ (20 ≤ get_block_length two_blocks 24)
unfolding get_block_type
aligned_24 = inl refl

set_block_is_free-FromPayload_example : FromPayload (set_block_is_free two_blocks 100 24 false) 24
set_block_is_free-FromPayload_example =
    set_block_is_free-FromPayload two_blocks 100 24 block_24-BlockFits two_blocks-IsBytes aligned_24
      found_24

-- A block of 16 bytes at 28, with its type bit.
abbrev small_block : Buffer
small_block k = if k == 28 then 8 else if k == 39 then 1 else 0

small_block-IsBytes : IsBytes small_block
small_block-IsBytes k = ground arith

small_block-BlockFits : BlockFits small_block 28
unfolding get_block_length read_24_transformed read_24 get_le
small_block-BlockFits = record {
  behind_null = omega arith;
  enough = omega arith;
  fits = omega arith;
}

small_block-four : get_block_type 28 ≡ block_4_aligned
unfolding get_block_type
small_block-four = refl

small_block-length : get_block_length small_block 28 ≡ 16
unfolding get_block_length read_24_transformed read_24 get_le
small_block-length = refl

set_block_is_free_small_example :
    get_payload_block (set_block_is_free small_block 100 28 false) (get_block_payload 28) ≡ 32
set_block_is_free_small_example =
    set_block_is_free_small small_block 100 28 small_block-BlockFits small_block-IsBytes
      small_block-four small_block-length refl

init_block-Initialized_example :
    Initialized
      (init_block two_blocks 100 24 24 true preserve true)
      100
      24
      24
      true
      (previous_after preserve (get_previous_is_free two_blocks 24))
      true
init_block-Initialized_example =
    init_block-Initialized two_blocks 100 24 24 true preserve true two_blocks-IsBytes (omega arith)
      refl (omega arith) (omega arith) refl (omega arith)

abbrev one_range : List Range
one_range = (record { low = 4112; high = 4119 }) ∷ []

add_range-AddOutcome_example :
    AddOutcome 4096 8191 one_range (range_of 4120 16) (add_range 4096 8191 one_range 4120 16)
add_range-AddOutcome_example = add_range-AddOutcome 4096 8191 one_range 4120 16 (omega arith)

add_range_surrounding_example :
    add_range 4096 8191 one_range 4104 32 ≡ added (range_of 4104 32 ∷ one_range)
add_range_surrounding_example =
    add_range_surrounding 4096 8191 one_range 4104 32 (omega arith) refl (omega arith) (omega arith)
      ((omega arith, omega arith), tt)

abbrev new_heap : Heap
new_heap = record {
  memory = record { mem_start_brk = 4096; mem_brk = 4096; mem_max_addr = 4096 + max_heap };
  bytes = zeros;
}

eval_mm_valid-Separate_example : WhileValid Separate (
    eval_mm_valid
      (mm_package 5)
      new_heap
      one_range
      zeros
      zeros
      (alloc_request 0 8 ∷ realloc_request 0 40 ∷ free_request 0 ∷ []))
eval_mm_valid-Separate_example =
    eval_mm_valid-Separate (mm_package 5) new_heap one_range zeros zeros
      (alloc_request 0 8 ∷ realloc_request 0 40 ∷ free_request 0 ∷ [])

-- A session with a block of 8 bytes under every index.
abbrev eights : Session
eights = record { heap = new_heap; ranges = one_range; blocks = λ k. 16; block_sizes = λ k. 8 }

realloc_high_index_example : replay_op (mm_package 5) eights (realloc_request 200 40) ≢ valid eights
realloc_high_index_example =
    realloc_high_index (mm_package 5) eights eights 200 40 (omega arith) (omega arith) (omega arith)

-- A block of 48 bytes at 36, and an old payload at 80.
overlap_36 : overlap_length 36 ≡ 8
unfolding get_block_type
overlap_36 = refl

move_payload_type_example :
    get_payload_block (move_payload new_heap zeros 36 48 80 32).bytes (get_block_payload 36)
    ≡ (if zeros 79 % 2 == 0 then get_block_payload 36 - 8 else get_block_payload 36 - 12)
move_payload_type_example =
    move_payload_type new_heap zeros 36 48 80 32 (omega (arith, overlap_36))
      (omega (arith, overlap_36)) (omega arith)
