-- ===== src/Malloc/Tree.antt =====
-- The red-black tree of free blocks in malloclab/mm.c. A node is the offset of its block from
-- `mem_heap_lo()`, and the tree lies in the headers of the blocks. A pointer has 8 bytes.
pub mod Bound
pub mod Links
pub mod Nodes
pub mod Marks
pub mod Focus
pub mod Rotate
pub mod Turned
pub mod Stored
pub mod Paint
pub mod BlackUncle
pub mod FixRotate
pub mod RedBlack
pub mod Reads
pub mod RedUncle
pub mod Rebuilt
pub mod Fixup
pub mod Sorted
pub mod Descend
pub mod Insertion
pub mod Moves
pub mod CloseGap
pub mod Gap
pub mod GapClosed
pub mod Brother
pub mod Round
pub mod LiftBrother
pub mod DeleteFixup
pub mod FirstFit
pub mod Unlink
pub mod Removed
pub mod DeleteOuter
pub mod Insert
pub mod Delete
use ics.Common.{
  ℕ, zero, suc, ◌+◌, ◌-◌, Bool, true, false, Option, none, some, leb, ◌==◌, if◌then◌else◌,
}
use ics.Bytes.{Buffer, get_le, put_le}
use ics.Malloc.Block.{
  get_block_length, set_block_length, set_block_is_free_flag_only, init_block_header_type_bit,
  read_block_header_integer, write_block_header_integer, read_block_header_bit,
  write_block_header_bit,
}

pub data Which : Type 0 where
  rb_left rb_right : Which

-- `which ^ 1`
abbrev pub other : Which → Which
other rb_left = rb_right
other rb_right = rb_left

abbrev pub same_which : Which → Which → Bool
same_which rb_left rb_left = true
same_which rb_left rb_right = false
same_which rb_right rb_left = false
same_which rb_right rb_right = true

-- `2 + (child)`
abbrev pub child_index : Which → ℕ
child_index rb_left = 2
child_index rb_right = 3

abbrev pub rb_red : ℕ
rb_red = 0

abbrev pub rb_black : ℕ
rb_black = 1

-- `sizeof(rb_node_t) + mem_heap_lo()`
abbrev pub rbnull : ℕ
rbnull = 8

unfoldable pub rb_parent : Buffer → ℕ → ℕ
rb_parent m node = read_block_header_integer m node 1

unfoldable pub rb_child : Buffer → ℕ → Which → ℕ
rb_child m node child = read_block_header_integer m node (child_index child)

unfoldable pub rb_color : Buffer → ℕ → ℕ
rb_color m node = read_block_header_bit m node 2

unfoldable pub rb_value : Buffer → ℕ → ℕ
rb_value m node = get_block_length m node

unfoldable pub rb_set_parent_unchecked : Buffer → ℕ → ℕ → Buffer
rb_set_parent_unchecked m node value = write_block_header_integer m node 1 value

unfoldable pub rb_set_parent : Buffer → ℕ → ℕ → Buffer
rb_set_parent m node value = if node == rbnull then m else rb_set_parent_unchecked m node value

unfoldable pub rb_set_child_unchecked : Buffer → ℕ → Which → ℕ → Buffer
rb_set_child_unchecked m node child value =
    write_block_header_integer m node (child_index child) value

unfoldable pub rb_set_child : Buffer → ℕ → Which → ℕ → Buffer
rb_set_child m node child value =
    if node == rbnull then m else rb_set_child_unchecked m node child value

unfoldable pub rb_set_color_unchecked : Buffer → ℕ → ℕ → Buffer
rb_set_color_unchecked m node value = write_block_header_bit m node 2 value

unfoldable pub rb_set_color : Buffer → ℕ → ℕ → Buffer
rb_set_color m node value = if node == rbnull then m else rb_set_color_unchecked m node value

unfoldable pub rb_which : Buffer → ℕ → ℕ → Which
rb_which m node parent = if node == rb_child m parent rb_left then rb_left else rb_right

unfoldable pub rb_init_node : Buffer → ℕ → Buffer
rb_init_node m node = rb_set_parent m node node

-- The loop of `rb_lower_bound`; `none` means that the fuel ran out.
unfoldable pub lower_loop : ℕ → Buffer → ℕ → ℕ → ℕ → Option ℕ
lower_loop zero m node result value = none
lower_loop (suc fuel) m node result value =
    let at_left = lower_loop fuel m (rb_child m node rb_left) node value in
    let at_right = lower_loop fuel m (rb_child m node rb_right) result value in
    if node == rbnull
    then some result
    else if leb value (rb_value m node)
    then at_left
    else at_right

-- `lo` is `mem_heap_lo()`: `rbroot` is a pointer in the first 8 bytes.
module _ (lo : ℕ) where
  unfoldable pub rbroot : Buffer → ℕ
  rbroot m = get_le 8 m 0 - lo

  unfoldable pub set_rbroot : Buffer → ℕ → Buffer
  set_rbroot m node = put_le 8 m 0 (lo + node)

  -- The memory, and the offset that is returned.
  unfoldable pub rb_init : Buffer → Buffer × ℕ
  rb_init m =
      let m1 = set_block_length m rbnull 12 in
      let m2 = set_block_is_free_flag_only m1 rbnull false in
      let m3 = init_block_header_type_bit m2 rbnull in
      let m4 = rb_set_color_unchecked m3 rbnull rb_black in
      let m5 = rb_set_parent_unchecked m4 rbnull rbnull in
      let m6 = rb_set_child_unchecked m5 rbnull rb_left rbnull in
      let m7 = rb_set_child_unchecked m6 rbnull rb_right rbnull in
      (set_rbroot m7 rbnull, 12 + (rbnull + 12))

  unfoldable pub rb_lower_bound : ℕ → Buffer → ℕ → Option ℕ
  rb_lower_bound fuel m value = lower_loop fuel m (rbroot m) rbnull value
