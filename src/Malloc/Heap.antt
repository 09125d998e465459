-- ===== src/Malloc/Heap.antt =====
-- The blocks of the heap in malloclab/mm.c: neighbours, boundary tags and the extension of the heap.
-- Pointers are offsets from `mem_heap_lo()`.
pub mod Tags
pub mod Payload
pub mod Writes
pub mod Init
use ics.Common.{
  ℕ, ◌+◌, ◌-◌, ◌*◌, ◌/◌, ◌%◌, ◌^◌, Bool, true, false, not, Option, none, some, ltb, ◌==◌,
  if◌then◌else◌, ℤ, pos, negsuc,
}
use ics.Bytes.{Buffer, copy}
use ics.Malloc.Memlib.{mem_sbrk, mem_heap_lo, mem_heapsize, Memory}
use ics.Malloc.Block.{
  get_block_type, read_24_transformed, get_block_length, get_block_is_free, set_block_length_footer,
  set_block_length, set_block_is_free_flag_only, init_block_header_type_bit, read_block_header_bit,
  write_block_header_bit, block_8_aligned, block_4_aligned,
}
use ics.Malloc.Tree.{rbnull, rb_init_node, rb_init}
use ics.Malloc.Tree.Insert.{rb_insert}
use ics.Malloc.Tree.Delete.{rb_delete}

pub record Heap : Type 0 where
  pub memory : Memory
  pub bytes : Buffer

abbrev pub heap_size : Heap → ℕ
heap_size h = mem_heapsize h.memory

abbrev pub minimal_block_size : ℕ
minimal_block_size = 12 + 3

abbrev pub init_heap_available_size : ℕ
init_heap_available_size = 4092 + 16 + 16 + 12 * 3

abbrev pub min_extend_size : ℕ
min_extend_size = 4096

abbrev pub heap_header_size : ℕ
heap_header_size = 4 + 12

-- `size_t` has 64 bits.
unfoldable pub block_length_from_payload_size : ℕ → ℕ
block_length_from_payload_size payload_size = (payload_size + 15) % 2 ^ 64 / 4 * 4

unfoldable pub payload_size_from_block_length : ℕ → ℕ
payload_size_from_block_length block_length = (block_length + (2 ^ 64 - 12)) % 2 ^ 64

-- `a - b` of two `size_t`, and the conversion of one to `int`.
abbrev pub size_minus : ℕ → ℕ → ℕ
size_minus a b = (a + (2 ^ 64 - b)) % 2 ^ 64

unfoldable pub to_int : ℕ → ℤ
to_int n = if ltb (n % 2 ^ 32) (2 ^ 31) then pos (n % 2 ^ 32) else negsuc (2 ^ 32 - n % 2 ^ 32 - 1)

unfoldable pub get_previous_is_free : Buffer → ℕ → Bool
get_previous_is_free m block = read_block_header_bit m block 1 == 1

abbrev pub bit_of : Bool → ℕ
bit_of v = if v then 1 else 0

unfoldable pub set_previous_is_free : Buffer → ℕ → Bool → Buffer
set_previous_is_free m block value = write_block_header_bit m block 1 (bit_of value)

-- `block + length - 1 == mem_heap_hi()`
abbrev pub is_last_block : ℕ → ℕ → ℕ → Bool
is_last_block size block block_length = block + block_length == size

unfoldable pub get_previous_block_if_free : Buffer → ℕ → Option ℕ
get_previous_block_if_free m block =
    if get_previous_is_free m block then some (block - read_24_transformed m (block - 3)) else none

-- `size` is the size of the heap.
unfoldable pub get_next_block_if_free : Buffer → ℕ → ℕ → Option ℕ
get_next_block_if_free m size block =
    let next_block = block + get_block_length m block in
    if is_last_block size block (get_block_length m block)
    then none
    else if get_block_is_free m next_block
    then some next_block
    else none

-- Behind the last block, `rbnull` holds whether it is free.
unfoldable pub get_logical_next_block : Buffer → ℕ → ℕ → ℕ
get_logical_next_block m size block =
    if is_last_block size block (get_block_length m block)
    then rbnull
    else block + get_block_length m block

abbrev pub second_part_length : ℕ → ℕ
second_part_length block = elim (get_block_type block) [ block_8_aligned ↦ 4 | block_4_aligned ↦ 8 ]

abbrev pub footer_length : Bool → ℕ
footer_length is_free = if is_free then 3 else 0

-- The second part of the header moves to where it stands with or without a footer.
unfoldable pub move_second_part : Buffer → ℕ → Bool → Buffer
move_second_part m block is_free =
    let block_end = block + get_block_length m block in
    copy (second_part_length block) m (block_end - footer_length is_free - second_part_length block)
      m (block_end - footer_length (not is_free) - second_part_length block)

unfoldable pub set_block_is_free : Buffer → ℕ → ℕ → Bool → Buffer
set_block_is_free m size block is_free =
    let block_length = get_block_length m block in
    let m1 = set_block_is_free_flag_only (move_second_part m block is_free) block is_free in
    let m2 = set_previous_is_free m1 (get_logical_next_block m1 size block) is_free in
    if is_free then set_block_length_footer m2 block block_length else m2

pub data PreviousAction : Type 0 where
  set_to_false set_to_true preserve : PreviousAction

abbrev pub previous_after : PreviousAction → Bool → Bool
previous_after set_to_false old = false
previous_after set_to_true old = true
previous_after preserve old = old

unfoldable pub init_block : Buffer → ℕ → ℕ → ℕ → Bool → PreviousAction → Bool → Buffer
init_block m size block block_length is_free action set_next =
    let old = get_previous_is_free m block in
    let m1 = set_block_is_free_flag_only (init_block_header_type_bit m block) block is_free in
    let m2 = set_block_length m1 block block_length in
    let m3 = set_previous_is_free m2 block (previous_after action old) in
    let m4 =
      if set_next
      then set_previous_is_free m3 (get_logical_next_block m3 size block) is_free
      else m3 in
    rb_init_node m4 block

infixl 5 ◌>>=◌
abbrev pub ◌>>=◌ {ℓ κ} : {A : Type ℓ} {B : Type κ} → Option A → (A → Option B) → Option B
none >>= f = none
some a >>= f = f a

abbrev pub lo : Heap → ℕ
lo h = mem_heap_lo h.memory

-- The result of `mem_sbrk` is not looked at.
abbrev pub grow_heap : Heap → ℕ → Heap
grow_heap h incr = record h { memory = (mem_sbrk h.memory (to_int incr)).1 }

abbrev pub initialize : Heap → ℕ → ℕ → Bool → PreviousAction → Bool → Heap
initialize h block block_length is_free action set_next = record h {
  bytes = init_block h.bytes (heap_size h) block block_length is_free action set_next;
}

-- `none` means that the fuel of a loop in the tree ran out.
unfoldable pub delete_node : ℕ → Heap → ℕ → Option Heap
delete_node fuel h node = rb_delete (lo h) fuel h.bytes node >>= λ m. some (record h { bytes = m })

unfoldable pub insert_node : ℕ → Heap → ℕ → Option Heap
insert_node fuel h node = rb_insert (lo h) fuel h.bytes node >>= λ m. some (record h { bytes = m })

unfoldable pub extend : ℕ → Heap → ℕ → Option (ℕ × Heap)
extend fuel h wanted_block_size =
    let new_space = heap_size h in
    let last_block_length = read_24_transformed h.bytes (new_space - 3) in
    let last_block = new_space - last_block_length in
    if get_previous_is_free h.bytes rbnull
    then (delete_node fuel h last_block >>= λ h1. some (
      last_block,
      initialize (grow_heap h1 (size_minus wanted_block_size last_block_length)) last_block
          wanted_block_size true preserve true,
    ))
    else some (
      new_space,
      initialize (grow_heap h wanted_block_size) new_space wanted_block_size true set_to_false true,
    )

unfoldable pub mm_init : ℕ → Heap → Option Heap
mm_init fuel h =
    let h1 : Heap = record h { bytes = (rb_init (lo h) h.bytes).0 } in
    let h2 = grow_heap h1 (heap_header_size + init_heap_available_size) in
    insert_node fuel
      (initialize h2 heap_header_size init_heap_available_size true set_to_false true)
      heap_header_size
