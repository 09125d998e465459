-- ===== src/Malloc/Driver.antt =====
-- The check of an allocator by malloclab/mdriver.c: the list of the payloads that are allocated, and
-- `eval_mm_valid`, which replays a trace. Addresses in a range are absolute; the pointers of the
-- allocator are offsets from `mem_heap_lo()`.
pub mod Ranges
pub mod Replay
use ics.Common.{
  ℕ, zero, suc, ◌+◌, ◌-◌, ◌%◌, min, Bool, true, false, not, ◌&&◌, ◌||◌, Option, none, some, List,
  [], ◌∷◌, ltb, leb, ◌==◌, if◌then◌else◌, ℤ, pos, negsuc,
}
use mathlib.Core.Option
use ics.Bytes.{Buffer}
use ics.Malloc.Memlib.{mem_reset_brk, mem_heap_lo, mem_heap_hi}
use ics.Malloc.Heap.{lo, mm_init, Heap}
use ics.Malloc.Alloc.{mm_malloc, mm_free}
use ics.Malloc.Realloc.{mm_realloc}

-- The lowest and the highest address of a payload.
pub record Range : Type 0 where
  pub low : ℕ
  pub high : ℕ

abbrev pub alignment : ℕ
alignment = 8

-- `add_range` returns 1, or 0 after it printed a message; or an assertion fails.
pub data Added : Type 0 where
  added : List Range → Added
  bad_range : Added
  assertion_failed : Added

-- The range from `low` to `high` has an end in `p`.
abbrev pub overlaps : ℕ → ℕ → Range → Bool
overlaps low high p = (leb p.low low && leb low p.high) || (leb p.low high && leb high p.high)

unfoldable pub overlaps_any : ℕ → ℕ → List Range → Bool
overlaps_any low high [] = false
overlaps_any low high (p ∷ ps) =
    let rest = overlaps_any low high ps in if overlaps low high p then true else rest

unfoldable pub add_range : ℕ → ℕ → List Range → ℕ → ℕ → Added
add_range heap_low heap_high ranges low size =
    let high = low + size - 1 in
    if size == 0
    then assertion_failed
    else if not (low % alignment == 0)
    then bad_range
    else if ltb low heap_low || ltb heap_high low || ltb high heap_low || ltb heap_high high
    then bad_range
    else if overlaps_any low high ranges
    then bad_range
    else added ((record { low = low; high = high }) ∷ ranges)

-- The first range that starts at `low` is taken out.
unfoldable pub remove_range : List Range → ℕ → List Range
remove_range [] low = []
remove_range (p ∷ ps) low = let rest = remove_range ps low in if p.low == low then ps else p ∷ rest

unfoldable pub clear_ranges : List Range → List Range
clear_ranges ranges = []

-- The functions of mm.h; `init` has the `int` that it returns. `none` outside means that the fuel of a
-- loop ran out.
pub record Package : Type 0 where
  pub init : Heap → Option (ℤ × Heap)
  pub malloc : Heap → ℕ → Option (Option ℕ × Heap)
  pub realloc : Heap → ℕ → ℕ → Option (Option ℕ × Heap)
  pub free : Heap → ℕ → Option Heap

-- The package of malloclab/mm.c, whose `mm_init` returns 0.
abbrev pub mm_package : ℕ → Package
mm_package fuel = record {
  init = λ h. Option.map (λ (h' : Heap). (pos 0, h')) (mm_init fuel h);
  malloc = mm_malloc fuel;
  realloc = mm_realloc fuel;
  free = mm_free fuel;
}

-- The trace operations with their index, and their size, which is below 2^31.
pub data TraceOp : Type 0 where
  alloc_request : ℕ → ℕ → TraceOp
  realloc_request : ℕ → ℕ → TraceOp
  free_request : ℕ → TraceOp

-- `blocks` and `block_sizes` are the arrays of the trace.
pub record Session : Type 0 where
  pub heap : Heap
  pub ranges : List Range
  pub blocks : ℕ → ℕ
  pub block_sizes : ℕ → ℕ

-- What the replay says of the package: it is valid so far, or it is not.
pub data Verdict : Type 0 where
  valid : Session → Verdict
  invalid : Verdict
  aborted : Verdict
  out_of_fuel : Verdict

-- `memset(dst + at, value, n)`
unfoldable pub fill : ℕ → Buffer → ℕ → ℕ → Buffer
fill n dst at value k = if leb at k && ltb k (at + n) then value else dst k

-- A byte that is read through a pointer to `char`, which is signed on x86.
unfoldable pub signed_char : ℕ → ℤ
signed_char b = if ltb b 128 then pos b else negsuc (255 - b)

-- A `char`, promoted to `int`, against a value that is not negative.
abbrev pub equals_int : ℤ → ℕ → Bool
equals_int (pos n) value = n == value
equals_int (negsuc n) value = false

-- The loop that compares the payload with the low byte of the index.
unfoldable pub all_bytes : ℕ → Buffer → ℕ → ℕ → Bool
unfolding signed_char
all_bytes zero b at value = true
all_bytes (suc n) b at value =
    let rest = all_bytes n b (at + 1) value in
    if equals_int (signed_char (b at)) value then rest else false

-- The new block is filled with the low byte of its index, and remembered.
abbrev pub remember : Session → Heap → List Range → ℕ → ℕ → ℕ → Session
remember s h ranges index p size = record {
  heap = record h { bytes = fill size h.bytes p (index % 256) };
  ranges = ranges;
  blocks = λ k. if k == index then p else s.blocks k;
  block_sizes = λ k. if k == index then size else s.block_sizes k;
}

-- What follows the call of `mm_malloc`.
unfoldable pub check_alloc : Session → ℕ → ℕ → Option (Option ℕ × Heap) → Verdict
check_alloc s index size none = out_of_fuel
check_alloc s index size (some (none, h)) = invalid
check_alloc s index size (some (some p, h)) =
    elim (add_range (mem_heap_lo h.memory) (mem_heap_hi h.memory) s.ranges (lo h + p) size) [
      | assertion_failed ↦ aborted
      | bad_range ↦ invalid
      | added ranges ↦ valid (remember s h ranges index p size)
    ]

-- What follows the call of `mm_realloc` on the old block.
unfoldable pub check_realloc : Session → ℕ → ℕ → Option (Option ℕ × Heap) → Verdict
check_realloc s index size none = out_of_fuel
check_realloc s index size (some (none, h)) = invalid
check_realloc s index size (some (some p, h)) =
    let left = remove_range s.ranges (lo s.heap + s.blocks index) in
    elim (add_range (mem_heap_lo h.memory) (mem_heap_hi h.memory) left (lo h + p) size) [
      | assertion_failed ↦ aborted
      | bad_range ↦ invalid
      | added ranges ↦
          if all_bytes (min size (s.block_sizes index)) h.bytes p (index % 256)
          then valid (remember s h ranges index p size)
          else invalid
    ]

unfoldable pub check_free : Session → List Range → Option Heap → Verdict
check_free s ranges none = out_of_fuel
check_free s ranges (some h) = valid (record s { heap = h; ranges = ranges })

-- One operation of the trace.
unfoldable pub replay_op : Package → Session → TraceOp → Verdict
replay_op pkg s (alloc_request index size) = check_alloc s index size (pkg.malloc s.heap size)
replay_op pkg s (realloc_request index size) =
    check_realloc s index size (pkg.realloc s.heap (s.blocks index) size)
replay_op pkg s (free_request index) =
    check_free s (remove_range s.ranges (lo s.heap + s.blocks index))
      (pkg.free s.heap (s.blocks index))

infixl 5 ◌>>>◌
abbrev pub ◌>>>◌ : Verdict → (Session → Verdict) → Verdict
valid s >>> f = f s
invalid >>> f = invalid
aborted >>> f = aborted
out_of_fuel >>> f = out_of_fuel

unfoldable pub replay : Package → Session → List TraceOp → Verdict
replay pkg s [] = valid s
replay pkg s (op ∷ ops) = replay_op pkg s op >>> λ s'. replay pkg s' ops

-- What follows the call of `mm_init`: a negative result ends the check, and otherwise the trace is
-- replayed, from arrays that hold `blocks` and `block_sizes`.
unfoldable pub check_init :
    Package → List Range → (ℕ → ℕ) → (ℕ → ℕ) → List TraceOp → Option (ℤ × Heap) → Verdict
check_init pkg ranges blocks block_sizes ops none = out_of_fuel
check_init pkg ranges blocks block_sizes ops (some (negsuc n, h)) = invalid
check_init pkg ranges blocks block_sizes ops (some (pos n, h)) =
    replay pkg (record { heap = h; ranges = ranges; blocks = blocks; block_sizes = block_sizes })
      ops

-- `blocks` and `block_sizes` are what the arrays hold before.
unfoldable pub eval_mm_valid :
    Package → Heap → List Range → (ℕ → ℕ) → (ℕ → ℕ) → List TraceOp → Verdict
unfolding check_init
eval_mm_valid pkg h ranges blocks block_sizes ops =
    check_init pkg (clear_ranges ranges) blocks block_sizes ops
      (pkg.init (record h { memory = mem_reset_brk h.memory }))
