-- ===== src/Malloc/Driver/Replay.antt =====
-- The ranges of malloclab/mdriver.c through the replay of a trace.
use ics.Common.{
  ℕ, zero, suc, ◌+◌, ◌-◌, ◌%◌, ◌≤◌, ◌<◌, min, ◌≡◌, refl, ◌≢◌, ◌⊎◌, inl, inr, Bool, true, false,
  Option, none, some, List, [], ◌∷◌, arith, ltb, ◌==◌, if◌then◌else◌, Bool-cases, All, ℤ, pos,
  negsuc,
}
use ics.Bytes.{Buffer}
use ics.Malloc.Heap.{lo, Heap}
use ics.Malloc.Driver.{
  add_range, remove_range, clear_ranges, signed_char, all_bytes, remember, check_alloc,
  check_realloc, check_free, replay_op, ◌>>>◌, replay, check_init, eval_mm_valid, Range, Added,
  Package, TraceOp, Session, Verdict, added, bad_range, assertion_failed, alloc_request,
  realloc_request, free_request, valid, invalid, aborted, out_of_fuel,
}
use ics.Malloc.Driver.Ranges.{
  Disjoint, Surrounds, Separate, range_of, AddOutcome, add_range-AddOutcome,
}

remove_range-All :
    (P : Range → Type 0) (ps : List Range) (low : ℕ) → All P ps → All P (remove_range ps low)
unfolding remove_range
remove_range-All P [] low a = tt
remove_range-All P (p ∷ ps) low (a, rest) = elim (Bool-cases (p.low == low)) [
  | inl t ↦ rw t rest
  | inr t ↦ rw t (a, remove_range-All P ps low rest)
]

remove_range-Separate : (ps : List Range) (low : ℕ) → Separate ps → Separate (remove_range ps low)
unfolding remove_range
remove_range-Separate [] low s = tt
remove_range-Separate (p ∷ ps) low (proper, apart, s) = elim (Bool-cases (p.low == low)) [
  | inl t ↦ rw t s
  | inr t ↦ rw t (
    proper,
    remove_range-All (λ q. Disjoint p q ⊎ Surrounds p q) ps low apart,
    remove_range-Separate ps low s,
  )
]

-- What holds of the ranges that a replay leaves while the package is valid.
abbrev pub WhileValid : (List Range → Type 0) → Verdict → Type 0
WhileValid P (valid s) = P s.ranges
WhileValid P invalid = Unit
WhileValid P aborted = Unit
WhileValid P out_of_fuel = Unit

-- The list that `add_range` leaves.
abbrev AddedWith : (List Range → Type 0) → Added → Type 0
AddedWith P (added rs) = P rs
AddedWith P bad_range = Unit
AddedWith P assertion_failed = Unit

add_range-Separate :
    (heap_low heap_high : ℕ) (ranges : List Range) (low size : ℕ)
    → Separate ranges
    → AddedWith Separate (add_range heap_low heap_high ranges low size)
add_range-Separate heap_low heap_high ranges low zero s = unfold add_range in tt
add_range-Separate heap_low heap_high ranges low (suc size) s =
    pick (add_range heap_low heap_high ranges low (suc size))
      (add_range-AddOutcome heap_low heap_high ranges low (suc size) (omega arith))
  where
    pick :
        (out : Added)
        → AddOutcome heap_low heap_high ranges (range_of low (suc size)) out
        → AddedWith Separate out
    pick bad_range h = tt
    pick assertion_failed h = tt
    pick (added rs) (e, a, b, c, d) = rw e ((a, omega arith), d, s)

alloc-Separate :
    (s : Session) (index size : ℕ) (h : Heap) (p : ℕ) (ranges : List Range) (out : Added)
    → AddedWith Separate out
    → WhileValid Separate (elim out [
      | assertion_failed ↦ aborted
      | bad_range ↦ invalid
      | added ranges ↦ valid (remember s h ranges index p size)
    ])
alloc-Separate s index size h p ranges bad_range a = tt
alloc-Separate s index size h p ranges assertion_failed a = tt
alloc-Separate s index size h p ranges (added rs) a = a

realloc-Separate :
    (s : Session) (index size : ℕ) (h : Heap) (p : ℕ) (same : Bool) (out : Added)
    → AddedWith Separate out
    → WhileValid Separate (elim out [
      | assertion_failed ↦ aborted
      | bad_range ↦ invalid
      | added ranges ↦ if same then valid (remember s h ranges index p size) else invalid
    ])
realloc-Separate s index size h p same bad_range a = tt
realloc-Separate s index size h p same assertion_failed a = tt
realloc-Separate s index size h p true (added rs) a = a
realloc-Separate s index size h p false (added rs) a = tt

check_alloc-Separate :
    (s : Session) (index size : ℕ) (out : Option (Option ℕ × Heap))
    → Separate s.ranges
    → WhileValid Separate (check_alloc s index size out)
unfolding check_alloc
check_alloc-Separate s index size none a = tt
check_alloc-Separate s index size (some (none, h)) a = tt
check_alloc-Separate s index size (some (some p, h)) a =
    alloc-Separate s index size h p s.ranges _ (add_range-Separate _ _ s.ranges (lo h + p) size a)

check_realloc-Separate :
    (s : Session) (index size : ℕ) (out : Option (Option ℕ × Heap))
    → Separate s.ranges
    → WhileValid Separate (check_realloc s index size out)
unfolding check_realloc
check_realloc-Separate s index size none a = tt
check_realloc-Separate s index size (some (none, h)) a = tt
check_realloc-Separate s index size (some (some p, h)) a =
    realloc-Separate s index size h p _ _
      (add_range-Separate _ _ _ (lo h + p) size (remove_range-Separate s.ranges _ a))

check_free-Separate :
    (s : Session) (ranges : List Range) (out : Option Heap)
    → Separate ranges
    → WhileValid Separate (check_free s ranges out)
unfolding check_free
check_free-Separate s ranges none a = tt
check_free-Separate s ranges (some h) a = a

replay_op-Separate :
    (pkg : Package) (s : Session) (op : TraceOp)
    → Separate s.ranges
    → WhileValid Separate (replay_op pkg s op)
unfolding replay_op
replay_op-Separate pkg s (alloc_request index size) a = check_alloc-Separate s index size _ a
replay_op-Separate pkg s (realloc_request index size) a = check_realloc-Separate s index size _ a
replay_op-Separate pkg s (free_request index) a =
    check_free-Separate s _ _ (remove_range-Separate s.ranges _ a)

and_then :
    (v : Verdict) (f : Session → Verdict)
    → WhileValid Separate v
    → ((s : Session) → Separate s.ranges → WhileValid Separate (f s))
    → WhileValid Separate (v >>> f)
and_then (valid s) f a k = k s a
and_then invalid f a k = tt
and_then aborted f a k = tt
and_then out_of_fuel f a k = tt

replay-Separate :
    (pkg : Package) (s : Session) (ops : List TraceOp)
    → Separate s.ranges
    → WhileValid Separate (replay pkg s ops)
unfolding replay
replay-Separate pkg s [] a = a
replay-Separate pkg s (op ∷ ops) a =
    and_then (replay_op pkg s op) (λ s'. replay pkg s' ops) (replay_op-Separate pkg s op a)
      (λ s' a'. replay-Separate pkg s' ops a')

check_init-Separate :
    (pkg : Package) (blocks block_sizes : ℕ → ℕ) (ops : List TraceOp) (out : Option (ℤ × Heap))
    → WhileValid Separate (check_init pkg [] blocks block_sizes ops out)
unfolding check_init
check_init-Separate pkg blocks block_sizes ops none = tt
check_init-Separate pkg blocks block_sizes ops (some (negsuc n, h)) = tt
check_init-Separate pkg blocks block_sizes ops (some (pos n, h)) = replay-Separate pkg _ ops tt

-- For every package and every trace, while `eval_mm_valid` finds the package valid, the payloads in its
-- list of ranges are aligned and not empty, and each is disjoint from those that were there before it,
-- or strictly surrounds them.
pub eval_mm_valid-Separate :
    (pkg : Package) (h : Heap) (ranges : List Range) (blocks block_sizes : ℕ → ℕ)
    (ops : List TraceOp)
    → WhileValid Separate (eval_mm_valid pkg h ranges blocks block_sizes ops)
unfolding eval_mm_valid clear_ranges
eval_mm_valid-Separate pkg h ranges blocks block_sizes ops =
    check_init-Separate pkg blocks block_sizes ops _

-- A byte of 128 or more is not found in a payload, whatever it holds.
all_bytes_high :
    (n : ℕ) (b : Buffer) (at value : ℕ) → 128 ≤ value → all_bytes (suc n) b at value ≡ false
unfolding all_bytes signed_char
all_bytes_high n b at value h = elim (Bool-cases (ltb (b at) 128)) [
  | inl t ↦ let ne : (b at == value) ≡ false = ground arith in rw (t, ne) refl
  | inr t ↦ rw t refl
]

added_high :
    (s s' : Session) (h : Heap) (index size p : ℕ) (same : Bool) (out : Added)
    → same ≡ false
    → elim out [
      | assertion_failed ↦ aborted
      | bad_range ↦ invalid
      | added ranges ↦ if same then valid (remember s h ranges index p size) else invalid
    ]
      ≢ valid s'
added_high s s' h index size p same assertion_failed e = λ q. cc
added_high s s' h index size p same bad_range e = λ q. cc
added_high s s' h index size p true (added rs) e = λ q. cc
added_high s s' h index size p false (added rs) e = λ q. cc

check_realloc_high :
    (s s' : Session) (index size : ℕ) (out : Option (Option ℕ × Heap))
    → 128 ≤ index % 256
    → 0 < size
    → 0 < s.block_sizes index
    → check_realloc s index size out ≢ valid s'
unfolding check_realloc
check_realloc_high s s' index size none h p q = λ e. cc
check_realloc_high s s' index size (some (none, heap)) h p q = λ e. cc
check_realloc_high s s' index size (some (some at, heap)) h p q =
    let least = min size (s.block_sizes index) in
    let e : least ≡ suc (least - 1) = omega arith in
    added_high s s' heap index size at _ _
      (rw e (all_bytes_high (least - 1) heap.bytes at (index % 256) h))

-- Whatever the package does, it is not found valid when a trace reallocates a block that is not empty
-- to a size that is not 0 under an index whose low byte is 128 or more.
pub realloc_high_index :
    (pkg : Package) (s s' : Session) (index size : ℕ)
    → 128 ≤ index % 256
    → 0 < size
    → 0 < s.block_sizes index
    → replay_op pkg s (realloc_request index size) ≢ valid s'
unfolding replay_op
realloc_high_index pkg s s' index size h p q = check_realloc_high s s' index size _ h p q
