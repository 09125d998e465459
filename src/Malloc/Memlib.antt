-- ===== src/Malloc/Memlib.antt =====
-- malloclab/memlib.c: the heap that `mem_sbrk` extends. Addresses are natural numbers.
use ics.Common.{
  ℕ, ◌+◌, ◌-◌, ◌*◌, ◌^◌, ◌≤◌, ◌<◌, ◌≡◌, refl, Bool, true, false, Option, none, some, arith, ltb,
  if◌then◌else◌, ltb→lt, ℤ, pos, negsuc,
}

-- MAX_HEAP of malloclab/config.h.
abbrev pub max_heap : ℕ
max_heap = 20 * 2 ^ 20

pub record Memory : Type 0 where
  pub mem_start_brk : ℕ
  pub mem_brk : ℕ
  pub mem_max_addr : ℕ

-- The argument is what `malloc(MAX_HEAP)` returns; `none` stands for `exit(1)`.
unfoldable pub mem_init : Option ℕ → Option Memory
mem_init none = none
mem_init (some p) = some (record { mem_start_brk = p; mem_brk = p; mem_max_addr = p + max_heap })

unfoldable pub mem_reset_brk : Memory → Memory
mem_reset_brk s = record s { mem_brk = s.mem_start_brk }

-- `none` is the result -1, with ENOMEM.
unfoldable pub mem_sbrk : Memory → ℤ → Option ℕ × Memory
mem_sbrk s (negsuc n) = (none, s)
mem_sbrk s (pos incr) =
    if ltb s.mem_max_addr (s.mem_brk + incr)
    then (none, s)
    else (some s.mem_brk, record s { mem_brk = s.mem_brk + incr })

unfoldable pub mem_heap_lo : Memory → ℕ
mem_heap_lo s = s.mem_start_brk

unfoldable pub mem_heap_hi : Memory → ℕ
mem_heap_hi s = s.mem_brk - 1

unfoldable pub mem_heapsize : Memory → ℕ
mem_heapsize s = s.mem_brk - s.mem_start_brk

-- The heap lies between its start and its limit.
pub record MemoryOk (s : Memory) : Type 0 where
  pub started : s.mem_start_brk ≤ s.mem_brk
  pub limited : s.mem_brk ≤ s.mem_max_addr

-- What `mem_sbrk` does for each increment.
abbrev pub Extends : Memory → ℤ → Option ℕ × Memory → Type 0
Extends s (negsuc n) (r, s') = (r ≡ none) × (s' ≡ s)
Extends s (pos incr) (none, s') = (s.mem_max_addr < s.mem_brk + incr) × (s' ≡ s)
Extends s (pos incr) (some p, s') =
    (p ≡ mem_heap_lo s + mem_heapsize s)
    × (p + incr ≤ s.mem_max_addr)
    × (mem_heapsize s' ≡ mem_heapsize s + incr)
    × (mem_heap_lo s' ≡ mem_heap_lo s)
    × MemoryOk s'

sbrk_pos :
    (s : Memory) (incr : ℕ) (over : Bool)
    → MemoryOk s
    → ltb s.mem_max_addr (s.mem_brk + incr) ≡ over
    → Extends s
        (pos incr)
        (if over then (none, s) else (some s.mem_brk, record s { mem_brk = s.mem_brk + incr }))
unfolding mem_heap_lo mem_heapsize
sbrk_pos s incr true ok e = (ltb→lt _ _ e, refl)
sbrk_pos s incr false ok e =
    let a = ok.started in
    let b = ok.limited in
    let c : s.mem_brk + incr ≤ s.mem_max_addr = ground arith in
    (omega arith, c, omega arith, refl, record { started = omega arith; limited = c })

-- In a heap that lies within its limits, `mem_sbrk` returns the end of the heap and extends the heap
-- by exactly the increment, within its limit; it fails for a negative increment, and where the limit
-- would be passed, and changes nothing then.
pub mem_sbrk_lem : (s : Memory) (incr : ℤ) → MemoryOk s → Extends s incr (mem_sbrk s incr)
unfolding mem_sbrk
mem_sbrk_lem s (negsuc n) ok = (refl, refl)
mem_sbrk_lem s (pos incr) ok = sbrk_pos s incr _ ok refl
