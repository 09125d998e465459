-- ===== src/Fs/Alloc/Search.antt =====
-- What the searches for free numbers return.
use mathlib.Core.Path.{subst}
use native.Mathlib.Decide.{ℕ_discrete}
use ics.Common.{
  ℕ, zero, suc, ◌+◌, ◌-◌, ◌≤◌, ◌<◌, min, ◌≡◌, inl, inr, Bool, true, false, Option, none, some, List,
  [], ◌∷◌, arith, leb, if◌then◌else◌, Bool-cases, length,
}
use ics.Fs.Alloc.{first_free, take_free, seek_free}

-- `r` is the first free number of the `n` from `i` on, and `none` if all are used.
abbrev pub FirstFree : (ℕ → Bool) → ℕ → ℕ → Option ℕ → Type 0
FirstFree used n i none = (k : ℕ) → i ≤ k → k < i + n → used k ≡ true
FirstFree used n i (some f) =
    (i ≤ f) × (f < i + n) × (used f ≡ false) × ((k : ℕ) → i ≤ k → k < f → used k ≡ true)

later :
    (used : ℕ → Bool) (n i : ℕ) (r : Option ℕ)
    → used i ≡ true
    → FirstFree used n (i + 1) r
    → FirstFree used (suc n) i r
later used n i none u f = λ k p q. elim (ℕ_discrete i k) [
  | yes e ↦ subst (λ (m : ℕ). used m ≡ true) e u
  | no ne ↦ f k (omega arith) (omega arith)
]
later used n i (some x) u (lo, hi, free, before) = (
  omega arith,
  omega arith,
  free,
  λ k p q. elim (ℕ_discrete i k) [
    | yes e ↦ subst (λ (m : ℕ). used m ≡ true) e u
    | no ne ↦ before k (omega arith) (omega arith)
  ],
)

pub first_free-FirstFree : (used : ℕ → Bool) (n i : ℕ) → FirstFree used n i (first_free used n i)
unfolding first_free
first_free-FirstFree used zero i = λ k p q. absurd (omega arith)
first_free-FirstFree used (suc n) i = elim (Bool-cases (used i)) [
  | inl e ↦
      rw e (later used n i (first_free used n (i + 1)) e (first_free-FirstFree used n (i + 1)))
  | inr e ↦ rw e (omega arith, omega arith, e, λ k p q. absurd (omega arith))
]

-- Every number of the list is free and lies in the range, and none is listed twice.
abbrev pub FreeIds : (ℕ → Bool) → ℕ → ℕ → List ℕ → Type 0
FreeIds used lo hi [] = Unit
FreeIds used lo hi (x ∷ xs) = (lo ≤ x) × (x < hi) × (used x ≡ false) × FreeIds used (x + 1) hi xs

FreeIds-mono :
    (used : ℕ → Bool) (lo lo' hi : ℕ) (xs : List ℕ)
    → lo ≤ lo'
    → FreeIds used lo' hi xs
    → FreeIds used lo hi xs
FreeIds-mono used lo lo' hi [] h f = tt
FreeIds-mono used lo lo' hi (x ∷ xs) h (p, q, u, rest) = (omega arith, q, u, rest)

pub take_free-FreeIds :
    (used : ℕ → Bool) (want n i : ℕ) → FreeIds used i (i + n) (take_free used want n i)
unfolding take_free
take_free-FreeIds used zero n i = tt
take_free-FreeIds used (suc want) zero i = tt
take_free-FreeIds used (suc want) (suc n) i =
    let e : i + suc n ≡ i + 1 + n = omega arith in
    elim (Bool-cases (used i)) [
      | inl u ↦
          rw (u, e)
            (FreeIds-mono used i (i + 1) (i + 1 + n) _ (omega arith)
              (take_free-FreeIds used (suc want) n (i + 1)))
      | inr u ↦ rw (u, e) (omega arith, omega arith, u, take_free-FreeIds used want n (i + 1))
    ]

pub length-take_free : (used : ℕ → Bool) (want n i : ℕ) → length (take_free used want n i) ≤ want
unfolding take_free
length-take_free used zero n i = omega arith
length-take_free used (suc want) zero i = omega arith
length-take_free used (suc want) (suc n) i =
    ground (arith, length-take_free used (suc want) n (i + 1), length-take_free used want n (i + 1))

-- How many of the `n` numbers from `i` on are free.
unfoldable pub count_free : (ℕ → Bool) → ℕ → ℕ → ℕ
count_free used zero i = 0
count_free used (suc n) i = (if used i then 0 else 1) + count_free used n (i + 1)

-- The search takes as many as are wanted, or all that are free.
pub length-take_free-eq-min :
    (used : ℕ → Bool) (want n i : ℕ)
    → length (take_free used want n i) ≡ min want (count_free used n i)
unfolding take_free count_free
length-take_free-eq-min used zero n i = omega arith
length-take_free-eq-min used (suc want) zero i = omega arith
length-take_free-eq-min used (suc want) (suc n) i = elim (Bool-cases (used i)) [
  | inl u ↦ rw u (omega (arith, length-take_free-eq-min used (suc want) n (i + 1)))
  | inr u ↦ rw u (omega (arith, length-take_free-eq-min used want n (i + 1)))
]

-- The seek succeeds exactly where the search finds as many as are wanted.
pub seek_free-take_free :
    (used : ℕ → Bool) (want n i : ℕ)
    → seek_free used (suc want) n i ≡ leb (suc want) (length (take_free used (suc want) n i))
unfolding seek_free take_free
seek_free-take_free used want zero i = ground arith
seek_free-take_free used zero (suc n) i = ground (arith, seek_free-take_free used zero n (i + 1))
seek_free-take_free used (suc want) (suc n) i =
    let e : suc (suc want) - 1 ≡ suc want = omega arith in
    elim (Bool-cases (used i)) [
      | inl u ↦ rw u (seek_free-take_free used (suc want) n (i + 1))
      | inr u ↦ rw (u, e) (ground (arith, seek_free-take_free used want n (i + 1)))
    ]
