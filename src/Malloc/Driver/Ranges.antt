-- ===== src/Malloc/Driver/Ranges.antt =====
-- What the list of ranges in malloclab/mdriver.c says of the payloads that it accepted.
use ics.Common.{
  ℕ, ◌+◌, ◌-◌, ◌%◌, ◌≤◌, ◌<◌, ◌≡◌, refl, ◌⊎◌, inl, inr, true, false, ◌||◌, List, [], ◌∷◌, arith,
  ltb, ◌==◌, ==_iff, Bool-cases, All,
}
use ics.Malloc.Driver.{
  alignment, overlaps, overlaps_any, add_range, Range, Added, added, bad_range, assertion_failed,
}

abbrev pub Disjoint : Range → Range → Type 0
Disjoint r p = (r.high < p.low) ⊎ (p.high < r.low)

abbrev pub Surrounds : Range → Range → Type 0
Surrounds r p = (r.low < p.low) × (p.high < r.high)

abbrev pub Proper : Range → Type 0
Proper p = (p.low % alignment ≡ 0) × (p.low ≤ p.high)

-- Each range is aligned and not empty, and is disjoint from those that were there before it, or
-- surrounds them.
abbrev pub Separate : List Range → Type 0
Separate [] = Unit
Separate (r ∷ ps) = Proper r × All (λ p. Disjoint r p ⊎ Surrounds r p) ps × Separate ps

-- The range of `size` bytes from `low` on.
abbrev pub range_of : ℕ → ℕ → Range
range_of low size = record { low = low; high = low + size - 1 }

-- What `add_range` promises of each outcome.
abbrev pub AddOutcome : ℕ → ℕ → List Range → Range → Added → Type 0
AddOutcome heap_low heap_high ranges r (added rs) =
    (rs ≡ r ∷ ranges)
    × (r.low % alignment ≡ 0)
    × (heap_low ≤ r.low)
    × (r.high ≤ heap_high)
    × All (λ p. Disjoint r p ⊎ Surrounds r p) ranges
AddOutcome heap_low heap_high ranges r bad_range = ¬ (
    (r.low % alignment ≡ 0) × (heap_low ≤ r.low) × (r.high ≤ heap_high) × All (Disjoint r) ranges)
AddOutcome heap_low heap_high ranges r assertion_failed = ⊥

one_apart :
    (low high : ℕ) (p : Range)
    → overlaps low high p ≡ false
    → Disjoint (record { low = low; high = high }) p
      ⊎ Surrounds (record { low = low; high = high }) p
one_apart low high p e = ground arith

each_apart :
    (low high : ℕ) (ps : List Range)
    → overlaps_any low high ps ≡ false
    → All
        (λ p.
          Disjoint (record { low = low; high = high }) p
          ⊎ Surrounds (record { low = low; high = high }) p)
        ps
unfolding overlaps_any
each_apart low high [] e = tt
each_apart low high (p ∷ ps) e =
    let here : overlaps low high p ≡ false = ground arith in
    (one_apart low high p here, each_apart low high ps (ground arith))

some_overlap :
    (low high : ℕ) (ps : List Range)
    → low ≤ high
    → overlaps_any low high ps ≡ true
    → ¬ (All (Disjoint (record { low = low; high = high })) ps)
unfolding overlaps_any
some_overlap low high [] le e d = cc
some_overlap low high (p ∷ ps) le e (d, ds) = elim (Bool-cases (overlaps low high p)) [
  | inl t ↦ ground arith
  | inr t ↦ some_overlap low high ps le (ground arith) ds
]

none_found :
    (low high : ℕ) (ps : List Range)
    → All (Surrounds (record { low = low; high = high })) ps
    → overlaps_any low high ps ≡ false
unfolding overlaps_any
none_found low high [] s = refl
none_found low high (p ∷ ps) (h, s) =
    let here : overlaps low high p ≡ false = ground arith in
    rw (here, none_found low high ps s) refl

module _ (heap_low heap_high : ℕ) (ranges : List Range) (low size : ℕ) (some' : 0 < size) where
  abbrev r : Range
  r = range_of low size

  -- For a payload of at least one byte, `add_range` of mdriver.c accepts or refuses. If it accepts, the
  -- range is put in front of the list, it is aligned and within the heap, and it is disjoint from each
  -- range of the list or strictly surrounds it. If it refuses, the range is not aligned, not within the
  -- heap, or not disjoint from a range of the list.
  pub add_range-AddOutcome :
      AddOutcome heap_low heap_high ranges r (add_range heap_low heap_high ranges low size)
  unfolding add_range
  add_range-AddOutcome =
      let z : (size == 0) ≡ false = ground arith in
      rw z (elim (Bool-cases (low % alignment == 0)) [
        | inr t ↦ rw t (λ (a, b, c, d). ground arith)
        | inl t ↦
            let aligned : low % alignment ≡ 0 = (==_iff (low % alignment) 0).0 t in
            rw t
              (elim (Bool-cases (
                ltb low heap_low
                || ltb heap_high low
                || ltb (low + size - 1) heap_low
                || ltb heap_high (low + size - 1))) [
                  | inl o ↦ rw o (λ (a, b, c, d). ground arith)
                  | inr o ↦ rw o (elim (Bool-cases (overlaps_any low (low + size - 1) ranges)) [
                    | inl v ↦
                        rw v (λ (a, b, c, d).
                          some_overlap low (low + size - 1) ranges (omega arith) v d)
                    | inr v ↦ rw v (
                      refl,
                      aligned,
                      ground arith,
                      ground arith,
                      each_apart low (low + size - 1) ranges v,
                    )
                  ])
                ])
      ])

  -- A payload of at least one byte that is aligned and within the heap, and that strictly surrounds every
  -- range of the list, so that it overlaps all of them, is accepted.
  pub add_range_surrounding :
      low % alignment ≡ 0
      → heap_low ≤ low
      → low + size - 1 ≤ heap_high
      → All (Surrounds r) ranges
      → add_range heap_low heap_high ranges low size ≡ added (r ∷ ranges)
  unfolding add_range
  add_range_surrounding a b c s =
      let z : (size == 0) ≡ false = ground arith in
      let t : (low % alignment == 0) ≡ true = (==_iff (low % alignment) 0).1 a in
      let o : ltb low heap_low
            || ltb heap_high low
            || ltb (low + size - 1) heap_low
            || ltb heap_high (low + size - 1)
          ≡ false =
        ground arith in
      rw (z, t, o, none_found low (low + size - 1) ranges s) refl
