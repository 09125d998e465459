-- ===== src/Fs/Dir/Find.antt =====
-- What `entries_find` finds, and the entries after one is dropped.
use mathlib.Core.Path.{subst}
use native.Mathlib.Decide.{ℕ_discrete}
use ics.Common.{
  ℕ, zero, suc, ◌+◌, ◌*◌, ◌≤◌, ◌<◌, ◌≡◌, refl, ap, ◌∙◌, inl, inr, Bool, true, false, Option, none,
  some, arith, ltb, ◌==◌, if◌then◌else◌, ==_iff, Bool-cases, length,
}
use ics.Bytes.{Buffer, copy}
use ics.Fs.Dir.{
  Name, entry_name_length, entry_size, normalized, same_bytes, find_loop, to_lookup, too_long,
  entries_find, drop_entry, Lookup, overrun, absent, hit,
}

-- The name of entry `k`, all 24 bytes of it, is `name` filled up with zeros.
abbrev pub Named : Buffer → ℕ → Name → Type 0
Named entries k name =
    (j : ℕ) → j < entry_name_length → entries (k * entry_size + j) ≡ normalized name j

same_bytes-true :
    (n : ℕ) (b : Buffer) (off : ℕ) (name : Buffer) (at : ℕ)
    → same_bytes n b off name at ≡ true
    → (j : ℕ) → j < n
    → b (off + j) ≡ name (at + j)
unfolding same_bytes
same_bytes-true zero b off name at h j lt = absurd (omega arith)
same_bytes-true (suc n) b off name at h zero lt = (==_iff _ _).0 (ground (arith, h))
same_bytes-true (suc n) b off name at h (suc j) lt =
    let rest : same_bytes n b (off + 1) name (at + 1) ≡ true = ground (arith, h) in
    let e : off + 1 + j ≡ off + suc j = omega arith in
    let e' : at + 1 + j ≡ at + suc j = omega arith in
    rw (← e, ← e') (same_bytes-true n b (off + 1) name (at + 1) rest j (omega arith))

same_bytes_of :
    (n : ℕ) (b : Buffer) (off : ℕ) (name : Buffer) (at : ℕ)
    → ((j : ℕ) → j < n → b (off + j) ≡ name (at + j))
    → same_bytes n b off name at ≡ true
unfolding same_bytes
same_bytes_of zero b off name at h = refl
same_bytes_of (suc n) b off name at h =
    let head : (b off == name at) ≡ true =
      let e : off + 0 ≡ off = omega arith in
      let e' : at + 0 ≡ at = omega arith in (==_iff _ _).1 (rw (← e, ← e') (h 0 (omega arith))) in
    rw head (
      same_bytes_of n b (off + 1) name (at + 1) (λ j lt.
        let e : off + 1 + j ≡ off + suc j = omega arith in
        let e' : at + 1 + j ≡ at + suc j = omega arith in rw (e, e') (h (suc j) (omega arith))))

abbrev found_at : Buffer → Name → ℕ → Bool
found_at entries name k = same_bytes entry_name_length entries (k * entry_size) (normalized name) 0

-- `r` is the first of the `n` entries from `i` on with the name, `none` if there is none.
abbrev pub FirstNamed : Buffer → Name → ℕ → ℕ → Option ℕ → Type 0
FirstNamed entries name n i none = (k : ℕ) → i ≤ k → k < i + n → ¬ Named entries k name
FirstNamed entries name n i (some f) =
    (i ≤ f)
    × (f < i + n)
    × Named entries f name
    × ((k : ℕ) → i ≤ k → k < f → ¬ Named entries k name)

not-Named :
    (entries : Buffer) (name : Name) (k : ℕ)
    → found_at entries name k ≡ false
    → ¬ Named entries k name
not-Named entries name k h named = cc (
  h,
  same_bytes_of entry_name_length entries (k * entry_size) (normalized name) 0
      (λ j lt. let e : 0 + j ≡ j = omega arith in rw e (named j lt)),
)

later :
    (entries : Buffer) (name : Name) (n i : ℕ) (r : Option ℕ)
    → found_at entries name i ≡ false
    → FirstNamed entries name n (i + 1) r
    → FirstNamed entries name (suc n) i r
later entries name n i none u f = λ k p q. elim (ℕ_discrete i k) [
  | yes e ↦ subst (λ (m : ℕ). ¬ Named entries m name) e (not-Named entries name i u)
  | no ne ↦ f k (omega arith) (omega arith)
]
later entries name n i (some x) u (lo, hi, named, before) = (
  omega arith,
  omega arith,
  named,
  λ k p q. elim (ℕ_discrete i k) [
    | yes e ↦ subst (λ (m : ℕ). ¬ Named entries m name) e (not-Named entries name i u)
    | no ne ↦ before k (omega arith) (omega arith)
  ],
)

find_loop-FirstNamed :
    (n : ℕ) (entries : Buffer) (name : Name) (i : ℕ)
    → FirstNamed entries name n i (find_loop n entries (normalized name) i)
unfolding find_loop
find_loop-FirstNamed zero entries name i = λ k p q. absurd (omega arith)
find_loop-FirstNamed (suc n) entries name i = elim (Bool-cases (found_at entries name i)) [
  | inl e ↦ rw e (
    omega arith,
    omega arith,
    λ j lt.
        let q : 0 + j ≡ j = omega arith in
        same_bytes-true entry_name_length entries (i * entry_size) (normalized name) 0 e j lt
        ∙ ap (λ m. normalized name m) q,
    λ k p q. absurd (omega arith),
  )
  | inr e ↦ rw e (later entries name n i _ e (find_loop-FirstNamed n entries name (i + 1)))
]

-- What `entries_find` answers for a name: it overruns its array with a name of more than 24 bytes, and
-- otherwise finds the first entry that has the name, or no entry has it.
abbrev pub Answers : Buffer → ℕ → Name → Lookup → Type 0
Answers entries count name overrun = entry_name_length < length name
Answers entries count name absent =
    (length name ≤ entry_name_length) × ((k : ℕ) → k < count → ¬ Named entries k name)
Answers entries count name (hit i) =
    (length name ≤ entry_name_length)
    × (i < count)
    × Named entries i name
    × ((k : ℕ) → k < i → ¬ Named entries k name)

to_lookup-Answers :
    (entries : Buffer) (count : ℕ) (name : Name) (r : Option ℕ)
    → length name ≤ entry_name_length
    → FirstNamed entries name count 0 r
    → Answers entries count name (to_lookup r)
to_lookup-Answers entries count name none short f = (short, λ k lt. f k (omega arith) (omega arith))
to_lookup-Answers entries count name (some i) short (lo, hi, named, before) =
    (short, omega arith, named, λ k lt. before k (omega arith) lt)

-- For a name of at most 24 bytes `entries_find` returns the first of the `count` entries whose 24 bytes
-- are the name filled up with zeros, and none exactly where no entry has it; with a longer name, and
-- only then, it writes behind its local array.
pub entries_find-FirstNamed :
    (entries : Buffer) (count : ℕ) (name : Name)
    → Answers entries count name (entries_find entries count name)
unfolding entries_find
entries_find-FirstNamed entries count name = elim (Bool-cases (too_long name)) [
  | inl long ↦ rw long (ground arith)
  | inr short ↦ rw short (
      to_lookup-Answers entries count name _ (ground arith)
        (find_loop-FirstNamed count entries name 0))
]

-- Dropping entry `i` of `count` keeps the bytes of the entries before it, and moves the bytes of
-- every entry behind it down by one place.
pub drop_entry_lem :
    (entries : Buffer) (i count k j : ℕ)
    → i < count
    → k + 1 < count
    → j < entry_size
    → drop_entry entries i count (k * entry_size + j)
      ≡ entries ((if ltb k i then k else k + 1) * entry_size + j)
unfolding copy
drop_entry_lem entries i count k j hi hk hj = ground arith
