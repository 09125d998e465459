-- ===== src/Shell/Parse/Total.antt =====
-- The argument loop ends: every round consumes a character.
use ics.Common.{
  ℕ, zero, suc, ◌+◌, ◌≤◌, ◌<◌, ◌≡◌, refl, ap, inl, inr, Option, none, some, List, [], ◌∷◌, arith,
  ◌&&◌, ltb, ◌==◌, if◌then◌else◌, Bool-cases, length,
}
use ics.Shell.Job.{Str}
use ics.Shell.Parse.{
  maxargs, maxline, blank, quote, blank_last, skip_blanks, cons_first, split_at, next_arg,
  parse_args, take_bg, parse_string,
}
use mathlib.Core.Option

-- What is left behind a delimiter is shorter than `cs`.
abbrev Shorter : Str → Option (Str × Str) → Type 0
Shorter cs none = Unit
Shorter cs (some (before, after)) = length after < length cs

Shorter-map :
    (c : ℕ) (cs : Str) (r : Option (Str × Str))
    → Shorter cs r
    → Shorter (c ∷ cs) (Option.map (cons_first c) r)
Shorter-map c cs none h = tt
Shorter-map c cs (some (b, a)) h = omega arith

split_at-Shorter : (d : ℕ) (cs : Str) → Shorter cs (split_at d cs)
unfolding split_at
split_at-Shorter d [] = tt
split_at-Shorter d (c ∷ cs) = elim (Bool-cases (c == d)) [
  | inl e ↦ rw e (omega arith)
  | inr e ↦ rw e (Shorter-map c cs (split_at d cs) (split_at-Shorter d cs))
]

Shorter-mono : (c : ℕ) (cs : Str) (r : Option (Str × Str)) → Shorter cs r → Shorter (c ∷ cs) r
Shorter-mono c cs none h = tt
Shorter-mono c cs (some (b, a)) h = omega arith

next_arg-Shorter : (cs : Str) → Shorter cs (next_arg cs)
unfolding next_arg
next_arg-Shorter [] = tt
next_arg-Shorter (c ∷ cs) = elim (Bool-cases (c == quote)) [
  | inl e ↦ rw e (Shorter-mono c cs (split_at quote cs) (split_at-Shorter quote cs))
  | inr e ↦ rw e (split_at-Shorter blank (c ∷ cs))
]

length-skip_blanks : (cs : Str) → length (skip_blanks cs) ≤ length cs
unfolding skip_blanks
length-skip_blanks [] = omega arith
length-skip_blanks (c ∷ cs) = ground (arith, length-skip_blanks cs)

parse_args_round :
    (fuel : ℕ) (buf : Str) (r : Option (Str × Str))
    → Shorter (skip_blanks buf) r
    → ((rest : Str)
        → length rest < length buf
        → (args : List Str) × (parse_args fuel rest ≡ some args))
    → (args : List Str) × (elim r [
      | none ↦ some []
      | some (arg, rest) ↦ Option.map (λ args. arg ∷ args) (parse_args fuel rest)
    ]
        ≡ some args)
parse_args_round fuel buf none h rec = ([], refl)
parse_args_round fuel buf (some (arg, rest)) h rec =
    let (args, e) = rec rest (omega (arith, length-skip_blanks buf)) in (arg ∷ args, rw e)

-- With more fuel than characters the argument loop ends by its own test.
pub parse_args_total :
    (fuel : ℕ) (buf : Str)
    → length buf < fuel
    → (args : List Str) × (parse_args fuel buf ≡ some args)
unfolding parse_args
parse_args_total zero buf h = absurd (omega arith)
parse_args_total (suc fuel) buf h =
    parse_args_round fuel buf (next_arg (skip_blanks buf)) (next_arg-Shorter (skip_blanks buf))
      λ rest lt. parse_args_total fuel rest (omega arith)

length-blank_last : (cs : Str) → length (blank_last cs) ≡ length cs
unfolding blank_last
length-blank_last [] = refl
length-blank_last (c ∷ []) = refl
length-blank_last (c ∷ d ∷ cs) = ap suc (length-blank_last (d ∷ cs))

-- The fuel that `parseline` gives its loop suffices: on a string that is not empty the arguments
-- are those of the loop, and `parseline` fails exactly where `array` has no room for the string or
-- `argv` none for the arguments.
pub parse_string_total :
    (c : ℕ) (cs : Str)
    → (args : List Str) × (parse_args (length (c ∷ cs) + 1) (blank_last (c ∷ cs)) ≡ some args)
      × (parse_string (c ∷ cs) ≡ (
          if ltb (length (c ∷ cs)) maxline && ltb (length args) maxargs
          then some (take_bg args)
          else none))
unfolding parse_string
parse_string_total c cs =
    let (args, e) =
      parse_args_total (length (c ∷ cs) + 1) (blank_last (c ∷ cs))
        (omega (arith, length-blank_last (c ∷ cs))) in
    (args, e, rw e (ground arith))
