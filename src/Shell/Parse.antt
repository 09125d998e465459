-- ===== src/Shell/Parse.antt =====
-- `parseline` of shlab/tsh.c. A pointer into the local copy of the line is the rest of the line
-- from there on; the NUL that ends an argument is where its list ends.
pub mod Total
pub mod RoundTrip
use ics.Common.{
  ℕ, zero, suc, ◌+◌, Bool, true, false, Option, none, some, List, [], ◌∷◌, ltb, ◌==◌, if◌then◌else◌,
  length,
}
use ics.Shell.Job.{Str}
use mathlib.Core.Option

abbrev pub maxargs : ℕ
maxargs = 128

abbrev pub maxline : ℕ
maxline = 1024

abbrev pub blank : ℕ
blank = b' '

abbrev pub newline : ℕ
newline = 0x0a

abbrev pub quote : ℕ
quote = 0x27

-- The string that a buffer holds: what stands before its first NUL.
unfoldable pub c_string : Str → Str
c_string [] = []
c_string (c ∷ cs) = if c == 0 then [] else c ∷ c_string cs

-- `buf[strlen(buf) - 1] = ' '`
unfoldable pub blank_last : Str → Str
blank_last [] = []
blank_last (c ∷ []) = blank ∷ []
blank_last (c ∷ d ∷ cs) = c ∷ blank_last (d ∷ cs)

unfoldable pub skip_blanks : Str → Str
skip_blanks [] = []
skip_blanks (c ∷ cs) = if c == blank then skip_blanks cs else c ∷ cs

abbrev pub cons_first : ℕ → Str × Str → Str × Str
cons_first c (before, after) = (c ∷ before, after)

-- `strchr`, with what stands before the delimiter and behind it.
unfoldable pub split_at : ℕ → Str → Option (Str × Str)
split_at d [] = none
split_at d (c ∷ cs) = if c == d then some ([], cs) else Option.map (cons_first c) (split_at d cs)

-- From the first character of an argument on: where its delimiter stands.
unfoldable pub next_arg : Str → Option (Str × Str)
unfolding split_at
next_arg [] = none
next_arg (c ∷ cs) = if c == quote then split_at quote cs else split_at blank (c ∷ cs)

-- The loop that builds `argv`; `none` means that the fuel ran out.
unfoldable pub parse_args : ℕ → Str → Option (List Str)
unfolding next_arg skip_blanks
parse_args zero buf = none
parse_args (suc fuel) buf = elim (next_arg (skip_blanks buf)) [
  | none ↦ some []
  | some (arg, rest) ↦ Option.map (λ args. arg ∷ args) (parse_args fuel rest)
]

abbrev pub starts_with_amp : Str → Bool
starts_with_amp [] = false
starts_with_amp (c ∷ cs) = c == b'&'

-- `argv[argc - 1]` tested for `&`, and dropped if it begins with one.
unfoldable pub take_bg : List Str → Bool × List Str
take_bg [] = (true, [])
take_bg (a ∷ []) = if starts_with_amp a then (true, []) else (false, a ∷ [])
take_bg (a ∷ b ∷ args) = let (bg, rest) = take_bg (b ∷ args) in (bg, a ∷ rest)

-- `argv[argc] = NULL` with `maxargs` arguments is a write outside `argv`.
unfoldable pub finish_args : Option (List Str) → Option (Bool × List Str)
unfolding take_bg
finish_args none = none
finish_args (some args) = if ltb (length args) maxargs then some (take_bg args) else none

-- `none` is a write outside an array: before `array`, on an empty string; behind it, by `strcpy` of a
-- string that leaves no room for its NUL; or outside `argv`.
unfoldable pub parse_string : Str → Option (Bool × List Str)
unfolding parse_args finish_args blank_last
parse_string [] = none
parse_string (c ∷ cs) =
    if ltb (length (c ∷ cs)) maxline
    then finish_args (parse_args (length (c ∷ cs) + 1) (blank_last (c ∷ cs)))
    else none

unfoldable pub parseline : Str → Option (Bool × List Str)
unfolding parse_string c_string
parseline cmdline = parse_string (c_string cmdline)
