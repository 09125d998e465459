-- ===== src/Shell/Parse/RoundTrip.antt =====
-- A command line that is written out of its arguments is read back.
use ics.Common.{
  ℕ, zero, suc, ◌+◌, ◌<◌, ◌≡◌, refl, ap, ◌∙◌, Bool, true, false, some, List, [], ◌∷◌, ◌++◌,
  append_assoc, arith, ◌==◌, if◌then◌else◌, length, replicate, All, length-append,
}
use ics.Shell.Job.{Str}
use ics.Shell.Parse.{
  maxargs, maxline, blank, newline, quote, c_string, blank_last, skip_blanks, split_at, next_arg,
  parse_args, starts_with_amp, take_bg, finish_args, parse_string, parseline,
}
use mathlib.Core.List.{map, map-append}

-- An argument, in quotes or not, with the number of blanks behind it.
pub record Word : Type 0 where
  pub quoted : Bool
  pub text : Str
  pub gap : ℕ

abbrev pub Without : ℕ → Str → Type 0
Without d cs = All (λ (c : ℕ). (c == d) ≡ false) cs

-- A text that `parseline` takes for an argument when it stands without quotes.
abbrev pub PlainText : Str → Type 0
PlainText [] = ⊥
PlainText (c ∷ cs) = ((c == quote) ≡ false) × Without blank (c ∷ cs)

abbrev pub TextOk : Bool → Str → Type 0
TextOk true text = Without quote text
TextOk false text = PlainText text

-- Blanks behind each word but the last.
abbrev pub Separated : ℕ → List Word → Type 0
Separated zero [] = Unit
Separated zero (w ∷ ws) = ⊥
Separated (suc gap) ws = Unit

abbrev pub WordsOk : List Word → Type 0
WordsOk [] = Unit
WordsOk (w ∷ ws) = TextOk w.quoted w.text × Without 0 w.text × Separated w.gap ws × WordsOk ws

abbrev pub write_text : Bool → Str → Str → Str
write_text true text rest = quote ∷ (text ++ (quote ∷ rest))
write_text false text rest = text ++ rest

-- The line of the words, with `last` as its last character.
abbrev pub write_line : ℕ → List Word → Str
write_line last [] = last ∷ []
write_line last (w ∷ ws) = write_text w.quoted w.text (replicate w.gap blank ++ write_line last ws)

abbrev pub texts : List Word → List Str
texts ws = map (λ (w : Word). w.text) ws

split_at-append :
    (d : ℕ) (cs rest : Str) → Without d cs → split_at d (cs ++ (d ∷ rest)) ≡ some (cs, rest)
unfolding split_at
split_at-append d [] rest h = ground arith
split_at-append d (c ∷ cs) rest h = rw (h.0, split_at-append d cs rest h.1)

skip_blanks-replicate : (n : ℕ) (cs : Str) → skip_blanks (replicate n blank ++ cs) ≡ skip_blanks cs
unfolding skip_blanks
skip_blanks-replicate zero cs = refl
skip_blanks-replicate (suc n) cs = skip_blanks-replicate n cs

-- One argument is split off.
next_arg-plain :
    (text rest : Str)
    → PlainText text
    → next_arg (skip_blanks (text ++ (blank ∷ rest))) ≡ some (text, rest)
unfolding next_arg skip_blanks
next_arg-plain [] rest h = absurd h
next_arg-plain (c ∷ cs) rest h = rw (h.1.0, h.0) (split_at-append blank (c ∷ cs) rest h.1)

next_arg-quoted :
    (text rest : Str)
    → Without quote text
    → next_arg (skip_blanks (quote ∷ (text ++ (quote ∷ rest)))) ≡ some (text, rest)
unfolding next_arg skip_blanks
next_arg-quoted text rest h = split_at-append quote text rest h

-- One round of the loop, once the argument is known.
parse_args_step :
    (fuel : ℕ) (buf arg rest : Str) (args : List Str)
    → next_arg (skip_blanks buf) ≡ some (arg, rest)
    → parse_args fuel rest ≡ some args
    → parse_args (suc fuel) buf ≡ some (arg ∷ args)
unfolding parse_args
parse_args_step fuel buf arg rest args e h = rw (e, parse_args) (rw h)

parse_args_end : (fuel k : ℕ) → parse_args (suc fuel) (replicate k blank ++ (blank ∷ [])) ≡ some []
unfolding parse_args next_arg
parse_args_end fuel k = rw (skip_blanks-replicate k (blank ∷ []), parse_args)

parse_args_nil : (fuel : ℕ) → parse_args (suc fuel) [] ≡ some []
unfolding parse_args next_arg
parse_args_nil fuel = refl

parse_args_word :
    (fuel k : ℕ) (quoted : Bool) (text : Str) (gap : ℕ) (ws : List Word)
    → TextOk quoted text
    → Separated gap ws
    → length ws < fuel
    → ((j : ℕ) → parse_args fuel (replicate j blank ++ write_line blank ws) ≡ some (texts ws))
    → parse_args
        (suc fuel)
        (replicate k blank ++ write_text quoted text (replicate gap blank ++ write_line blank ws))
      ≡ some (text ∷ texts ws)
parse_args_word fuel k true text gap ws ok sep lt rest =
    parse_args_step fuel _ text _ _
      (rw skip_blanks-replicate
        (next_arg-quoted text (replicate gap blank ++ write_line blank ws) ok))
      (rest gap)
parse_args_word (suc fuel) k false text zero [] ok sep lt rest =
    parse_args_step (suc fuel) _ text _ _ (rw skip_blanks-replicate (next_arg-plain text [] ok))
      (parse_args_nil fuel)
parse_args_word zero k false text zero [] ok sep lt rest = absurd (omega arith)
parse_args_word fuel k false text zero (w ∷ ws) ok sep lt rest = absurd sep
parse_args_word fuel k false text (suc gap) ws ok sep lt rest =
    parse_args_step fuel _ text _ _
      (rw skip_blanks-replicate
        (next_arg-plain text (replicate gap blank ++ write_line blank ws) ok))
      (rest gap)

-- The loop reads the words of a line, whatever the blanks in front.
parse_args-write_line :
    (fuel k : ℕ) (ws : List Word)
    → WordsOk ws
    → length ws < fuel
    → parse_args fuel (replicate k blank ++ write_line blank ws) ≡ some (texts ws)
parse_args-write_line zero k ws ok lt = absurd (omega arith)
parse_args-write_line (suc fuel) k [] ok lt = parse_args_end fuel k
parse_args-write_line (suc fuel) k (w ∷ ws) (t, n, sep, ok) lt =
    parse_args_word fuel k w.quoted w.text w.gap ws t sep (omega arith)
      λ j. parse_args-write_line fuel j ws ok (omega arith)

c_string-Without : (cs : Str) → Without 0 cs → c_string cs ≡ cs
unfolding c_string
c_string-Without [] h = refl
c_string-Without (c ∷ cs) h = rw (h.0, c_string-Without cs h.1)

Without-append : (d : ℕ) (xs ys : Str) → Without d xs → Without d ys → Without d (xs ++ ys)
Without-append d [] ys h k = k
Without-append d (x ∷ xs) ys h k = (h.0, Without-append d xs ys h.1 k)

Without-blanks : (n : ℕ) → Without 0 (replicate n blank)
Without-blanks zero = tt
Without-blanks (suc n) = (refl, Without-blanks n)

Without-write_text :
    (quoted : Bool) (text rest : Str)
    → Without 0 text
    → Without 0 rest
    → Without 0 (write_text quoted text rest)
Without-write_text true text rest h k = (refl, Without-append 0 text (quote ∷ rest) h (refl, k))
Without-write_text false text rest h k = Without-append 0 text rest h k

Without-write_line : (ws : List Word) → WordsOk ws → Without 0 (write_line newline ws)
Without-write_line [] ok = (refl, tt)
Without-write_line (w ∷ ws) (t, n, sep, ok) =
    Without-write_text w.quoted w.text _ n
      (Without-append 0 (replicate w.gap blank) _ (Without-blanks w.gap) (Without-write_line ws ok))

-- Only the last character is overwritten.
blank_last-append :
    (xs : Str) (y : ℕ) (ys : Str) → blank_last (xs ++ (y ∷ ys)) ≡ xs ++ blank_last (y ∷ ys)
unfolding blank_last
blank_last-append [] y ys = refl
blank_last-append (x ∷ []) y ys = refl
blank_last-append (x ∷ x' ∷ xs) y ys = ap (◌∷◌ x) (blank_last-append (x' ∷ xs) y ys)

-- The line without its last character.
abbrev body : List Word → Str
body [] = []
body (w ∷ ws) = write_text w.quoted w.text (replicate w.gap blank ++ body ws)

write_text-append :
    (quoted : Bool) (text xs ys : Str)
    → write_text quoted text (xs ++ ys) ≡ write_text quoted text xs ++ ys
write_text-append true text xs ys = simp append_assoc
write_text-append false text xs ys = simp append_assoc

write_line-body : (last : ℕ) (ws : List Word) → write_line last ws ≡ body ws ++ (last ∷ [])
write_line-body last [] = refl
write_line-body last (w ∷ ws) =
    rw (write_line-body last ws, ← append_assoc) (write_text-append w.quoted w.text _ _)

blank_last-write_line :
    (k : ℕ) (ws : List Word)
    → blank_last (replicate k blank ++ write_line newline ws)
      ≡ replicate k blank ++ write_line blank ws
unfolding blank_last
blank_last-write_line k ws =
    rw (write_line-body newline ws, write_line-body blank ws, ← append_assoc, ← append_assoc)
      (blank_last-append (replicate k blank ++ body ws) newline [])

length-write_text :
    (quoted : Bool) (text rest : Str)
    → TextOk quoted text
    → length rest < length (write_text quoted text rest)
length-write_text true text rest ok = omega (arith, length-append text (quote ∷ rest))
length-write_text false [] rest ok = absurd ok
length-write_text false (c ∷ cs) rest ok = omega (arith, length-append cs rest)

length-write_line :
    (last : ℕ) (ws : List Word) → WordsOk ws → length ws < length (write_line last ws)
length-write_line last [] ok = omega arith
length-write_line last (w ∷ ws) (t, n, sep, ok) = omega (
  arith,
  length-write_text w.quoted w.text (replicate w.gap blank ++ write_line last ws) t,
  length-append (replicate w.gap blank) (write_line last ws),
  length-write_line last ws ok,
)

parse_string_lem :
    (cs : Str)
    → 0 < length cs
    → length cs < maxline
    → parse_string cs ≡ finish_args (parse_args (length cs + 1) (blank_last cs))
unfolding parse_string
parse_string_lem [] h short = absurd (omega arith)
parse_string_lem (c ∷ cs) h short = ground arith

-- The last argument decides between background and foreground.
take_bg-append :
    (args : List Str) (a : Str)
    → take_bg (args ++ (a ∷ []))
      ≡ (if starts_with_amp a then (true, args) else (false, args ++ (a ∷ [])))
unfolding take_bg
take_bg-append [] a = refl
take_bg-append (x ∷ []) a = ground arith
take_bg-append (x ∷ y ∷ args) a = ground (arith, take_bg-append (y ∷ args) a)

length-texts : (ws : List Word) → length (texts ws) ≡ length ws
length-texts [] = refl
length-texts (w ∷ ws) = ap suc (length-texts ws)

parseline_words :
    (k : ℕ) (ws : List Word)
    → WordsOk ws
    → length ws < maxargs
    → length (replicate k blank ++ write_line newline ws) < maxline
    → parseline (replicate k blank ++ write_line newline ws) ≡ some (take_bg (texts ws))
unfolding parseline finish_args
parseline_words k ws ok few short =
    let line = replicate k blank ++ write_line newline ws in
    let long : length ws < length line = omega (
      arith,
      length-append (replicate k blank) (write_line newline ws),
      length-write_line newline ws ok,
    ) in
    rw
      (
        c_string-Without line (Without-append 0 _ _ (Without-blanks k) (Without-write_line ws ok)),
        parse_string_lem line (omega arith) short,
        blank_last-write_line k ws,
        parse_args-write_line (length line + 1) k ws ok (omega arith),
      )
      (ground (arith, length-texts ws))

-- `parseline` reads back a line of fewer than `maxline` characters that is written out of fewer than
-- `maxargs` arguments, in quotes or not, with any blanks between and in front of them: it returns the
-- arguments in order, and if the last begins with `&` it drops that one and asks for a background job.
pub parseline-write_line :
    (k : ℕ) (ws : List Word) (w : Word)
    → WordsOk (ws ++ (w ∷ []))
    → length ws + 1 < maxargs
    → length (replicate k blank ++ write_line newline (ws ++ (w ∷ []))) < maxline
    → parseline (replicate k blank ++ write_line newline (ws ++ (w ∷ [])))
      ≡ some
          (if starts_with_amp w.text then (true, texts ws) else (false, texts ws ++ (w.text ∷ [])))
parseline-write_line k ws w ok few short =
    parseline_words k (ws ++ (w ∷ [])) ok (omega (arith, length-append ws (w ∷ []))) short
    ∙ ap some
        (rw (map-append (λ (w : Word). w.text) ws (w ∷ [])) (take_bg-append (texts ws) w.text))
