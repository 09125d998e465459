-- ===== src/Shell/Tests.antt =====
-- Runs of the shell on concrete input, and the theorems at concrete shells.
use ics.Common.{
  ℕ, zero, suc, ◌+◌, ◌-◌, ◌*◌, ◌≤◌, ◌<◌, ◌≡◌, refl, ◌↔◌, true, false, ◌&&◌, Option, none, some,
  List, [], ◌∷◌, ◌++◌, arith, ltb, if◌then◌else◌, length, replicate, All, All-replicate, ℤ, pos,
}
use ics.Shell.Job.{Str, cleared, fgpid, jid_of, Job, fg, bg}
use ics.Shell.Job.Count.{count, fg_count}
use ics.Shell.Job.Slots.{cleared-SlotOk, in_use-SlotOk, SlotOk}
use ics.Shell.State.{emit, addjob, deletejob, Shell, prompt, sigint, print, kill_group, spawn}
use ics.Shell.State.Jids.{DistinctJids, JidsBelow, AddedJid, addjob-DistinctJids, addjob_reuses_jid}
use ics.Shell.Parse.{
  maxargs, maxline, blank, newline, blank_last, parse_args, take_bg, parse_string, parseline,
}
use ics.Shell.Parse.Total.{parse_string_total}
use ics.Shell.Parse.RoundTrip.{PlainText, WordsOk, write_line, parseline-write_line, Word}
use ics.Shell.Command.{running}
use ics.Shell.Loop.{start_shell, step, exit_code, from_keyboard, children, stdin_ready}
use ics.Shell.Loop.Signals.{keyboard-fg}
use ics.Shell.Loop.Waits.{Watches, end-Watches}
use ics.Shell.Loop.Invariant.{Ensures}
use ics.Shell.Loop.Invariant.Steps.{step-Inv, Reach-one_fg, Inv, Reach, here, next}

-- A scanner for `%d` on texts that are digits alone.
abbrev scan_digits : ℕ → Str → ℕ
scan_digits acc [] = acc
scan_digits acc (c ∷ cs) = scan_digits (10 * acc + (c - b'0')) cs

abbrev scan : Str → Option ℤ
scan [] = none
scan (c ∷ cs) = if ltb c b'0' then none else some (pos (scan_digits 0 (c ∷ cs)))

-- "ab 'c d' &"
abbrev words : List Word
words =
    (record { quoted = false; text = b'a' ∷ b'b' ∷ []; gap = 1 })
    ∷ (record { quoted = true; text = b'c' ∷ blank ∷ b'd' ∷ []; gap = 2 })
    ∷ []

abbrev amp : Word
amp = record { quoted = false; text = b'&' ∷ []; gap = 0 }

abbrev args : List Str
args = (b'a' ∷ b'b' ∷ []) ∷ (b'c' ∷ blank ∷ b'd' ∷ []) ∷ []

parseline-write_line_example :
    parseline (blank ∷ write_line newline (words ++ (amp ∷ []))) ≡ some (true, args)
parseline-write_line_example =
    parseline-write_line 1 words amp
      (
        plain_ok,
        (refl, (refl, tt)),
        tt,
        ((refl, (refl, (refl, tt))), (refl, (refl, (refl, tt))), tt, amp_ok),
      )
      (omega arith) (omega arith)
  where
    plain_ok : PlainText (b'a' ∷ b'b' ∷ [])
    plain_ok = (refl, (refl, (refl, tt)))

    amp_ok : WordsOk (amp ∷ [])
    amp_ok = ((refl, (refl, tt)), (refl, tt), tt, tt)

-- "ab\n" starts process 100 in the foreground.
abbrev command : Str
command = b'a' ∷ b'b' ∷ newline ∷ []

abbrev running_ab : Job
running_ab = record { pid = 100; jid = 1; state = fg; cmdline = command }

abbrev start : Shell
start = start_shell false true

abbrev busy : Shell
busy = record start {
  jobs = running_ab ∷ replicate 15 cleared;
  nextjid = 2;
  read_input = false;
  log = print prompt ∷ spawn ((b'a' ∷ b'b' ∷ []) ∷ []) ∷ [];
}

start_steps : step scan start (stdin_ready command (some 100)) ≡ running busy
unfolding step
start_steps = refl

busy-Reach : Reach scan false true busy
busy-Reach = next (stdin_ready command (some 100)) here (refl, omega arith) start_steps

Reach-one_fg_example :
    (fg_count busy.jobs ≤ 1)
    × ((busy.read_input ≡ true) ↔ (fgpid busy.jobs ≡ 0))
    × ((fgpid busy.jobs ≡ 0) ↔ (fg_count busy.jobs ≡ 0))
Reach-one_fg_example = Reach-one_fg scan busy-Reach

keyboard-fg_example :
    step scan busy (from_keyboard sigint) ≡ running (emit (kill_group 100 sigint) busy)
keyboard-fg_example = keyboard-fg scan false true busy sigint 0 running_ab busy-Reach refl refl

busy-slots : All SlotOk busy.jobs
busy-slots = (
  in_use-SlotOk running_ab (omega arith) (omega arith) (λ e. cc),
  All-replicate SlotOk 15 cleared cleared-SlotOk,
)

busy-Inv : Inv busy
unfolding count
busy-Inv = record {
  table = record { size = refl; slots = busy-slots; few = omega arith; next_pos = omega arith };
  reads = λ e. cc;
  waits = λ e. omega arith;
}

step-Inv_example : Ensures Inv (step scan busy (children ((100, exit_code 0) ∷ [])))
step-Inv_example =
    step-Inv scan busy (children ((100, exit_code 0) ∷ [])) busy-Inv (omega arith, tt)

parse_string_total_example :
    (args : List Str) × (parse_args 4 (b'a' ∷ b'b' ∷ blank ∷ []) ≡ some args)
    × (parse_string command ≡ (
        if ltb (length command) maxline && ltb (length args) maxargs
        then some (take_bg args)
        else none))
unfolding blank_last
parse_string_total_example = parse_string_total b'a' (b'b' ∷ newline ∷ [])

below_two : JidsBelow 2 busy.jobs
below_two = (omega arith, All-replicate (λ (j : Job). j.jid < 2) 15 cleared (omega arith))

busy-DistinctJids : DistinctJids busy.jobs
unfolding count
busy-DistinctJids n h = ground arith

addjob-DistinctJids_example :
    DistinctJids (addjob busy 200 bg command).0.jobs
    × AddedJid busy
        (record { pid = 200; jid = 2; state = bg; cmdline = command })
        (addjob busy 200 bg command).0
        (addjob busy 200 bg command).1
addjob-DistinctJids_example =
    addjob-DistinctJids busy 200 bg command (omega arith) below_two busy-DistinctJids

-- The job with id 1 still runs when `nextjid` is about to wrap.
abbrev wrapping : Shell
wrapping = record busy { nextjid = 16 }

addjob_reuses_jid_example :
    ¬ (DistinctJids (addjob (addjob wrapping 200 bg command).0 300 bg command).0.jobs)
unfolding addjob count
addjob_reuses_jid_example =
    addjob_reuses_jid wrapping 200 300 bg bg command command (omega arith) (omega arith) (λ e. cc)
      busy-slots (omega arith) (omega arith) (omega arith) (omega arith)

-- The wrap itself: sixteen jobs, two of them deleted, and one added.
abbrev jobs_from : ℕ → ℕ → List Job
jobs_from zero n = []
jobs_from (suc k) n =
    (record { pid = 100 + n; jid = n; state = bg; cmdline = command }) ∷ jobs_from k (n + 1)

abbrev full : Shell
full = record start { jobs = jobs_from 16 1; nextjid = 1 }

wraps_to_used_jid :
    let s = (addjob (deletejob (deletejob full 102).0 103).0 200 bg command).0 in
    (s.nextjid ≡ 1) × (jid_of s.jobs 101 ≡ 1) × (jid_of s.jobs 200 ≡ 17)
unfolding addjob deletejob jid_of
wraps_to_used_jid = (refl, refl, refl)

end-Watches_example : Watches (step scan busy (children ((100, exit_code 0) ∷ [])))
unfolding count
end-Watches_example =
    end-Watches scan false true busy 0 running_ab (exit_code 0) busy-Reach refl refl (omega arith)

-- 1,024 characters leave no room for the NUL.
long_string : parse_string (replicate 1024 b'a') ≡ none
unfolding parse_string
long_string = refl
