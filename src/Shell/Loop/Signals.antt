-- ===== src/Shell/Loop/Signals.antt =====
-- What the handlers of the event loop do with signals, new jobs and long lines.
use ics.Common.{
  ℕ, zero, suc, ◌≤◌, ◌<◌, ◌≡◌, refl, ap, ◌∙◌, ◌≢◌, inl, inr, Bool, true, false, Option, none, some,
  List, [], ◌∷◌, arith, Bool-cases, get_elem?, ℤ, pos,
}
use ics.Shell.Job.{Str, is_fg, has_pid, fgpid, getjobpid, Job}
use ics.Shell.Job.Count.{count, count_pos, in_foreground, fg_count}
use ics.Shell.Job.Find.{Finds, getjobpid-Finds}
use ics.Shell.State.{emit, Signal, Shell, kill_group}
use ics.Shell.Command.{running, crashed}
use ics.Shell.Loop.{
  stop_job, reap, reap_all, forward, settle, handle, step, Ended, stopped, from_keyboard, children,
}
use ics.Shell.Loop.Invariant.Steps.{Reach-one_fg, Reach}

-- The one job in the foreground is the one that `fgpid` names.
pub fgpid_unique :
    (js : List Job) (i : ℕ) (j : Job)
    → fg_count js ≤ 1
    → get_elem? js i ≡ some j
    → is_fg j.state ≡ true
    → fgpid js ≡ j.pid
unfolding fgpid count
fgpid_unique [] i j h at f = cc
fgpid_unique (x ∷ js) zero j h at f = ground arith
fgpid_unique (x ∷ js) (suc i) j h at f =
    ground (arith, fgpid_unique js i j, count_pos in_foreground js i at f)

settle-busy : (s : Shell) → s.read_input ≡ false → fgpid s.jobs ≢ 0 → settle s ≡ s
unfolding settle
settle-busy s e ne = ground arith

settle-idle : (s : Shell) → s.read_input ≡ true → fgpid s.jobs ≡ 0 → settle s ≡ s
unfolding settle
settle-idle s e z = ground arith

forward-busy :
    (s : Shell) (n : Signal) {pid : ℕ}
    → fgpid s.jobs ≡ pid
    → pid ≢ 0
    → forward s n ≡ emit (kill_group pid n) s
unfolding forward
forward-busy s n e ne = ground arith

forward-idle : (s : Shell) (n : Signal) → fgpid s.jobs ≡ 0 → forward s n ≡ s
unfolding forward
forward-idle s n z = ground arith

module _ (scan_int : Str → Option ℤ) where
  -- In every reachable shell with a foreground job, ctrl-c and ctrl-z send their signal to the process
  -- group of that job, once, and change nothing else.
  pub keyboard-fg :
      (verbose emit_prompt : Bool) (s : Shell) (n : Signal) (i : ℕ) (j : Job)
      → Reach scan_int verbose emit_prompt s
      → get_elem? s.jobs i ≡ some j
      → is_fg j.state ≡ true
      → step scan_int s (from_keyboard n) ≡ running (emit (kill_group j.pid n) s)
  unfolding step handle
  keyboard-fg verbose emit_prompt s n i j r at f =
      let (few, reads, same) = Reach-one_fg scan_int r in
      let pid : fgpid s.jobs ≡ j.pid = fgpid_unique s.jobs i j few at f in
      let ne : fgpid s.jobs ≢ 0 =
        λ z. omega (arith, count_pos in_foreground s.jobs i at f, same.0 z) in
      let off : s.read_input ≡ false = elim (Bool-cases s.read_input) [
        | inl e ↦ absurd (ne (reads.0 e))
        | inr e ↦ e
      ] in
      ap (λ t. running (settle t)) (forward-busy s n pid (λ z. ne (pid ∙ z)))
      ∙ ap running (settle-busy (emit (kill_group j.pid n) s) off ne)

  -- In every reachable shell with no foreground job, ctrl-c and ctrl-z change nothing at all.
  pub keyboard-idle :
      (verbose emit_prompt : Bool) (s : Shell) (n : Signal)
      → Reach scan_int verbose emit_prompt s
      → fg_count s.jobs ≡ 0
      → step scan_int s (from_keyboard n) ≡ running s
  unfolding step handle
  keyboard-idle verbose emit_prompt s n r h =
      let (few, reads, same) = Reach-one_fg scan_int r in
      let z : fgpid s.jobs ≡ 0 = same.1 h in
      ap (λ t. running (settle t)) (forward-idle s n z) ∙ ap running (settle-idle s (reads.1 z) z)

-- Where no slot holds the process, `getjobpid` returns the null pointer.
getjobpid-none :
    (js : List Job) (pid : ℕ) → 0 < pid → count (has_pid pid) js ≡ 0 → getjobpid js (pos pid) ≡ none
getjobpid-none js pid h z = pick (getjobpid js (pos pid)) (getjobpid-Finds js pid h)
  where
    pick : (r : Option ℕ) → Finds (has_pid pid) js r → r ≡ none
    pick none f = refl
    pick (some i) (j, at, e, _) = absurd (omega (arith, count_pos (has_pid pid) js i at e))

-- A child that the table does not hold, as one started while the table was full, crashes the shell
-- when it stops: the handler writes through the null pointer.
pub stopped_untracked :
    (scan_int : Str → Option ℤ) (s : Shell) (pid n : ℕ) (rest : List (ℕ × Ended))
    → 0 < pid
    → count (has_pid pid) s.jobs ≡ 0
    → step scan_int s (children ((pid, stopped n) ∷ rest)) ≡ crashed
unfolding step handle reap_all reap stop_job
stopped_untracked scan_int s pid n rest h z = rw (getjobpid-none s.jobs pid h z)
