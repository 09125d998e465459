-- ===== src/Shell/Loop/Waits.antt =====
-- The foreground job of the event loop, and the standard input that waits for its end.
use ics.Common.{
  ℕ, zero, suc, ◌≤◌, ◌<◌, ◌≡◌, refl, ◌≢◌, inl, inr, Bool, true, false, Option, some, List, [], ◌∷◌,
  arith, ltb, ◌==◌, Bool-cases, get_elem?, set, ℤ, pos,
}
use ics.Shell.Job.{Str, is_fg, cleared, find_slot, has_pid, fgpid, getjobpid, pid2jid, Job, st}
use ics.Shell.Job.Find.{fgpid-eq-zero}
use ics.Shell.Job.Count.{count, count-set, count_pos, in_foreground, fg_count}
use ics.Shell.State.{emit, put_job, delete_at, deletejob, Effect, Shell, stopped_by, print}
use ics.Shell.Command.{◌>>=◌, Outcome, running, exited, crashed}
use ics.Shell.Loop.{
  say_not_found, stop_job, reap, reap_all, settle, handle, step, Ended, exit_code, killed, stopped,
  children,
}
use ics.Shell.Loop.Signals.{fgpid_unique}
use ics.Shell.Loop.Invariant.Steps.{Reach-one_fg, Reach}

-- The slot of the only job with a process id is the one that a search finds.
find_only :
    (js : List Job) (i pid : ℕ) (j : Job)
    → count (has_pid pid) js ≤ 1
    → get_elem? js i ≡ some j
    → j.pid ≡ pid
    → find_slot (has_pid pid) js ≡ some i
unfolding find_slot count
find_only [] i pid j few at e = absurd (ground arith)
find_only (x ∷ js) zero pid j few at e = ground arith
find_only (x ∷ js) (suc i) pid j few at e =
    let there : 0 < count (has_pid pid) js = count_pos (has_pid pid) js i at (ground arith) in
    let rest : find_slot (has_pid pid) js ≡ some i = find_only js i pid j (ground arith) at e in
    let skip : has_pid pid x ≡ false = ground arith in rw (skip, rest) refl

none_fg_after :
    (js : List Job) (i : ℕ) (j new : Job)
    → fg_count js ≤ 1
    → get_elem? js i ≡ some j
    → is_fg j.state ≡ true
    → is_fg new.state ≡ false
    → fg_count (set js i new) ≡ 0
none_fg_after js i j new few at f g = ground (arith, count-set in_foreground js i new at)

-- Watching the standard input, with no job in the foreground.
abbrev pub Watches : Outcome → Type 0
Watches (running s) = (s.read_input ≡ true) × (fgpid s.jobs ≡ 0)
Watches (exited code log) = ⊥
Watches crashed = ⊥

settle-Watches : (s : Shell) → fgpid s.jobs ≡ 0 → Watches (running (settle s))
unfolding settle
settle-Watches s z = elim (Bool-cases s.read_input) [
  | inl e ↦ ground arith
  | inr e ↦ elim (Bool-cases s.emit_prompt) [
    | inl f ↦ rw (e, f, z) (refl, z)
    | inr f ↦ rw (e, f, z) (refl, z)
  ]
]

stop_job-some :
    (s : Shell) (i : ℕ) (j : Job)
    → get_elem? s.jobs i ≡ some j
    → stop_job s (some i) ≡ running (put_job s i (record j { state = st }))
unfolding stop_job
stop_job-some s i j at = rw (at, stop_job) refl

no_more :
    (m : Outcome)
    → Watches (m >>= λ s. running (settle s))
    → Watches (m >>= (λ s. reap_all s []) >>= λ s. running (settle s))
unfolding reap_all
no_more (running s) h = h
no_more (exited code log) h = h
no_more crashed h = h

module _ (s : Shell) (i : ℕ) (j : Job) (few : fg_count s.jobs ≤ 1)
    (at : get_elem? s.jobs i ≡ some j) (in_fg : is_fg j.state ≡ true)
    (alone : count (has_pid j.pid) s.jobs ≤ 1) (real : 0 < j.pid) where
  found : find_slot (has_pid j.pid) s.jobs ≡ some i
  found = find_only s.jobs i j.pid j alone at refl

  idle_after : (new : Job) → is_fg new.state ≡ false → fgpid (set s.jobs i new) ≡ 0
  idle_after new f = fgpid-eq-zero _ (none_fg_after s.jobs i j new few at in_fg f)

  delete-Watches :
      (log : List Effect) → Watches (running (settle (deletejob (record s { log = log }) j.pid).0))
  unfolding deletejob delete_at
  delete-Watches log =
      let p : ltb j.pid 1 ≡ false = ground arith in
      rw (p, found) (settle-Watches _ (idle_after cleared refl))

  found_pid : getjobpid s.jobs (pos j.pid) ≡ some i
  unfolding getjobpid
  found_pid = let p : ltb j.pid 1 ≡ false = ground arith in rw p found

  reap-Watches : (status : Ended) → Watches (reap s j.pid status >>= λ s'. running (settle s'))
  unfolding reap say_not_found stop_job
  reap-Watches (killed n) = delete-Watches _
  reap-Watches (exit_code code) = elim (Bool-cases (code == 127)) [
    | inl e ↦ rw (e, found_pid, at) (delete-Watches _)
    | inr e ↦ rw e (delete-Watches s.log)
  ]
  reap-Watches (stopped n) =
      rw
        (
          found_pid,
          stop_job-some (emit (print (stopped_by (pid2jid s.jobs j.pid) j.pid n)) s) i j at,
        )
        (settle-Watches _ (idle_after (record j { state = st }) refl))

module _ (scan_int : Str → Option ℤ) where
  -- In every reachable shell with a foreground job whose process id no other slot has, the report that
  -- its process has exited, was killed or has stopped brings the shell back to its user: the shell keeps
  -- running, has no foreground job, and watches the standard input again.
  pub end-Watches :
      (verbose emit_prompt : Bool) (s : Shell) (i : ℕ) (j : Job) (status : Ended)
      → Reach scan_int verbose emit_prompt s
      → get_elem? s.jobs i ≡ some j
      → is_fg j.state ≡ true
      → count (has_pid j.pid) s.jobs ≤ 1
      → Watches (step scan_int s (children ((j.pid, status) ∷ [])))
  unfolding step handle reap_all
  end-Watches verbose emit_prompt s i j status r at f alone =
      let (few, reads, same) = Reach-one_fg scan_int r in
      let pid : fgpid s.jobs ≡ j.pid = fgpid_unique s.jobs i j few at f in
      let ne : fgpid s.jobs ≢ 0 =
        λ z. omega (arith, count_pos in_foreground s.jobs i at f, same.0 z) in
      let real : 0 < j.pid = ground arith in
      no_more (reap s j.pid status) (reap-Watches s i j few at f alone real status)
