-- ===== src/Shell/Loop/Invariant/Steps.antt =====
-- Every round of the loop keeps the invariant.
use ics.Common.{
  ℕ, ◌≤◌, ◌<◌, ◌≡◌, refl, ◌↔◌, inl, inr, Bool, true, false, ◌||◌, Option, none, some, List, [], ◌∷◌,
  ◌++◌, arith, ltb, ◌==◌, Bool-cases, Option-cases, length, replicate, All, All-replicate, ℤ,
}
use ics.Shell.Job.{Str, maxjobs, cleared, fgpid, fg, bg}
use ics.Shell.Job.Count.{count, fg_count}
use ics.Shell.Job.Find.{fgpid-eq-zero, fgpid_pos}
use ics.Shell.Parse.{maxline, c_string, parseline}
use ics.Shell.State.{emit, Shell, spawn}
use ics.Shell.Command.{
  str_eq, jobs_name, quit_name, fg_name, bg_name, launch, bgfg_arg, do_bgfg, builtin_cmd, eval_argv,
  eval, Outcome, running,
}
use ics.Shell.Loop.{
  read_chars, ends_in_newline, prompt_unless_fg, forward, settle, start_shell, on_line, on_stdin,
  handle, step, Event, from_keyboard, children, quit, stdin_ready,
}
use native.Mathlib.Decide.{dec_lt}
use ics.Shell.Job.Slots.{cleared-SlotOk, SlotOk}
use ics.Shell.Loop.Invariant.{ShellOk, Ensures, Ensures-bind, more-TableOk, addjob-ShellOk, TableOk}
use ics.Shell.Loop.Invariant.Handlers.{
  resume_jid-ShellOk, resume_pid-ShellOk, Reaped, reap_all-ShellOk,
}

-- Between two rounds: a well formed table with at most one foreground job, and the standard input
-- is watched exactly when there is none.
pub record Inv (s : Shell) : Type 0 where
  pub table : ShellOk 1 s
  pub reads : s.read_input ≡ true → fg_count s.jobs ≡ 0
  pub waits : s.read_input ≡ false → 0 < fg_count s.jobs

abbrev pub SpawnOk : Option ℕ → Type 0
SpawnOk none = Unit
SpawnOk (some pid) = 0 < pid

-- What the kernel promises: process ids are positive, and input is reported only while it is watched.
abbrev pub Allowed : Shell → Event → Type 0
Allowed s (from_keyboard n) = Unit
Allowed s (children ended) = All Reaped ended
Allowed s quit = Unit
Allowed s (stdin_ready arrived spawned) = (s.read_input ≡ true) × SpawnOk spawned

settle-Inv : (s : Shell) → ShellOk 1 s → Inv (settle s)
unfolding settle
settle-Inv s v = record {
  table = ground arith;
  reads = λ e. ground (arith, fgpid-eq-zero s.jobs, fgpid_pos s.jobs v.slots);
  waits = λ e. ground (arith, fgpid-eq-zero s.jobs, fgpid_pos s.jobs v.slots);
}

launch-ShellOk :
    (s : Shell) (cmdline : Str) (spawned : Option ℕ) (background : Bool)
    → SpawnOk spawned
    → ShellOk 0 s
    → Ensures (ShellOk 1) (launch s cmdline spawned background)
unfolding launch
launch-ShellOk s cmdline none background h v = tt
launch-ShellOk s cmdline (some pid) true h v =
    addjob-ShellOk 0 1 s pid bg cmdline h (λ e. cc) (omega arith) v
launch-ShellOk s cmdline (some pid) false h v =
    addjob-ShellOk 0 1 s pid fg cmdline h (λ e. cc) (omega arith) v

start-TableOk : TableOk 1 (replicate maxjobs cleared) 1
unfolding count
start-TableOk = record {
  size = refl;
  slots = All-replicate SlotOk maxjobs cleared cleared-SlotOk;
  few = omega arith;
  next_pos = omega arith;
}

module _ (scan_int : Str → Option ℤ) where
  do_bgfg-ShellOk :
      (s : Shell) (argv : List Str) → ShellOk 0 s → ShellOk 1 (do_bgfg scan_int s argv)
  unfolding do_bgfg bgfg_arg
  do_bgfg-ShellOk s [] v = more-TableOk 1 v
  do_bgfg-ShellOk s (name ∷ []) v = more-TableOk 1 v
  do_bgfg-ShellOk s (name ∷ [] ∷ args) v = resume_pid-ShellOk s name [] (scan_int []) v
  do_bgfg-ShellOk s (name ∷ (c ∷ cs) ∷ args) v = elim (Bool-cases (c == b'%')) [
    | inl e ↦ rw e (resume_jid-ShellOk s name (c ∷ cs) (scan_int cs) v)
    | inr e ↦ rw e (resume_pid-ShellOk s name (c ∷ cs) (scan_int (c ∷ cs)) v)
  ]

  abbrev EnsuresBuiltin : Option Outcome → Type 0
  EnsuresBuiltin none = Unit
  EnsuresBuiltin (some out) = Ensures (ShellOk 1) out

  builtin_cmd-ShellOk :
      (s : Shell) (argv : List Str) → ShellOk 0 s → EnsuresBuiltin (builtin_cmd scan_int s argv)
  unfolding builtin_cmd
  builtin_cmd-ShellOk s [] v = tt
  builtin_cmd-ShellOk s (name ∷ args) v = elim (Bool-cases (str_eq name jobs_name)) [
    | inl e ↦ rw e (more-TableOk 1 v)
    | inr e ↦ rw e (elim (Bool-cases (str_eq name quit_name)) [
      | inl e ↦ rw e tt
      | inr e ↦ rw e (elim (Bool-cases (str_eq name fg_name || str_eq name bg_name)) [
        | inl e ↦ rw e (do_bgfg-ShellOk s (name ∷ args) v)
        | inr e ↦ rw e tt
      ])
    ])
  ]

  eval_argv-ShellOk :
      (s : Shell) (cmdline : Str) (spawned : Option ℕ) (background : Bool) (argv : List Str)
      → SpawnOk spawned
      → ShellOk 0 s
      → Ensures (ShellOk 1) (eval_argv scan_int s cmdline spawned background argv)
  unfolding eval_argv
  eval_argv-ShellOk s cmdline spawned background [] h v = more-TableOk 1 v
  eval_argv-ShellOk s cmdline spawned background (name ∷ args) h v =
      pick (builtin_cmd scan_int s (name ∷ args)) (builtin_cmd-ShellOk s (name ∷ args) v)
    where
      pick :
          (r : Option Outcome)
          → EnsuresBuiltin r
          → Ensures (ShellOk 1) (elim r [
            | none ↦ launch (emit (spawn (name ∷ args)) s) cmdline spawned background
            | some out ↦ out
          ])
      pick none k = launch-ShellOk (emit (spawn (name ∷ args)) s) cmdline spawned background h v
      pick (some out) k = k

  eval-ShellOk :
      (s : Shell) (cmdline : Str) (spawned : Option ℕ)
      → SpawnOk spawned
      → ShellOk 0 s
      → Ensures (ShellOk 1) (eval scan_int s cmdline spawned)
  unfolding eval
  eval-ShellOk s cmdline spawned h v = elim (Option-cases (parseline cmdline)) [
    | inl e ↦ rw (e, eval) tt
    | inr (r, e) ↦ rw (e, eval) (eval_argv-ShellOk s (c_string cmdline) spawned r.0 r.1 h v)
  ]

  prompt_unless_fg-ShellOk : (s : Shell) → ShellOk 1 s → ShellOk 1 (prompt_unless_fg s)
  unfolding prompt_unless_fg
  prompt_unless_fg-ShellOk s v = ground arith

  on_line-ShellOk :
      (s : Shell) (line : Str) (spawned : Option ℕ)
      → SpawnOk spawned
      → ShellOk 0 s
      → Ensures (ShellOk 1) (on_line scan_int s line spawned)
  unfolding on_line
  on_line-ShellOk s line spawned h v = elim (Bool-cases (ltb maxline (length line))) [
    | inl e ↦ rw e tt
    | inr e ↦ rw e (elim (Bool-cases (length line == 0)) [
      | inl e ↦ rw e tt
      | inr e ↦ rw e (elim (Bool-cases (ends_in_newline line)) [
        | inr e ↦ rw e (more-TableOk 1 v)
        | inl e ↦ rw e (elim (Bool-cases (length line == maxline)) [
          | inl e ↦ rw e tt
          | inr e ↦ rw e (
              Ensures-bind (ShellOk 1) (ShellOk 1) (eval scan_int s line spawned)
                (λ s'. running (prompt_unless_fg (record s' { line = [] })))
                (eval-ShellOk s line spawned h v)
                λ s' v'. prompt_unless_fg-ShellOk (record s' { line = [] }) v')
        ])
      ])
    ])
  ]

  handle-ShellOk :
      (s : Shell) (e : Event) → Inv s → Allowed s e → Ensures (ShellOk 1) (handle scan_int s e)
  unfolding handle on_stdin forward
  handle-ShellOk s (from_keyboard n) v a = let t = v.table in ground arith
  handle-ShellOk s (children ended) v a = reap_all-ShellOk 1 s ended a v.table
  handle-ShellOk s quit v a = tt
  handle-ShellOk s (stdin_ready arrived spawned) v a =
      let (line, rest) = read_chars s.line (s.unread ++ arrived) in
      let t = v.table in
      on_line-ShellOk (record s { unread = rest }) line spawned a.1
        (record {
          size = t.size;
          slots = t.slots;
          few = omega (arith, v.reads a.0);
          next_pos = t.next_pos;
        })

  -- A round that leaves the shell running keeps the invariant: at most one job is in the foreground,
  -- every slot of the table is well formed, and input is watched exactly when no job is in the
  -- foreground.
  pub step-Inv : (s : Shell) (e : Event) → Inv s → Allowed s e → Ensures Inv (step scan_int s e)
  unfolding step
  step-Inv s e v a =
      Ensures-bind (ShellOk 1) Inv (handle scan_int s e) (λ s'. running (settle s'))
        (handle-ShellOk s e v a) settle-Inv

  -- The shells that the loop of `main` can reach.
  pub data Reach (verbose emit_prompt : Bool) : Shell → Type 0 where
    here : Reach verbose emit_prompt (start_shell verbose emit_prompt)
    next :
        {s t : Shell} (e : Event)
        → Reach verbose emit_prompt s
        → Allowed s e
        → step scan_int s e ≡ running t
        → Reach verbose emit_prompt t

  Ensures-running :
      (P : Shell → Type 0) (m : Outcome) {t : Shell} → Ensures P m → m ≡ running t → P t
  Ensures-running P m h e = rw e at h

  start-Inv : (verbose emit_prompt : Bool) → Inv (start_shell verbose emit_prompt)
  unfolding count
  start-Inv verbose true = record { table = start-TableOk; reads = λ e. refl; waits = λ e. cc }
  start-Inv verbose false = record { table = start-TableOk; reads = λ e. refl; waits = λ e. cc }

  Reach-Inv : {verbose emit_prompt : Bool} {s : Shell} → Reach verbose emit_prompt s → Inv s
  Reach-Inv {verbose} {emit_prompt} here = start-Inv verbose emit_prompt
  Reach-Inv (next {s} e r a h) =
      Ensures-running Inv (step scan_int s e) (step-Inv s e (Reach-Inv r) a) h

  -- In every shell that the loop reaches at most one job is in the foreground, and the loop watches
  -- the standard input exactly when `fgpid` returns 0, which is when there is none.
  pub Reach-one_fg :
      {verbose emit_prompt : Bool} {s : Shell}
      → Reach verbose emit_prompt s
      → (fg_count s.jobs ≤ 1)
        × ((s.read_input ≡ true) ↔ (fgpid s.jobs ≡ 0))
        × ((fgpid s.jobs ≡ 0) ↔ (fg_count s.jobs ≡ 0))
  Reach-one_fg {s} r =
      let v = Reach-Inv r in
      let t = v.table in
      let up : 0 < fg_count s.jobs → 0 < fgpid s.jobs = fgpid_pos s.jobs t.slots in
      let down : fg_count s.jobs ≡ 0 → fgpid s.jobs ≡ 0 = fgpid-eq-zero s.jobs in
      let on : fgpid s.jobs ≡ 0 → s.read_input ≡ true = λ z. elim (Bool-cases s.read_input) [
        | inl e ↦ e
        | inr e ↦ absurd (omega (arith, up (v.waits e)))
      ] in
      let none_fg : fgpid s.jobs ≡ 0 → fg_count s.jobs ≡ 0 = λ z.
        elim (dec_lt 0 (fg_count s.jobs)) [
          | yes p ↦ absurd (omega (arith, up p))
          | no p ↦ omega arith
        ] in
      (t.few, (λ e. down (v.reads e), on), (none_fg, down))
