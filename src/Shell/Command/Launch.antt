-- ===== src/Shell/Command/Launch.antt =====
-- What `eval` does with a new process, and that it crashes only where a table overflows or
-- `posix_spawn` fails.
use ics.Common.{
  ℕ, ◌<◌, ◌≡◌, ap, ◌≢◌, inl, inr, Bool, true, ◌||◌, Option, none, some, List, [], ◌∷◌, arith,
  Bool-cases, get_elem?, get_elem?-set_self, ℤ,
}
use ics.Shell.Job.{Str, has_pid, Job, bg}
use ics.Shell.Job.Find.{Finds}
use ics.Shell.State.{emit, addjob, Shell, job_started, print, spawn}
use ics.Shell.State.Table.{new_job, Adds, addjob_lem}
use ics.Shell.Parse.{c_string, parseline}
use ics.Shell.Command.{
  str_eq, jobs_name, quit_name, fg_name, bg_name, launch, builtin_cmd, eval_argv, eval, Outcome,
  running, crashed,
}

Adds-stored :
    (s : Shell) (j : Job) (r : Option ℕ) (out : Shell × ℕ)
    → Finds (has_pid 0) s.jobs r
    → Adds s j r out
    → 0 < out.1
    → (i : ℕ) × (get_elem? out.0.jobs i ≡ some j) × (out.1 ≡ 1)
Adds-stored s j none out f a h = absurd (omega (arith, a.1))
Adds-stored s j (some i) out (x, at, _, _) a h =
    (i, rw (a.0) (get_elem?-set_self s.jobs i j at), a.2)

-- When a background job is stored, its slot holds the id `nextjid`, and the line that `eval` prints
-- shows the id 1, whatever `nextjid` is.
pub launch-printed :
    (s : Shell) (cmdline : Str) (pid : ℕ)
    → 0 < pid
    → 0 < (addjob s pid bg cmdline).1
    → let s' = (addjob s pid bg cmdline).0 in
      (i : ℕ) × (get_elem? s'.jobs i ≡ some (new_job s pid bg cmdline))
      × (launch s cmdline (some pid) true ≡ running (emit (print (job_started 1 pid cmdline)) s'))
unfolding launch
launch-printed s cmdline pid h stored =
    let (r, f, a) = addjob_lem s pid bg cmdline h in
    let j = new_job s pid bg cmdline in
    let out = addjob s pid bg cmdline in
    let (i, at, one) = Adds-stored s j r out f a stored in
    (i, at, ap (λ n. running (emit (print (job_started n pid cmdline)) out.0)) one)

module _ (scan_int : Str → Option ℤ) where
  abbrev NotCrashed : Option Outcome → Type 0
  NotCrashed none = Unit
  NotCrashed (some out) = out ≢ crashed

  builtin_cmd-NotCrashed : (s : Shell) (argv : List Str) → NotCrashed (builtin_cmd scan_int s argv)
  unfolding builtin_cmd
  builtin_cmd-NotCrashed s [] = tt
  builtin_cmd-NotCrashed s (name ∷ args) = elim (Bool-cases (str_eq name jobs_name)) [
    | inl e ↦ rw e (λ q. cc)
    | inr e ↦ rw e (elim (Bool-cases (str_eq name quit_name)) [
      | inl e ↦ rw e (λ q. cc)
      | inr e ↦ rw e (elim (Bool-cases (str_eq name fg_name || str_eq name bg_name)) [
        | inl e ↦ rw e (λ q. cc)
        | inr e ↦ rw e tt
      ])
    ])
  ]

  launch-ne-crashed :
      (s : Shell) (cmdline : Str) (pid : ℕ) (background : Bool)
      → launch s cmdline (some pid) background ≢ crashed
  unfolding launch
  launch-ne-crashed s cmdline pid background e = cc

  -- On a line that `parseline` accepts, with a `posix_spawn` that succeeds, `eval` does not crash: it
  -- leaves a running shell or exits, for a built-in command and for any other.
  pub eval-ne-crashed :
      (s : Shell) (cmdline : Str) (pid : ℕ) (background : Bool) (argv : List Str)
      → parseline cmdline ≡ some (background, argv)
      → eval scan_int s cmdline (some pid) ≢ crashed
  unfolding eval eval_argv
  eval-ne-crashed s cmdline pid background argv e = rw (e, eval) (pick_argv argv)
    where
      pick :
          (t : Shell) (r : Option Outcome)
          → NotCrashed r
          → (elim r [ none ↦ launch t (c_string cmdline) (some pid) background | some out ↦ out ])
            ≢ crashed
      pick t none k = launch-ne-crashed t (c_string cmdline) pid background
      pick t (some out) k = k

      pick_argv :
          (argv : List Str)
          → eval_argv scan_int s (c_string cmdline) (some pid) background argv ≢ crashed
      pick_argv [] = λ q. cc
      pick_argv (name ∷ args) =
          pick (emit (spawn (name ∷ args)) s) (builtin_cmd scan_int s (name ∷ args))
            (builtin_cmd-NotCrashed s (name ∷ args))
