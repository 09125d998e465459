-- ===== src/Shell/Command.antt =====
-- `eval`, `builtin_cmd` and `do_bgfg` of shlab/tsh.c.
pub mod Launch
use ics.Common.{
  ℕ, Bool, true, false, ◌&&◌, ◌||◌, Option, none, some, List, [], ◌∷◌, ◌++◌, ◌==◌, if◌then◌else◌,
  get_elem?, ℤ,
}
use ics.Shell.Job.{Str, getjobpid, getjobjid, Job, fg, bg}
use ics.Shell.State.{
  emit, put_job, addjob, listjobs, Message, Effect, Shell, job_started, no_such_job,
  no_such_process, argument_missing, argument_malformed, sigcont, sigquit, print, kill_group, spawn,
}
use ics.Shell.Parse.{c_string, parseline}

-- What a handler leaves: a running shell, `exit(code)` with the log, or a crash (a failed assertion,
-- a null pointer followed, a write outside an array).
pub data Outcome : Type 0 where
  running : Shell → Outcome
  exited : ℕ → List Effect → Outcome
  crashed : Outcome

infixl 5 ◌>>=◌
abbrev pub ◌>>=◌ : Outcome → (Shell → Outcome) → Outcome
running s >>= f = f s
exited code log >>= f = exited code log
crashed >>= f = crashed

-- `strcmp(a, b) == 0`
unfoldable pub str_eq : Str → Str → Bool
str_eq [] [] = true
str_eq [] (d ∷ ds) = false
str_eq (c ∷ cs) [] = false
str_eq (c ∷ cs) (d ∷ ds) = c == d && str_eq cs ds

abbrev pub jobs_name : Str
jobs_name = b'j' ∷ b'o' ∷ b'b' ∷ b's' ∷ []

abbrev pub quit_name : Str
quit_name = b'q' ∷ b'u' ∷ b'i' ∷ b't' ∷ []

abbrev pub fg_name : Str
fg_name = b'f' ∷ b'g' ∷ []

abbrev pub bg_name : Str
bg_name = b'b' ∷ b'g' ∷ []

-- `**argv == 'b'`
abbrev pub starts_with_b : Str → Bool
starts_with_b [] = false
starts_with_b (c ∷ cs) = c == b'b'

-- The last lines of `do_bgfg`, for the job found at slot `i`.
unfoldable pub resume : Shell → Str → ℕ → Job → Shell
resume s name i j =
    if starts_with_b name
    then emit (print (job_started j.jid j.pid j.cmdline))
        (emit (kill_group j.pid sigcont) (put_job s i (record j { state = bg })))
    else emit (kill_group j.pid sigcont) (put_job s i (record j { state = fg }))

-- `job` is null after a failed search, which has its own message.
unfoldable pub resume_found : Shell → Str → Message → Option ℕ → Shell
unfolding resume
resume_found s name missing none = emit (print missing) s
resume_found s name missing (some i) = elim (get_elem? s.jobs i) [
  | none ↦ s
  | some j ↦ resume s name i j
]

unfoldable pub resume_jid : Shell → Str → Str → Option ℤ → Shell
unfolding resume_found
resume_jid s name arg none = emit (print (argument_malformed name)) s
resume_jid s name arg (some jid) = resume_found s name (no_such_job arg) (getjobjid s.jobs jid)

unfoldable pub resume_pid : Shell → Str → Str → Option ℤ → Shell
unfolding resume_found
resume_pid s name arg none = emit (print (argument_malformed name)) s
resume_pid s name arg (some pid) = resume_found s name (no_such_process arg) (getjobpid s.jobs pid)

-- The signals that `quit` sends to the jobs.
unfoldable pub quit_log : List Job → List Effect
quit_log [] = []
quit_log (j ∷ js) = if j.pid == 0 then quit_log js else kill_group j.pid sigquit ∷ quit_log js

-- What follows `posix_spawn` in `eval`. `jid` there is the result of `addjob`.
unfoldable pub launch : Shell → Str → Option ℕ → Bool → Outcome
unfolding addjob
launch s cmdline none background = crashed
launch s cmdline (some pid) background =
    let (s', jid) = addjob s pid (if background then bg else fg) cmdline in
    running (if background then emit (print (job_started jid pid cmdline)) s' else s')

-- `sscanf(text, "%d", &n)`: the number, if it returns 1.
module _ (scan_int : Str → Option ℤ) where
  unfoldable pub bgfg_arg : Shell → Str → Str → Shell
  unfolding resume_jid resume_pid
  bgfg_arg s name [] = resume_pid s name [] (scan_int [])
  bgfg_arg s name (c ∷ cs) =
      if c == b'%'
      then resume_jid s name (c ∷ cs) (scan_int cs)
      else resume_pid s name (c ∷ cs) (scan_int (c ∷ cs))

  -- The first argument is the command's name.
  unfoldable pub do_bgfg : Shell → List Str → Shell
  unfolding bgfg_arg
  do_bgfg s [] = s
  do_bgfg s (name ∷ []) = emit (print (argument_missing name)) s
  do_bgfg s (name ∷ arg ∷ args) = bgfg_arg s name arg

  -- `none` stands for false: no built-in command.
  unfoldable pub builtin_cmd : Shell → List Str → Option Outcome
  unfolding do_bgfg str_eq quit_log listjobs
  builtin_cmd s [] = none
  builtin_cmd s (name ∷ args) =
      if str_eq name jobs_name
      then some (running (listjobs s))
      else if str_eq name quit_name
      then some (exited 0 (s.log ++ quit_log s.jobs))
      else if str_eq name fg_name || str_eq name bg_name
      then some (running (do_bgfg s (name ∷ args)))
      else none

  -- `spawned` is what `posix_spawn` stores in `pid`, or `none` where it fails.
  unfoldable pub eval_argv : Shell → Str → Option ℕ → Bool → List Str → Outcome
  unfolding builtin_cmd launch
  eval_argv s cmdline spawned background [] = running s
  eval_argv s cmdline spawned background (name ∷ args) = elim (builtin_cmd s (name ∷ args)) [
    | none ↦ launch (emit (spawn (name ∷ args)) s) cmdline spawned background
    | some out ↦ out
  ]

  unfoldable pub eval : Shell → Str → Option ℕ → Outcome
  unfolding eval_argv parseline
  eval s cmdline spawned = elim (parseline cmdline) [
    | none ↦ crashed
    | some (background, argv) ↦ eval_argv s (c_string cmdline) spawned background argv
  ]
