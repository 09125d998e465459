-- ===== src/Shell/State.antt =====
-- The globals of shlab/tsh.c with the locals of `main` that outlive one round of its loop, and the
-- routines that change the job list. What the shell prints and the signals that it sends are
-- appended to a log.
pub mod Jids
pub mod Table
use ics.Common.{
  ℕ, ◌+◌, Bool, true, Option, none, some, List, [], ◌∷◌, ◌++◌, ltb, ◌==◌, if◌then◌else◌, set,
  replicate,
}
use ics.Shell.Job.{Str, maxjobs, cleared, maxjid, find_slot, has_pid, JobState, Job}

-- One constructor for each `printf` or `write`, with its arguments.
pub data Message : Type 0 where
  prompt : Message
  too_many_jobs : Message
  added_job : ℕ → ℕ → Str → Message
  job_started : ℕ → ℕ → Str → Message
  job_listed : ℕ → ℕ → JobState → Str → Message
  command_not_found : Str → Message
  terminated_by : ℕ → ℕ → ℕ → Message
  stopped_by : ℕ → ℕ → ℕ → Message
  no_such_job : Str → Message
  no_such_process : Str → Message
  argument_missing : Str → Message
  argument_malformed : Str → Message
  quit_signal : Message

-- The signals that the shell handles or sends.
pub data Signal : Type 0 where
  sigint sigtstp sigcont sigquit : Signal

-- `kill_group pid n` is `kill(-pid, n)`, and `spawn argv` is the call of `posix_spawn`.
pub data Effect : Type 0 where
  print : Message → Effect
  kill_group : ℕ → Signal → Effect
  spawn : List Str → Effect

pub record Shell : Type 0 where
  pub jobs : List Job
  pub nextjid : ℕ
  pub verbose : Bool
  pub emit_prompt : Bool
  -- whether the event queue watches the standard input
  pub read_input : Bool
  -- `cmdline[0..cmdline_length)`
  pub line : Str
  -- input that the terminal holds and the shell has not read
  pub unread : Str
  -- newest last
  pub log : List Effect

abbrev pub emit : Effect → Shell → Shell
emit e s = record s { log = s.log ++ (e ∷ []) }

abbrev pub put_job : Shell → ℕ → Job → Shell
put_job s i j = record s { jobs = set s.jobs i j }

-- `nextjid++` with the wrap that follows it.
abbrev pub after_jid : ℕ → ℕ
after_jid jid = if ltb maxjobs (jid + 1) then 1 else jid + 1

-- What `addjob` does at the first free slot, or with none.
unfoldable pub add_at : Shell → Option ℕ → Job → Shell × ℕ
add_at s none j = (emit (print too_many_jobs) s, 0)
add_at s (some i) j =
    let s' = record s { jobs = set s.jobs i j; nextjid = after_jid s.nextjid } in
    (if s.verbose then emit (print (added_job j.jid j.pid j.cmdline)) s' else s', 1)

unfoldable pub addjob : Shell → ℕ → JobState → Str → Shell × ℕ
unfolding add_at find_slot
addjob s pid state cmdline =
    if ltb pid 1
    then (s, 0)
    else add_at s (find_slot (has_pid 0) s.jobs)
        (record { pid = pid; jid = s.nextjid; state = state; cmdline = cmdline })

unfoldable pub delete_at : Shell → Option ℕ → Shell × ℕ
unfolding maxjid
delete_at s none = (s, 0)
delete_at s (some i) =
    let js = set s.jobs i cleared in (record s { jobs = js; nextjid = maxjid js + 1 }, 1)

unfoldable pub deletejob : Shell → ℕ → Shell × ℕ
unfolding delete_at find_slot
deletejob s pid = if ltb pid 1 then (s, 0) else delete_at s (find_slot (has_pid pid) s.jobs)

-- The loop of `listjobs`; its `default` case is the state UNDEF.
unfoldable pub listed : List Job → List Effect
listed [] = []
listed (j ∷ js) =
    if j.pid == 0 then listed js else print (job_listed j.jid j.pid j.state j.cmdline) ∷ listed js

unfoldable pub listjobs : Shell → Shell
unfolding listed
listjobs s = record s { log = s.log ++ listed s.jobs }

-- The state in which `main` enters its loop, before the first prompt.
abbrev pub fresh_shell : Bool → Bool → Shell
fresh_shell verbose emit_prompt = record {
  jobs = replicate maxjobs cleared;
  nextjid = 1;
  verbose = verbose;
  emit_prompt = emit_prompt;
  read_input = true;
  line = [];
  unread = [];
  log = [];
}
