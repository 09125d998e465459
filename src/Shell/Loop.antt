-- ===== src/Shell/Loop.antt =====
-- The event loop in `main` of shlab/tsh.c. An event is what `epoll_wait` reports, with what the
-- system calls of its handler return.
pub mod Invariant
pub mod Signals
pub mod Waits
use ics.Common.{
  ℕ, Bool, true, false, not, ◌&&◌, Option, none, some, List, [], ◌∷◌, ◌++◌, ltb, ◌==◌,
  if◌then◌else◌, length, get_elem?, ℤ, pos,
}
use ics.Shell.Job.{Str, fgpid, getjobpid, pid2jid, Job, st}
use ics.Shell.State.{
  emit, put_job, deletejob, fresh_shell, Signal, Shell, prompt, command_not_found, terminated_by,
  stopped_by, quit_signal, print, kill_group,
}
use ics.Shell.Parse.{maxline, newline}
use ics.Shell.Command.{◌>>=◌, eval, Outcome, running, exited, crashed}

-- The status that `waitpid` reports: an exit code, or the number of a signal.
pub data Ended : Type 0 where
  exit_code : ℕ → Ended
  killed : ℕ → Ended
  stopped : ℕ → Ended

pub data Event : Type 0 where
  -- SIGINT or SIGTSTP
  from_keyboard : Signal → Event
  -- SIGCHLD, with what `waitpid` returns until it has no more
  children : List (ℕ × Ended) → Event
  quit : Event
  -- the standard input, with the characters that have arrived and the result of `posix_spawn`
  stdin_ready : Str → Option ℕ → Event

-- The command line less its last character.
unfoldable pub drop_last : Str → Str
drop_last [] = []
drop_last (c ∷ []) = []
drop_last (c ∷ d ∷ cs) = c ∷ drop_last (d ∷ cs)

-- `job->cmdline` and `job->state = ST` follow the pointer that `getjobpid` returned.
unfoldable pub say_not_found : Shell → Option Job → Outcome
unfolding drop_last
say_not_found s none = crashed
say_not_found s (some j) = running (emit (print (command_not_found (drop_last j.cmdline))) s)

unfoldable pub stop_job : Shell → Option ℕ → Outcome
stop_job s none = crashed
stop_job s (some i) = elim (get_elem? s.jobs i) [
  | none ↦ crashed
  | some j ↦ running (put_job s i (record j { state = st }))
]

abbrev pub job_at : List Job → Option ℕ → Option Job
job_at js none = none
job_at js (some i) = get_elem? js i

-- The body of the `waitpid` loop.
unfoldable pub reap : Shell → ℕ → Ended → Outcome
unfolding say_not_found deletejob stop_job getjobpid
reap s pid (exit_code code) =
    (if code == 127
      then say_not_found s (job_at s.jobs (getjobpid s.jobs (pos pid)))
      else running s)
    >>= λ s'. running (deletejob s' pid).0
reap s pid (killed n) =
    running (deletejob (emit (print (terminated_by (pid2jid s.jobs pid) pid n)) s) pid).0
reap s pid (stopped n) =
    stop_job (emit (print (stopped_by (pid2jid s.jobs pid) pid n)) s) (getjobpid s.jobs (pos pid))

unfoldable pub reap_all : Shell → List (ℕ × Ended) → Outcome
unfolding reap
reap_all s [] = running s
reap_all s ((pid, status) ∷ rest) = reap s pid status >>= λ s'. reap_all s' rest

-- The loop of `read` calls: the line so far, the characters that can be read; what is left of them.
unfoldable pub read_chars : Str → Str → Str × Str
read_chars line [] = (line, [])
read_chars line (c ∷ cs) =
    let more = read_chars (line ++ (c ∷ [])) cs in
    if c == newline then (line ++ (c ∷ []), cs) else more

unfoldable pub ends_in_newline : Str → Bool
ends_in_newline [] = false
ends_in_newline (c ∷ []) = c == newline
ends_in_newline (c ∷ d ∷ cs) = ends_in_newline (d ∷ cs)

abbrev pub show_prompt : Shell → Shell
show_prompt s = if s.emit_prompt then emit (print prompt) s else s

-- "If the command is NOT to run a foreground job, print the prompt."
unfoldable pub prompt_unless_fg : Shell → Shell
unfolding fgpid
prompt_unless_fg s = if fgpid s.jobs == 0 then show_prompt s else s

unfoldable pub forward : Shell → Signal → Shell
unfolding fgpid
forward s n = if fgpid s.jobs == 0 then s else emit (kill_group (fgpid s.jobs) n) s

-- The end of a round: whether to watch the standard input.
unfoldable pub settle : Shell → Shell
unfolding fgpid
settle s =
    if s.read_input && not (fgpid s.jobs == 0)
    then record s { read_input = false }
    else if not s.read_input && fgpid s.jobs == 0
    then show_prompt (record s { read_input = true })
    else s

-- The shell when `main` enters its loop.
abbrev pub start_shell : Bool → Bool → Shell
start_shell verbose emit_prompt = show_prompt (fresh_shell verbose emit_prompt)

module _ (scan_int : Str → Option ℤ) where
  -- With the characters read: past the end of the buffer, end of file, a whole line, or a part of one.
  -- The NUL behind a whole line must fit too.
  unfoldable pub on_line : Shell → Str → Option ℕ → Outcome
  unfolding eval prompt_unless_fg ends_in_newline
  on_line s line spawned =
      if ltb maxline (length line)
      then crashed
      else if length line == 0
      then exited 0 s.log
      else if not (ends_in_newline line)
      then running (record s { line = line })
      else if length line == maxline
      then crashed
      else eval scan_int s line spawned >>= λ s'.
          running (prompt_unless_fg (record s' { line = [] }))

  unfoldable pub on_stdin : Shell → Str → Option ℕ → Outcome
  unfolding on_line read_chars
  on_stdin s arrived spawned =
      let (line, rest) = read_chars s.line (s.unread ++ arrived) in
      on_line (record s { unread = rest }) line spawned

  unfoldable pub handle : Shell → Event → Outcome
  unfolding on_stdin reap_all forward
  handle s (from_keyboard n) = running (forward s n)
  handle s (children ended) = reap_all s ended
  handle s quit = exited 1 (s.log ++ (print quit_signal ∷ []))
  handle s (stdin_ready arrived spawned) = on_stdin s arrived spawned

  -- One round of the loop.
  unfoldable pub step : Shell → Event → Outcome
  unfolding handle settle
  step s e = handle s e >>= λ s'. running (settle s')
