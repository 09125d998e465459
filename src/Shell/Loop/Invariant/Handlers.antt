-- ===== src/Shell/Loop/Invariant/Handlers.antt =====
-- Each handler keeps the table well formed.
use ics.Common.{
  ℕ, zero, suc, ◌+◌, ◌≤◌, ◌<◌, ◌≡◌, ◌≢◌, inl, inr, Option, none, some, List, [], ◌∷◌, arith, ◌==◌,
  Bool-cases, get_elem?, set, All, All-get, ℤ, pos, negsuc,
}
use ics.Shell.Job.{
  Str, is_fg, has_pid, has_jid, getjobpid, getjobjid, pid2jid, JobState, Job, undef, fg, bg, st,
}
use ics.Shell.Job.Count.{weight}
use ics.Shell.Job.Slots.{in_use-SlotOk, SlotOk}
use ics.Shell.Job.Find.{Finds, getjobpid-Finds, getjobjid-Finds}
use ics.Shell.State.{
  emit, deletejob, Message, Shell, terminated_by, stopped_by, no_such_job, no_such_process, print,
}
use ics.Shell.Command.{starts_with_b, resume, resume_found, resume_jid, resume_pid, running}
use ics.Shell.Loop.{
  say_not_found, stop_job, job_at, reap, reap_all, Ended, exit_code, killed, stopped,
}
use ics.Shell.Loop.Invariant.{
  ShellOk, Ensures, Ensures-bind, set-TableOk, more-TableOk, deletejob-ShellOk, TableOk,
}

-- A write of a known state to a slot that is in use.
restate-ShellOk :
    (k d : ℕ) (s : Shell) (i : ℕ) (j : Job) (state : JobState)
    → ShellOk k s
    → get_elem? s.jobs i ≡ some j
    → 0 < j.pid
    → state ≢ undef
    → weight (is_fg state) ≤ d
    → TableOk (k + d) (set s.jobs i (record j { state = state })) s.nextjid
restate-ShellOk k d s i j state v at p ne w =
    let ok = All-get SlotOk s.jobs i v.slots at in
    set-TableOk d i (record j { state = state }) s.nextjid v
      (in_use-SlotOk (record j { state = state }) p (ok.used p).0 ne) w v.next_pos

resume-ShellOk :
    (s : Shell) (name : Str) (i : ℕ) (j : Job)
    → ShellOk 0 s
    → get_elem? s.jobs i ≡ some j
    → 0 < j.pid
    → ShellOk 1 (resume s name i j)
unfolding resume
resume-ShellOk s name i j v at p = elim (Bool-cases (starts_with_b name)) [
  | inl e ↦ rw e (restate-ShellOk 0 1 s i j bg v at p (λ e. cc) (omega arith))
  | inr e ↦ rw e (restate-ShellOk 0 1 s i j fg v at p (λ e. cc) (omega arith))
]

-- A search for a positive number finds a slot in use.
abbrev InUse : Shell → Option ℕ → Type 0
InUse s none = Unit
InUse s (some i) = (j : Job) × (get_elem? s.jobs i ≡ some j) × (0 < j.pid)

Finds-pid-InUse :
    (s : Shell) (pid : ℕ) (r : Option ℕ) → 0 < pid → Finds (has_pid pid) s.jobs r → InUse s r
Finds-pid-InUse s pid none h f = tt
Finds-pid-InUse s pid (some i) h (j, at, e, _) = (j, at, ground arith)

Finds-jid-InUse :
    (k : ℕ) (s : Shell) (jid : ℕ) (r : Option ℕ)
    → 0 < jid
    → ShellOk k s
    → Finds (has_jid jid) s.jobs r
    → InUse s r
Finds-jid-InUse k s jid none h v f = tt
Finds-jid-InUse k s jid (some i) h v (j, at, e, _) =
    let ok = All-get SlotOk s.jobs i v.slots at in (j, at, ground (arith, ok.free))

getjobpid-InUse : (s : Shell) (n : ℤ) → InUse s (getjobpid s.jobs n)
unfolding getjobpid
getjobpid-InUse s (negsuc n) = tt
getjobpid-InUse s (pos zero) = tt
getjobpid-InUse s (pos (suc n)) =
    Finds-pid-InUse s (suc n) _ (omega arith) (getjobpid-Finds s.jobs (suc n) (omega arith))

getjobjid-InUse : (k : ℕ) (s : Shell) (n : ℤ) → ShellOk k s → InUse s (getjobjid s.jobs n)
unfolding getjobjid
getjobjid-InUse k s (negsuc n) v = tt
getjobjid-InUse k s (pos zero) v = tt
getjobjid-InUse k s (pos (suc n)) v =
    Finds-jid-InUse k s (suc n) _ (omega arith) v (getjobjid-Finds s.jobs (suc n) (omega arith))

resume_found-ShellOk :
    (s : Shell) (name : Str) (m : Message) (r : Option ℕ)
    → ShellOk 0 s
    → InUse s r
    → ShellOk 1 (resume_found s name m r)
unfolding resume_found
resume_found-ShellOk s name m none v h = more-TableOk 1 v
resume_found-ShellOk s name m (some i) v (j, at, p) =
    rw (at, resume_found) (resume-ShellOk s name i j v at p)

pub resume_jid-ShellOk :
    (s : Shell) (name arg : Str) (n : Option ℤ) → ShellOk 0 s → ShellOk 1 (resume_jid s name arg n)
unfolding resume_jid
resume_jid-ShellOk s name arg none v = more-TableOk 1 v
resume_jid-ShellOk s name arg (some n) v =
    resume_found-ShellOk s name (no_such_job arg) _ v (getjobjid-InUse 0 s n v)

pub resume_pid-ShellOk :
    (s : Shell) (name arg : Str) (n : Option ℤ) → ShellOk 0 s → ShellOk 1 (resume_pid s name arg n)
unfolding resume_pid
resume_pid-ShellOk s name arg none v = more-TableOk 1 v
resume_pid-ShellOk s name arg (some n) v =
    resume_found-ShellOk s name (no_such_process arg) _ v (getjobpid-InUse s n)

stop_job-ShellOk :
    (k : ℕ) (s : Shell) (r : Option ℕ)
    → ShellOk k s
    → InUse s r
    → Ensures (ShellOk k) (stop_job s r)
unfolding stop_job
stop_job-ShellOk k s none v h = tt
stop_job-ShellOk k s (some i) v (j, at, p) =
    rw (at, stop_job)
      (let v' = restate-ShellOk k 0 s i j st v at p (λ e. cc) (omega arith) in
        record {
          size = v'.size;
          slots = v'.slots;
          few = omega (arith, v'.few);
          next_pos = v'.next_pos;
        })

say_not_found-ShellOk :
    (k : ℕ) (s : Shell) (r : Option Job) → ShellOk k s → Ensures (ShellOk k) (say_not_found s r)
unfolding say_not_found
say_not_found-ShellOk k s none v = tt
say_not_found-ShellOk k s (some j) v = v

reap-ShellOk :
    (k : ℕ) (s : Shell) (pid : ℕ) (status : Ended)
    → 0 < pid
    → ShellOk k s
    → Ensures (ShellOk k) (reap s pid status)
unfolding reap
reap-ShellOk k s pid (exit_code code) h v = elim (Bool-cases (code == 127)) [
  | inl e ↦
      let j = job_at s.jobs (getjobpid s.jobs (pos pid)) in
      rw e (
        Ensures-bind (ShellOk k) (ShellOk k) (say_not_found s j)
          (λ s'. running (deletejob s' pid).0) (say_not_found-ShellOk k s j v)
          λ s' v'. deletejob-ShellOk k s' pid h v')
  | inr e ↦ rw e (deletejob-ShellOk k s pid h v)
]
reap-ShellOk k s pid (killed n) h v =
    deletejob-ShellOk k (emit (print (terminated_by (pid2jid s.jobs pid) pid n)) s) pid h v
reap-ShellOk k s pid (stopped n) h v =
    stop_job-ShellOk k (emit (print (stopped_by (pid2jid s.jobs pid) pid n)) s) _ v
      (getjobpid-InUse s (pos pid))

abbrev pub Reaped : ℕ × Ended → Type 0
Reaped (pid, status) = 0 < pid

-- The SIGCHLD handler adds no foreground job.
pub reap_all-ShellOk :
    (k : ℕ) (s : Shell) (ended : List (ℕ × Ended))
    → All Reaped ended
    → ShellOk k s
    → Ensures (ShellOk k) (reap_all s ended)
unfolding reap_all
reap_all-ShellOk k s [] ok v = v
reap_all-ShellOk k s ((pid, status) ∷ rest) ok v =
    Ensures-bind (ShellOk k) (ShellOk k) (reap s pid status) (λ s'. reap_all s' rest)
      (reap-ShellOk k s pid status ok.0 v) λ s' v'. reap_all-ShellOk k s' rest ok.1 v'
