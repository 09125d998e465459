-- ===== src/Shell/Loop/Invariant.antt =====
-- The invariant of the event loop.
pub mod Handlers
pub mod Steps
use ics.Common.{
  ℕ, ◌+◌, ◌≤◌, ◌<◌, ◌≡◌, ◌≢◌, Option, none, some, List, arith, length, set, All, length-set,
  All-set,
}
use ics.Shell.Job.{Str, maxjobs, is_fg, cleared, maxjid, JobState, Job, undef}
use ics.Shell.Job.Count.{weight, in_foreground, fg_count, count-set_le}
use ics.Shell.Job.Slots.{cleared-SlotOk, in_use-SlotOk, SlotOk}
use ics.Shell.State.{after_jid, addjob, deletejob, Shell}
use ics.Shell.State.Table.{new_job, Adds, addjob_lem, Deletes, deletejob_lem}
use ics.Shell.Command.{◌>>=◌, Outcome, running, exited, crashed}

-- A table of `maxjobs` well formed slots with at most `k` foreground jobs.
pub record TableOk (k : ℕ) (js : List Job) (next : ℕ) : Type 0 where
  pub size : length js ≡ maxjobs
  pub slots : All SlotOk js
  pub few : fg_count js ≤ k
  pub next_pos : 0 < next

abbrev pub ShellOk : ℕ → Shell → Type 0
ShellOk k s = TableOk k s.jobs s.nextjid

-- What holds of the shell that a handler leaves running.
abbrev pub Ensures : (Shell → Type 0) → Outcome → Type 0
Ensures P (running s) = P s
Ensures P (exited code log) = Unit
Ensures P crashed = Unit

pub Ensures-bind :
    (P Q : Shell → Type 0) (m : Outcome) (f : Shell → Outcome)
    → Ensures P m
    → ((s : Shell) → P s → Ensures Q (f s))
    → Ensures Q (m >>= f)
Ensures-bind P Q (running s) f h k = k s h
Ensures-bind P Q (exited code log) f h k = tt
Ensures-bind P Q crashed f h k = tt

pub set-TableOk :
    {k : ℕ} {js : List Job} {next : ℕ} (d i : ℕ) (j : Job) (next' : ℕ)
    → TableOk k js next
    → SlotOk j
    → weight (in_foreground j) ≤ d
    → 0 < next'
    → TableOk (k + d) (set js i j) next'
set-TableOk {js} d i j next' v ok w p = record {
  size = omega (arith, length-set js i j, v.size);
  slots = All-set SlotOk js i j v.slots ok;
  few = omega (arith, count-set_le in_foreground js i j, v.few);
  next_pos = p;
}

pub more-TableOk :
    {k : ℕ} {js : List Job} {next : ℕ} (d : ℕ) → TableOk k js next → TableOk (k + d) js next
more-TableOk d v = record {
  size = v.size;
  slots = v.slots;
  few = omega (arith, v.few);
  next_pos = v.next_pos;
}

Adds-TableOk :
    (k d : ℕ) (s : Shell) (j : Job) (r : Option ℕ) (out : Shell × ℕ)
    → ShellOk k s
    → SlotOk j
    → weight (in_foreground j) ≤ d
    → Adds s j r out
    → ShellOk (k + d) out.0
Adds-TableOk k d s j none out v ok w a = rw (a.0) (more-TableOk d v)
Adds-TableOk k d s j (some i) out v ok w a =
    rw (a.0, a.1) (set-TableOk d i j (after_jid s.nextjid) v ok w (ground arith))

-- `addjob` adds at most the job that it is given.
pub addjob-ShellOk :
    (k d : ℕ) (s : Shell) (pid : ℕ) (state : JobState) (cmdline : Str)
    → 0 < pid
    → state ≢ undef
    → weight (is_fg state) ≤ d
    → ShellOk k s
    → ShellOk (k + d) (addjob s pid state cmdline).0
addjob-ShellOk k d s pid state cmdline h ne w v =
    let (r, f, a) = addjob_lem s pid state cmdline h in
    let j = new_job s pid state cmdline in
    Adds-TableOk k d s j r _ v (in_use-SlotOk j h v.next_pos ne) w a

Deletes-TableOk :
    (k : ℕ) (s : Shell) (r : Option ℕ) (out : Shell × ℕ)
    → ShellOk k s
    → Deletes s r out
    → ShellOk k out.0
Deletes-TableOk k s none out v d = rw (d.0) v
Deletes-TableOk k s (some i) out v d = rw (d.0) (
    let v' =
      set-TableOk 0 i cleared (maxjid (set s.jobs i cleared) + 1) v cleared-SlotOk (omega arith)
        (omega arith) in
    record {
      size = v'.size;
      slots = v'.slots;
      few = omega (arith, v'.few);
      next_pos = v'.next_pos;
    })

pub deletejob-ShellOk :
    (k : ℕ) (s : Shell) (pid : ℕ) → 0 < pid → ShellOk k s → ShellOk k (deletejob s pid).0
deletejob-ShellOk k s pid h v = let (r, f, d) = deletejob_lem s pid h in Deletes-TableOk k s r _ v d
