-- ===== src/Shell/State/Table.antt =====
-- What `addjob` and `deletejob` do to the table, on every branch.
use ics.Common.{ℕ, zero, suc, ◌+◌, ◌<◌, ◌≡◌, refl, Option, none, some, arith, suc_not_lt_one, set}
use ics.Shell.Job.{find_slot, has_pid, JobState, Job, Str, maxjid, cleared}
use ics.Shell.Job.Find.{Finds, find_slot-Finds}
use ics.Shell.State.{
  emit, after_jid, add_at, addjob, delete_at, deletejob, Shell, too_many_jobs, print,
}

abbrev pub new_job : Shell → ℕ → JobState → Str → Job
new_job s pid state cmdline = record {
  pid = pid;
  jid = s.nextjid;
  state = state;
  cmdline = cmdline;
}

-- What `addjob` leaves, when `r` is the first free slot.
abbrev pub Adds : Shell → Job → Option ℕ → Shell × ℕ → Type 0
Adds s j none (s', done) = (s' ≡ emit (print too_many_jobs) s) × (done ≡ 0)
Adds s j (some i) (s', done) =
    (s'.jobs ≡ set s.jobs i j)
    × (s'.nextjid ≡ after_jid s.nextjid)
    × (done ≡ 1)
    × (s'.read_input ≡ s.read_input)
    × (s'.line ≡ s.line)

add_at-Adds : (s : Shell) (r : Option ℕ) (j : Job) → Adds s j r (add_at s r j)
unfolding add_at
add_at-Adds s none j = (refl, refl)
add_at-Adds s (some i) j = ground arith

-- For a positive process id: with no free slot `addjob` prints its complaint, returns 0 and changes
-- nothing else; otherwise the first free slot takes the new job under the id `nextjid`, which
-- advances, every other slot is as before, and the result is 1.
pub addjob_lem :
    (s : Shell) (pid : ℕ) (state : JobState) (cmdline : Str)
    → 0 < pid
    → (r : Option ℕ) × Finds (has_pid 0) s.jobs r
      × Adds s (new_job s pid state cmdline) r (addjob s pid state cmdline)
unfolding addjob
addjob_lem s zero state cmdline h = elim h [ ]
addjob_lem s (suc pid) state cmdline h =
    let r = find_slot (has_pid 0) s.jobs in
    (r, find_slot-Finds _ s.jobs, rw (suc_not_lt_one pid) (add_at-Adds s r _))

-- What `deletejob` leaves, when `r` is the first slot of the process.
abbrev pub Deletes : Shell → Option ℕ → Shell × ℕ → Type 0
Deletes s none (s', done) = (s' ≡ s) × (done ≡ 0)
Deletes s (some i) (s', done) =
    (s' ≡ record s { jobs = set s.jobs i cleared; nextjid = maxjid (set s.jobs i cleared) + 1 })
    × (done ≡ 1)

delete_at-Deletes : (s : Shell) (r : Option ℕ) → Deletes s r (delete_at s r)
unfolding delete_at
delete_at-Deletes s none = (refl, refl)
delete_at-Deletes s (some i) = (refl, refl)

-- For a positive process id: `deletejob` clears the first slot of the process, sets `nextjid` just
-- above the ids that are left and returns 1; with no such slot it changes nothing and returns 0.
pub deletejob_lem :
    (s : Shell) (pid : ℕ)
    → 0 < pid
    → (r : Option ℕ) × Finds (has_pid pid) s.jobs r × Deletes s r (deletejob s pid)
unfolding deletejob
deletejob_lem s zero h = elim h [ ]
deletejob_lem s (suc pid) h =
    let r = find_slot (has_pid (suc pid)) s.jobs in
    (r, find_slot-Finds _ s.jobs, rw (suc_not_lt_one pid) (delete_at-Deletes s r))
