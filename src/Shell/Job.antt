-- ===== src/Shell/Job.antt =====
-- The job list of shlab/tsh.c: `struct job_t`, the array `jobs` and the routines that search it.
-- A table is the list of the slots in order, so a pointer into the array is an index.
pub mod Count
pub mod Find
pub mod Slots
use ics.Common.{
  ℕ, zero, suc, ◌≡◌, ℤ, pos, negsuc, Bool, true, false, Option, none, some, List, [], ◌∷◌, ltb,
  ◌==◌, if◌then◌else◌, get_elem?,
}
use mathlib.Core.Option
use mathlib.Core.List.{map}

abbrev pub Str : Type 0
Str = List ℕ

-- The macros UNDEF, FG, BG and ST.
pub data JobState : Type 0 where
  undef fg bg st : JobState

-- The kernel's process ids are positive; 0 marks a slot that is not in use.
pub record Job : Type 0 where
  pub pid : ℕ
  pub jid : ℕ
  pub state : JobState
  pub cmdline : Str

abbrev pub maxjobs : ℕ
maxjobs = 16

abbrev pub is_fg : JobState → Bool
is_fg fg = true
is_fg undef = false
is_fg bg = false
is_fg st = false

abbrev pub cleared : Job
cleared = record { pid = 0; jid = 0; state = undef; cmdline = [] }

-- Every field is written, so the old contents do not matter.
abbrev pub clearjob : Job → Job
clearjob job = cleared

unfoldable pub initjobs : List Job → List Job
initjobs jobs = map clearjob jobs

-- The loop of `maxjid`, from the maximum so far.
unfoldable pub maxjid_from : ℕ → List Job → ℕ
maxjid_from top [] = top
maxjid_from top (j ∷ js) = maxjid_from (if ltb top j.jid then j.jid else top) js

unfoldable pub maxjid : List Job → ℕ
unfolding maxjid_from
maxjid jobs = maxjid_from 0 jobs

-- The loop that `getjobpid`, `getjobjid`, `addjob` and `deletejob` share: the first slot that passes.
unfoldable pub find_slot : (Job → Bool) → List Job → Option ℕ
find_slot p [] = none
find_slot p (j ∷ js) = if p j then some 0 else Option.map suc (find_slot p js)

abbrev pub has_pid : ℕ → Job → Bool
has_pid pid j = j.pid == pid

abbrev pub has_jid : ℕ → Job → Bool
has_jid jid j = j.jid == jid

unfoldable pub fgpid : List Job → ℕ
fgpid [] = 0
fgpid (j ∷ js) = if is_fg j.state then j.pid else fgpid js

unfoldable pub getjobpid : List Job → ℤ → Option ℕ
unfolding find_slot
getjobpid jobs (negsuc n) = none
getjobpid jobs (pos pid) = if ltb pid 1 then none else find_slot (has_pid pid) jobs

unfoldable pub getjobjid : List Job → ℤ → Option ℕ
unfolding find_slot
getjobjid jobs (negsuc n) = none
getjobjid jobs (pos jid) = if ltb jid 1 then none else find_slot (has_jid jid) jobs

-- The loop of `pid2jid`.
unfoldable pub jid_of : List Job → ℕ → ℕ
jid_of [] pid = 0
jid_of (j ∷ js) pid = if j.pid == pid then j.jid else jid_of js pid

unfoldable pub pid2jid : List Job → ℕ → ℕ
unfolding jid_of
pid2jid jobs pid = if ltb pid 1 then 0 else jid_of jobs pid
