-- ===== src/Shell/State/Jids.antt =====
-- Job ids: when `addjob` gives one that no job has, and when it does not.
use ics.Common.{
  ℕ, zero, suc, ◌+◌, ◌≤◌, ◌<◌, ◌≡◌, refl, ap, ◌≢◌, true, Option, none, some, List, [], ◌∷◌, arith,
  ltb, if◌then◌else◌, ==_iff, get_elem?, set, All, All-get, All-set, get_elem?-set_self,
}
use ics.Shell.Job.{
  Str, maxjobs, cleared, maxjid_from, maxjid, has_pid, has_jid, JobState, Job, undef,
}
use ics.Shell.Job.Count.{weight, count, count-set, count_pos, count-set_le}
use ics.Shell.Job.Find.{Finds}
use ics.Shell.Job.Slots.{in_use-SlotOk, SlotOk}
use ics.Shell.State.{after_jid, addjob, deletejob, Shell}
use ics.Shell.State.Table.{new_job, Adds, addjob_lem, Deletes, deletejob_lem}

-- No two jobs have the same id.
abbrev pub DistinctJids : List Job → Type 0
DistinctJids js = (n : ℕ) → 0 < n → count (has_jid n) js ≤ 1

-- Every id lies below `n`.
abbrev pub JidsBelow : ℕ → List Job → Type 0
JidsBelow n js = All (λ (j : Job). j.jid < n) js

maxjid_from-le : (top : ℕ) (js : List Job) → top ≤ maxjid_from top js
unfolding maxjid_from
maxjid_from-le top [] = omega arith
maxjid_from-le top (j ∷ js) =
    ground (arith, maxjid_from-le (if ltb top j.jid then j.jid else top) js)

maxjid_from-JidsBelow : (top : ℕ) (js : List Job) → JidsBelow (maxjid_from top js + 1) js
unfolding maxjid_from
maxjid_from-JidsBelow top [] = tt
maxjid_from-JidsBelow top (j ∷ js) =
    let top' = if ltb top j.jid then j.jid else top in
    (ground (arith, maxjid_from-le top' js), maxjid_from-JidsBelow top' js)

-- Every id is at most `maxjid`.
pub maxjid-JidsBelow : (js : List Job) → JidsBelow (maxjid js + 1) js
unfolding maxjid
maxjid-JidsBelow js = maxjid_from-JidsBelow 0 js

count-JidsBelow : (n : ℕ) (js : List Job) → JidsBelow n js → count (has_jid n) js ≡ 0
unfolding count
count-JidsBelow n [] h = refl
count-JidsBelow n (j ∷ js) h = ground (arith, h.0, count-JidsBelow n js h.1)

DistinctJids-set_fresh :
    (js : List Job) (i : ℕ) (new : Job)
    → JidsBelow new.jid js
    → DistinctJids js
    → DistinctJids (set js i new)
DistinctJids-set_fresh js i new below distinct n h =
    ground
      (arith, count-set_le (has_jid n) js i new, count-JidsBelow new.jid js below, distinct n h)

-- What `addjob` leaves of the ids, by its result: with 0 the table and `nextjid` are as before; with 1
-- the new job stands in a slot, no job had its id and it alone has it now, every id is at most its id,
-- and `nextjid` is the next number, or 1 from `maxjobs` on.
abbrev pub AddedJid : Shell → Job → Shell → ℕ → Type 0
AddedJid s new s' zero = (s'.jobs ≡ s.jobs) × (s'.nextjid ≡ s.nextjid)
AddedJid s new s' (suc n) =
    (i : ℕ) × (get_elem? s'.jobs i ≡ some new)
    × (count (has_jid s.nextjid) s.jobs ≡ 0)
    × (count (has_jid s.nextjid) s'.jobs ≡ 1)
    × JidsBelow (s.nextjid + 1) s'.jobs
    × (s'.nextjid ≡ (if ltb s.nextjid maxjobs then s.nextjid + 1 else 1))

JidsBelow-mono : (n m : ℕ) (js : List Job) → n ≤ m → JidsBelow n js → JidsBelow m js
JidsBelow-mono n m [] le below = tt
JidsBelow-mono n m (j ∷ js) le (b, below) = (omega arith, JidsBelow-mono n m js le below)

set_fresh-AddedJid :
    (s : Shell) (new x : Job) (i : ℕ) (s' : Shell)
    → new.jid ≡ s.nextjid
    → JidsBelow s.nextjid s.jobs
    → get_elem? s.jobs i ≡ some x
    → s'.jobs ≡ set s.jobs i new
    → s'.nextjid ≡ after_jid s.nextjid
    → AddedJid s new s' 1
set_fresh-AddedJid s new x i s' id below at e e' =
    let has = has_jid s.nextjid in
    let unused = count-JidsBelow s.nextjid s.jobs below in
    let there = get_elem?-set_self s.jobs i new at in
    let own : has new ≡ true = (==_iff new.jid s.nextjid).1 id in
    (
      i,
      rw e there,
      unused,
      rw e (
          omega (
            arith,
            count-set_le has s.jobs i new,
            count_pos has (set s.jobs i new) i there own,
            ap weight own,
          )),
      rw e (
          All-set (λ (j : Job). j.jid < s.nextjid + 1) s.jobs i new
            (JidsBelow-mono s.nextjid (s.nextjid + 1) s.jobs (omega arith) below) (omega arith)),
      rw e' (ground arith),
    )

Adds-jids :
    (s : Shell) (new : Job) (r : Option ℕ) (out : Shell × ℕ)
    → new.jid ≡ s.nextjid
    → JidsBelow s.nextjid s.jobs
    → DistinctJids s.jobs
    → Finds (has_pid 0) s.jobs r
    → Adds s new r out
    → DistinctJids out.0.jobs × AddedJid s new out.0 out.1
Adds-jids s new none out id below distinct f a = rw (a.0, a.1) (distinct, (refl, refl))
Adds-jids s new (some i) out id below distinct (x, at, free, _) a = (
  λ n h. rw (a.0) (DistinctJids-set_fresh s.jobs i new (rw id below) distinct n h),
  rw (a.2) (set_fresh-AddedJid s new x i out.0 id below at a.0 a.1),
)

-- While the ids of the jobs are distinct and every one lies below `nextjid`, `addjob` keeps them
-- distinct. If it returns 0, the table and `nextjid` are as before. If not, the new job stands in a
-- slot under the id `nextjid`, which no job had and it alone has now; every id lies below `nextjid`
-- plus 1, and that is the new `nextjid`, unless it was `maxjobs` or more: then it is 1.
pub addjob-DistinctJids :
    (s : Shell) (pid : ℕ) (state : JobState) (cmdline : Str)
    → 0 < pid
    → JidsBelow s.nextjid s.jobs
    → DistinctJids s.jobs
    → DistinctJids (addjob s pid state cmdline).0.jobs
      × AddedJid s
          (record { pid = pid; jid = s.nextjid; state = state; cmdline = cmdline })
          (addjob s pid state cmdline).0
          (addjob s pid state cmdline).1
addjob-DistinctJids s pid state cmdline h below distinct =
    let (r, f, a) = addjob_lem s pid state cmdline h in
    Adds-jids s (new_job s pid state cmdline) r _ refl below distinct f a

Deletes-jids :
    (s : Shell) (r : Option ℕ) (out : Shell × ℕ)
    → DistinctJids s.jobs
    → Deletes s r out
    → 0 < out.1
    → DistinctJids out.0.jobs × JidsBelow out.0.nextjid out.0.jobs
Deletes-jids s none out distinct d h = absurd (omega (arith, d.1))
Deletes-jids s (some i) out distinct d h =
    let js = set s.jobs i cleared in
    let fewer : DistinctJids js =
      λ n p. ground (arith, count-set_le (has_jid n) s.jobs i cleared, distinct n p) in
    rw (d.0) (fewer, maxjid-JidsBelow js)

-- A deletion that finds its job keeps the ids distinct and puts `nextjid` above all of them,
-- wherever it stood before.
pub deletejob-jids :
    (s : Shell) (pid : ℕ)
    → 0 < pid
    → DistinctJids s.jobs
    → 0 < (deletejob s pid).1
    → DistinctJids (deletejob s pid).0.jobs
      × JidsBelow (deletejob s pid).0.nextjid (deletejob s pid).0.jobs
deletejob-jids s pid h distinct done =
    let (r, f, d) = deletejob_lem s pid h in Deletes-jids s r _ distinct d done

Adds-reuse :
    (s : Shell) (j : Job) (r : Option ℕ) (out : Shell × ℕ)
    → All SlotOk s.jobs
    → 0 < j.jid
    → 0 < count (has_jid j.jid) s.jobs
    → Finds (has_pid 0) s.jobs r
    → Adds s j r out
    → 0 < out.1
    → ¬ (DistinctJids out.0.jobs)
Adds-reuse s j none out ok h used f a done distinct = absurd (omega (arith, a.1))
Adds-reuse s j (some i) out ok h used (x, at, free, _) a done distinct =
    let e = (All-get SlotOk s.jobs i ok at).free ((==_iff x.pid 0).0 free) in
    ground (arith, count-set (has_jid j.jid) s.jobs i j at, distinct j.jid h, a.0, e)

-- With a job under the id `nextjid` the next one that is added gets the same.
reuses_jid :
    (s : Shell) (pid : ℕ) (state : JobState) (cmdline : Str)
    → 0 < pid
    → All SlotOk s.jobs
    → 0 < s.nextjid
    → 0 < count (has_jid s.nextjid) s.jobs
    → 0 < (addjob s pid state cmdline).1
    → ¬ (DistinctJids (addjob s pid state cmdline).0.jobs)
reuses_jid s pid state cmdline h ok p used done =
    let (r, f, a) = addjob_lem s pid state cmdline h in
    Adds-reuse s (new_job s pid state cmdline) r _ ok p used f a done

-- From `maxjobs` on `nextjid` wraps, and the job that has the id 1 stays.
Adds-wraps :
    (s : Shell) (new : Job) (r : Option ℕ) (out : Shell × ℕ)
    → SlotOk new
    → maxjobs ≤ s.nextjid
    → All SlotOk s.jobs
    → 0 < count (has_jid 1) s.jobs
    → Finds (has_pid 0) s.jobs r
    → Adds s new r out
    → 0 < out.1
    → (out.0.nextjid ≡ 1) × All SlotOk out.0.jobs × (0 < count (has_jid 1) out.0.jobs)
Adds-wraps s new none out v wraps ok used f a done = absurd (omega (arith, a.1))
Adds-wraps s new (some i) out v wraps ok used (x, at, free, _) a done =
    let e = (All-get SlotOk s.jobs i ok at).free ((==_iff x.pid 0).0 free) in
    (
      rw (a.1) (ground arith),
      rw (a.0) (All-set SlotOk s.jobs i new ok v),
      rw (a.0) (ground (arith, count-set (has_jid 1) s.jobs i new at, e)),
    )

-- Where `nextjid` is `maxjobs` or more and the job with the id 1 is still in a well formed table, two
-- calls of `addjob` that succeed leave two jobs with the same id: the first wraps `nextjid` to 1.
pub addjob_reuses_jid :
    (s : Shell) (pid pid' : ℕ) (state state' : JobState) (cmdline cmdline' : Str)
    → 0 < pid
    → 0 < pid'
    → state ≢ undef
    → All SlotOk s.jobs
    → maxjobs ≤ s.nextjid
    → 0 < count (has_jid 1) s.jobs
    → 0 < (addjob s pid state cmdline).1
    → 0 < (addjob (addjob s pid state cmdline).0 pid' state' cmdline').1
    → ¬ (DistinctJids (addjob (addjob s pid state cmdline).0 pid' state' cmdline').0.jobs)
addjob_reuses_jid s pid pid' state state' cmdline cmdline' h h' ne ok wraps used done done' =
    let (r, f, a) = addjob_lem s pid state cmdline h in
    let new = new_job s pid state cmdline in
    let (one, ok', used') =
      Adds-wraps s new r _ (in_use-SlotOk new h (omega arith) ne) wraps ok used f a done in
    reuses_jid (addjob s pid state cmdline).0 pid' state' cmdline' h' ok' (omega arith)
      (rw one used') done'
