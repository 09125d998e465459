-- ===== src/Shell/Job/Find.antt =====
-- What the searches through a job table return.
use ics.Common.{
  ℕ, zero, suc, ◌<◌, ◌≡◌, refl, inl, inr, Bool, true, false, Option, none, some, List, [], ◌∷◌,
  arith, suc_not_lt_one, Bool-cases, get_elem?, All, pos,
}
use ics.Shell.Job.{is_fg, find_slot, has_pid, has_jid, fgpid, getjobpid, getjobjid, jid_of, Job}
use ics.Shell.Job.Count.{count, fg_count}
use ics.Shell.Job.Slots.{SlotOk, fg_in_use}
use mathlib.Core.Option

-- `r` is the index of the first slot that passes, and `none` if none does.
abbrev pub Finds : (Job → Bool) → List Job → Option ℕ → Type 0
Finds p js none = (i : ℕ) (j : Job) → get_elem? js i ≡ some j → p j ≡ false
Finds p js (some i) =
    (j : Job) × (get_elem? js i ≡ some j)
    × (p j ≡ true)
    × ((k : ℕ) (x : Job) → k < i → get_elem? js k ≡ some x → p x ≡ false)

Finds-here : (p : Job → Bool) (j : Job) (js : List Job) → p j ≡ true → Finds p (j ∷ js) (some 0)
Finds-here p j js h = (j, refl, h, λ k x lt e. absurd (omega arith))

Finds-there :
    (p : Job → Bool) (j : Job) (js : List Job) (r : Option ℕ)
    → p j ≡ false
    → Finds p js r
    → Finds p (j ∷ js) (Option.map suc r)
Finds-there p j js none h f = elim [ zero ↦ λ x e. ground arith | suc i ↦ λ x e. f i x e ]
Finds-there p j js (some i) h (y, at, pass, before) = (
  y,
  at,
  pass,
  elim [ zero ↦ λ x lt e. ground arith | suc k ↦ λ x lt e. before k x (omega arith) e ],
)

pub find_slot-Finds : (p : Job → Bool) (js : List Job) → Finds p js (find_slot p js)
unfolding find_slot
find_slot-Finds p [] = λ i j e. cc
find_slot-Finds p (j ∷ js) = elim (Bool-cases (p j)) [
  | inl e ↦ rw e (Finds-here p j js e)
  | inr e ↦ rw e (Finds-there p j js (find_slot p js) e (find_slot-Finds p js))
]

-- For a positive process id `getjobpid` finds the first slot that holds it, or none if no slot does.
pub getjobpid-Finds :
    (js : List Job) (pid : ℕ) → 0 < pid → Finds (has_pid pid) js (getjobpid js (pos pid))
unfolding getjobpid
getjobpid-Finds js zero h = elim h [ ]
getjobpid-Finds js (suc pid) h = rw (suc_not_lt_one pid) (find_slot-Finds (has_pid (suc pid)) js)

pub getjobjid-Finds :
    (js : List Job) (jid : ℕ) → 0 < jid → Finds (has_jid jid) js (getjobjid js (pos jid))
unfolding getjobjid
getjobjid-Finds js zero h = elim h [ ]
getjobjid-Finds js (suc jid) h = rw (suc_not_lt_one jid) (find_slot-Finds (has_jid (suc jid)) js)

-- The loop of `pid2jid` reads the id of the slot that `find_slot` finds.
jid_of-find_slot :
    (js : List Job) (pid : ℕ)
    → jid_of js pid ≡ elim (find_slot (has_pid pid) js) [
      | none ↦ 0
      | some i ↦ elim (get_elem? js i) [ none ↦ 0 | some j ↦ j.jid ]
    ]
unfolding jid_of find_slot
jid_of-find_slot [] pid = refl
jid_of-find_slot (j ∷ js) pid = ground (arith, jid_of-find_slot js pid)

-- With no slot in the foreground `fgpid` is 0.
pub fgpid-eq-zero : (js : List Job) → fg_count js ≡ 0 → fgpid js ≡ 0
unfolding fgpid count
fgpid-eq-zero [] h = refl
fgpid-eq-zero (j ∷ js) h = ground (arith, fgpid-eq-zero js)

-- Where the slots are well formed and one is in the foreground, `fgpid` is positive.
pub fgpid_pos : (js : List Job) → All SlotOk js → 0 < fg_count js → 0 < fgpid js
unfolding fgpid count
fgpid_pos [] v h = absurd (omega arith)
fgpid_pos (j ∷ js) v h = ground (arith, fgpid_pos js, fg_in_use v.0)

-- `fgpid` is the process id of a slot in the foreground, if it is not 0.
pub fgpid-fg :
    (js : List Job)
    → 0 < fgpid js
    → (i : ℕ) × (j : Job) × (get_elem? js i ≡ some j) × (is_fg j.state ≡ true) × (fgpid js ≡ j.pid)
unfolding fgpid
fgpid-fg [] h = absurd (omega arith)
fgpid-fg (j ∷ js) h = elim (Bool-cases (is_fg j.state)) [
  | inl e ↦ (0, j, refl, e, rw e)
  | inr e ↦ let (i, x, at, f, q) = fgpid-fg js (ground arith) in (suc i, x, at, f, ground arith)
]
