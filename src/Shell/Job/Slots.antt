-- ===== src/Shell/Job/Slots.antt =====
-- Which slots of a table are well formed.
use ics.Common.{◌<◌, ◌≡◌, refl, ◌≢◌, inl, inr, true, arith, ◌==◌, Bool-cases}
use ics.Shell.Job.{is_fg, cleared, Job, undef}

-- A slot that is not in use is clear, and one in use has a job id and a state.
pub record SlotOk (j : Job) : Type 0 where
  pub free : j.pid ≡ 0 → j ≡ cleared
  pub used : 0 < j.pid → (0 < j.jid) × (j.state ≢ undef)

pub cleared-SlotOk : SlotOk cleared
cleared-SlotOk = record { free = λ e. refl; used = λ h. absurd (omega arith) }

-- A job with an id and a state may stand in a slot.
pub in_use-SlotOk : (j : Job) → 0 < j.pid → 0 < j.jid → j.state ≢ undef → SlotOk j
in_use-SlotOk j p q h = record { free = λ e. absurd (omega arith); used = λ _. (q, h) }

-- A slot in the foreground is in use.
pub fg_in_use : {j : Job} → SlotOk j → is_fg j.state ≡ true → 0 < j.pid
fg_in_use {j} v h = elim (Bool-cases (j.pid == 0)) [
  | inl e ↦ ground (arith, v.free)
  | inr e ↦ ground arith
]
