-- ===== src/Shell/Job/Count.antt =====
-- How many slots of a table pass a test, and how a write to one slot changes that.
use ics.Common.{
  ℕ, zero, suc, ◌+◌, ◌≤◌, ◌<◌, ◌≡◌, Bool, true, false, some, List, [], ◌∷◌, arith, get_elem?, set,
}
use ics.Shell.Job.{is_fg, Job}

-- 1 for a slot that passes.
abbrev pub weight : Bool → ℕ
weight true = 1
weight false = 0

unfoldable pub count : (Job → Bool) → List Job → ℕ
count p [] = 0
count p (j ∷ js) = weight (p j) + count p js

-- Writing a slot exchanges the weight of what stood there for that of the new job.
pub count-set :
    (p : Job → Bool) (js : List Job) (i : ℕ) (new : Job) {old : Job}
    → get_elem? js i ≡ some old
    → count p (set js i new) + weight (p old) ≡ count p js + weight (p new)
unfolding count
count-set p [] i new h = ground arith
count-set p (j ∷ js) zero new h = ground arith
count-set p (j ∷ js) (suc i) new h = omega (arith, count-set p js i new h)

-- A slot that passes is counted.
pub count_pos :
    (p : Job → Bool) (js : List Job) (i : ℕ) {j : Job}
    → get_elem? js i ≡ some j
    → p j ≡ true
    → 0 < count p js
unfolding count
count_pos p [] i h e = ground arith
count_pos p (x ∷ js) zero h e = ground arith
count_pos p (x ∷ js) (suc i) h e = omega (arith, count_pos p js i h e)

abbrev pub in_foreground : Job → Bool
in_foreground j = is_fg j.state

abbrev pub fg_count : List Job → ℕ
fg_count js = count in_foreground js

-- A write adds at most the weight of the new job.
pub count-set_le :
    (p : Job → Bool) (js : List Job) (i : ℕ) (new : Job)
    → count p (set js i new) ≤ count p js + weight (p new)
unfolding count
count-set_le p [] i new = ground arith
count-set_le p (j ∷ js) zero new = ground arith
count-set_le p (j ∷ js) (suc i) new = omega (arith, count-set_le p js i new)
