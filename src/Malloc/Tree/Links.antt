-- ===== src/Malloc/Tree/Links.antt =====
-- The links of the tree in malloclab/mm.c as functions of the node, and updates of them.
use ics.Common.{ℕ, ◌≡◌, ◌≢◌, ◌⊎◌, inl, inr, true, false, ◌==◌, if◌then◌else◌, ==_iff, Bool-cases}
use ics.Malloc.Tree.{same_which, Which}

pub record Links : Type 0 where
  pub parent : ℕ → ℕ
  pub child : Which → ℕ → ℕ
  pub color : ℕ → ℕ
  pub root : ℕ

abbrev pub put_parent : Links → ℕ → ℕ → Links
put_parent l n v = record l { parent = λ k. if k == n then v else l.parent k }

abbrev pub put_child : Links → ℕ → Which → ℕ → Links
put_child l n w v = record l {
  child = λ w' k. if k == n then if same_which w' w then v else l.child w' k else l.child w' k;
}

abbrev pub put_color : Links → ℕ → ℕ → Links
put_color l n v = record l { color = λ k. if k == n then v else l.color k }

abbrev pub put_root : Links → ℕ → Links
put_root l v = record l { root = v }

-- Two nodes are equal or not.
pub node_cases : (k n : ℕ) → ((k ≡ n) × (k == n ≡ true)) ⊎ ((k ≢ n) × (k == n ≡ false))
node_cases k n = elim (Bool-cases (k == n)) [
  | inl t ↦ inl ((==_iff k n).0 t, t)
  | inr t ↦ inr (λ e. cc ((==_iff k n).1 e), t)
]
