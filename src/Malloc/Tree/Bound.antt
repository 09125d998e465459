-- ===== src/Malloc/Tree/Bound.antt =====
-- The best fit: what `rb_lower_bound` finds in a search tree.
use mathlib.Core.Path.{subst}
use ics.Common.{
  ℕ, zero, suc, ◌+◌, ◌≤◌, ◌<◌, max, ◌≡◌, refl, sym, ◌≢◌, ◌⊎◌, inl, inr, true, false, some, arith,
  leb, ◌==◌, ==_iff, Bool-cases,
}
use ics.Bytes.{Buffer}
use ics.Malloc.Tree.{
  rbnull, rb_child, rb_value, lower_loop, rbroot, rb_lower_bound, rb_left, rb_right,
}

-- The nodes of a tree, as the headers link them.
pub data Shape : Type 0 where
  leaf : Shape
  branch : ℕ → Shape → Shape → Shape

abbrev pub depth : Shape → ℕ
depth leaf = 0
depth (branch n l r) = 1 + max (depth l) (depth r)

-- The tree at `node` in memory has this shape.
abbrev pub Linked : Buffer → ℕ → Shape → Type 0
Linked m node leaf = node ≡ rbnull
Linked m node (branch n l r) =
    (node ≡ n)
    × (n ≢ rbnull)
    × Linked m (rb_child m n rb_left) l
    × Linked m (rb_child m n rb_right) r

-- Every node of the tree satisfies `P`.
abbrev pub Every : (ℕ → Type 0) → Shape → Type 0
Every P leaf = Unit
Every P (branch n l r) = P n × Every P l × Every P r

abbrev pub Member : ℕ → Shape → Type 0
Member x leaf = ⊥
Member x (branch n l r) = (x ≡ n) ⊎ (Member x l ⊎ Member x r)

-- No length on the left is greater than the node's, and none on the right is less.
abbrev pub Ordered : Buffer → Shape → Type 0
Ordered m leaf = Unit
Ordered m (branch n l r) =
    Every (λ x. rb_value m x ≤ rb_value m n) l
    × Every (λ x. rb_value m n ≤ rb_value m x) r
    × Ordered m l
    × Ordered m r

-- `r` is `result` where every length is less than `value`, and else a shortest node that is not.
abbrev pub BestFit : Buffer → ℕ → Shape → ℕ → ℕ → Type 0
BestFit m value s result r =
    ((r ≡ result) × Every (λ x. rb_value m x < value) s)
    ⊎ (Member r s
        × (value ≤ rb_value m r)
        × Every (λ x. value ≤ rb_value m x → rb_value m r ≤ rb_value m x) s)

module _ (P Q : ℕ → Type 0) (h : (x : ℕ) → P x → Q x) where
  Every-map : (s : Shape) → Every P s → Every Q s
  Every-map leaf e = tt
  Every-map (branch n l r) (p, a, b) = (h n p, Every-map l a, Every-map r b)

Every-Member : (P : ℕ → Type 0) (s : Shape) (x : ℕ) → Every P s → Member x s → P x
Every-Member P leaf x e k = absurd k
Every-Member P (branch n l r) x (p, a, b) (inl q) = subst P (sym q) p
Every-Member P (branch n l r) x (p, a, b) (inr (inl k)) = Every-Member P l x a k
Every-Member P (branch n l r) x (p, a, b) (inr (inr k)) = Every-Member P r x b k

module _ (m : Buffer) (value n : ℕ) (l r : Shape) where
  abbrev V : ℕ → ℕ
  V x = rb_value m x

  fit_left :
      (result found : ℕ)
      → Ordered m (branch n l r)
      → value ≤ rb_value m n
      → BestFit m value l n found
      → BestFit m value (branch n l r) result found
  fit_left result found (below, above, ol, or) le (inl (e, less)) = inr (
    inl e,
    rw e le,
    (
      λ q. rw e (omega arith),
      Every-map _ _ (λ x lt k. absurd (omega arith)) l less,
      Every-map _ _ (λ x ge k. rw e ge) r above,
    ),
  )
  fit_left result found (below, above, ol, or) le (inr (k, fit, best)) =
      let top : rb_value m found ≤ rb_value m n = Every-Member _ l found below k in
      inr (inr (inl k), fit, (λ q. top, best, Every-map _ _ (λ x ge q. omega arith) r above))

  fit_right :
      (result found : ℕ)
      → Ordered m (branch n l r)
      → rb_value m n < value
      → BestFit m value r result found
      → BestFit m value (branch n l r) result found
  fit_right result found (below, above, ol, or) lt (inl (e, less)) =
      inl (e, (lt, Every-map _ _ (λ x le. omega arith) l below, less))
  fit_right result found (below, above, ol, or) lt (inr (k, fit, best)) = inr (
    inr (inr k),
    fit,
    (λ q. absurd (omega arith), Every-map _ _ (λ x le q. absurd (omega arith)) l below, best),
  )

lower_loop-BestFit :
    (fuel : ℕ) (m : Buffer) (node result value : ℕ) (s : Shape)
    → depth s < fuel
    → Linked m node s
    → Ordered m s
    → (r : ℕ) × (lower_loop fuel m node result value ≡ some r) × BestFit m value s result r
unfolding lower_loop
lower_loop-BestFit zero m node result value s h k o = absurd (omega arith)
lower_loop-BestFit (suc fuel) m node result value leaf h k o =
    let t : (node == rbnull) ≡ true = (==_iff node rbnull).1 k in (result, rw t, inl (refl, tt))
lower_loop-BestFit (suc fuel) m node result value (branch n l r) h (e, ne, kl, kr) o =
    let t : (node == rbnull) ≡ false = grind arith in
    elim (Bool-cases (leb value (rb_value m node))) [
      | inl yes' ↦
          let (x, p, b) =
            lower_loop-BestFit fuel m (rb_child m node rb_left) node value l (omega arith) (rw e kl)
              o.2 in
          (x, rw (t, yes') p, fit_left m value n l r result x o (ground arith) (rw (← e) b))
      | inr no' ↦
          let (x, p, b) =
            lower_loop-BestFit fuel m (rb_child m node rb_right) result value r (omega arith)
              (rw e kr) o.3 in
          (x, rw (t, no') p, fit_right m value n l r result x o (ground arith) b)
    ]

-- In a search tree of free blocks, with fuel for its depth, `rb_lower_bound` ends with a shortest
-- block whose length is at least `value`, or with `rbnull` where every block is shorter.
pub rb_lower_bound-BestFit :
    (lo fuel : ℕ) (m : Buffer) (value : ℕ) (s : Shape)
    → depth s < fuel
    → Linked m (rbroot lo m) s
    → Ordered m s
    → (r : ℕ) × (rb_lower_bound lo fuel m value ≡ some r) × BestFit m value s rbnull r
unfolding rb_lower_bound
rb_lower_bound-BestFit lo fuel m value s h k o =
    lower_loop-BestFit fuel m (rbroot lo m) rbnull value s h k o
