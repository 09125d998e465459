-- ===== src/Malloc/Tree/Focus.antt =====
-- A tree of nodes and what lies above it, as the links of malloclab/mm.c tie them.
use mathlib.Core.Path.{subst}
use ics.Common.{
  ℕ, zero, suc, ◌+◌, ◌≤◌, ◌≡◌, refl, sym, ap, ◌∙◌, ◌≢◌, ◌⊎◌, inl, inr, arith, ◌==◌, if◌then◌else◌,
}
use ics.Malloc.Tree.{other, rbnull, Which, rb_left, rb_right}
use ics.Malloc.Tree.Links.{node_cases, Links}

-- A color, a node, and what hangs on its left and its right.
pub data RbTree : Type 0 where
  empty : RbTree
  tree : ℕ → ℕ → RbTree → RbTree → RbTree

-- What lies above a tree: the side it hangs on, the color and the node there, and what hangs on
-- the other side.
pub data Above : Type 0 where
  whole : Above
  below : Which → ℕ → ℕ → RbTree → Above → Above

-- The tree on the left, if the first is on the side `w`.
abbrev pub at_left : Which → RbTree → RbTree → RbTree
at_left rb_left x y = x
at_left rb_right x y = y

-- The first tree hangs on the side `w`.
abbrev pub side : Which → ℕ → ℕ → RbTree → RbTree → RbTree
side w c n x y = tree c n (at_left w x y) (at_left w y x)

-- How often a node occurs.
abbrev pub occurs : ℕ → RbTree → ℕ
occurs k empty = 0
occurs k (tree c n a b) = (if k == n then 1 else 0) + occurs k a + occurs k b

abbrev pub occurs_above : ℕ → Above → ℕ
occurs_above k whole = 0
occurs_above k (below w c n s up) = (if k == n then 1 else 0) + occurs k s + occurs_above k up

pub occurs-side :
    (w : Which) (k c n : ℕ) (x y : RbTree)
    → occurs k (side w c n x y) ≡ (if k == n then 1 else 0) + occurs k x + occurs k y
occurs-side rb_left k c n x y = refl
occurs-side rb_right k c n x y = omega arith

some_occurrence : (x y : ℕ) → 1 ≤ x + y → (1 ≤ x) ⊎ (1 ≤ y)
some_occurrence zero y o = inr (omega arith)
some_occurrence (suc x) y o = inl (omega arith)

-- The nodes are the numbers with `N`.
module _ (N : ℕ → Type 0) (real : (k : ℕ) → N k → k ≢ rbnull) where
  -- The tree hangs at `n` below `p`.
  abbrev pub Hangs : Links → ℕ → ℕ → RbTree → Type 0
  Hangs l p n empty = n ≡ rbnull
  Hangs l p n (tree c k a b) =
      (n ≡ k)
      × N k
      × (l.parent k ≡ p)
      × (l.color k ≡ c)
      × Hangs l k (l.child rb_left k) a
      × Hangs l k (l.child rb_right k) b

  -- `n` is below `p`, with this above it.
  abbrev pub Under : Links → ℕ → ℕ → Above → Type 0
  Under l p n whole = (p ≡ rbnull) × (l.root ≡ n)
  Under l p n (below w c k s up) =
      (p ≡ k)
      × N k
      × (l.color k ≡ c)
      × (l.child w k ≡ n)
      × Hangs l k (l.child (other w) k) s
      × Under l (l.parent k) k up

  pub Hangs-side :
      (l : Links) (w : Which) (p n c k : ℕ) (x y : RbTree)
      → Hangs l p n (side w c k x y)
      → (n ≡ k)
        × N k
        × (l.parent k ≡ p)
        × (l.color k ≡ c)
        × Hangs l k (l.child w k) x
        × Hangs l k (l.child (other w) k) y
  Hangs-side l rb_left p n c k x y h = h
  Hangs-side l rb_right p n c k x y (e, at, q, r, s, t) = (e, at, q, r, t, s)

  pub side-Hangs :
      (l : Links) (w : Which) (p n c k : ℕ) (x y : RbTree)
      → n ≡ k
      → N k
      → l.parent k ≡ p
      → l.color k ≡ c
      → Hangs l k (l.child w k) x
      → Hangs l k (l.child (other w) k) y
      → Hangs l p n (side w c k x y)
  side-Hangs l rb_left p n c k x y e at q r s t = (e, at, q, r, s, t)
  side-Hangs l rb_right p n c k x y e at q r s t = (e, at, q, r, t, s)

  -- Every node of a tree is one.
  pub Hangs-node : (l : Links) (t : RbTree) (p n k : ℕ) → Hangs l p n t → 1 ≤ occurs k t → N k
  Hangs-node l empty p n k h o = absurd (omega arith)
  Hangs-node l (tree c j a b) p n k (e, at, q, r, s, t) o = elim (node_cases k j) [
    | inl (i, u) ↦ rw i at
    | inr (i, u) ↦ elim (some_occurrence (occurs k a) (occurs k b) (ground arith)) [
      | inl v ↦ Hangs-node l a j (l.child rb_left j) k s v
      | inr v ↦ Hangs-node l b j (l.child rb_right j) k t v
    ]
  ]

  module _ (l l' : Links) where
    -- The node has the same links.
    abbrev pub Unchanged : ℕ → Type 0
    Unchanged k =
        (l'.parent k ≡ l.parent k)
        × (l'.color k ≡ l.color k)
        × ((w : Which) → l'.child w k ≡ l.child w k)

    pub Hangs-kept :
        (t : RbTree) (p n : ℕ)
        → Hangs l p n t
        → ((k : ℕ) → 1 ≤ occurs k t → Unchanged k)
        → Hangs l' p n t
    Hangs-kept empty p n h same = h
    Hangs-kept (tree c j a b) p n (e, at, q, r, s, t) same =
        let (x, y, z) = same j (ground arith) in
        (
          e,
          at,
          x ∙ q,
          y ∙ r,
          rw (z rb_left) (Hangs-kept a j _ s (λ k o. same k (omega arith))),
          rw (z rb_right) (Hangs-kept b j _ t (λ k o. same k (omega arith))),
        )

    -- Only the parent of the topmost node is another.
    pub Hangs-moved :
        (t : RbTree) (p p' n : ℕ)
        → ((k : ℕ) → occurs k t ≤ 1)
        → Hangs l p n t
        → (n ≢ rbnull → l'.parent n ≡ p')
        → ((k : ℕ)
            → 1 ≤ occurs k t
            → (k ≢ n → l'.parent k ≡ l.parent k)
              × (l'.color k ≡ l.color k)
              × ((w : Which) → l'.child w k ≡ l.child w k))
        → Hangs l' p' n t
    Hangs-moved empty p p' n once h top same = h
    Hangs-moved (tree c j a b) p p' n once (e, at, q, r, s, t) top same =
        let (x, y, z) = same j (ground arith) in
        let top_once : occurs j a + occurs j b ≡ 0 = ground (arith, once j) in
        let inner : (k : ℕ) → 1 ≤ occurs k a + occurs k b → Unchanged k = λ k o.
          let (x', y', z') = same k (omega arith) in
          (
            x' (λ i. let o' = subst (λ x. 1 ≤ occurs x a + occurs x b) (i ∙ e) o in omega arith),
            y',
            z',
          ) in
        (
          e,
          at,
          ap l'.parent (sym e) ∙ top (λ i. real j at (sym e ∙ i)),
          y ∙ r,
          rw (z rb_left) (Hangs-kept a j _ s (λ k o. inner k (omega (arith, o)))),
          rw (z rb_right) (Hangs-kept b j _ t (λ k o. inner k (omega arith))),
        )

    pub Under-kept :
        (up : Above) (p n : ℕ)
        → Under l p n up
        → l'.root ≡ l.root
        → ((k : ℕ) → 1 ≤ occurs_above k up → Unchanged k)
        → Under l' p n up
    Under-kept whole p n (e, f) root same = (e, root ∙ f)
    Under-kept (below w c j s up) p n (e, at, q, r, h, u) root same =
        let (x, y, z) = same j (ground arith) in
        (
          e,
          at,
          y ∙ q,
          z w ∙ r,
          rw (z (other w)) (Hangs-kept s j _ h (λ k o. same k (omega arith))),
          rw x (Under-kept up (l.parent j) j u root (λ k o. same k (omega arith))),
        )

    -- What is above has `n'` in place of `n`.
    abbrev pub Hooked : ℕ → Above → Type 0
    Hooked n' whole = l'.root ≡ n'
    Hooked n' (below w c k s up) =
        (l'.root ≡ l.root)
        × (l'.parent k ≡ l.parent k)
        × (l'.child w k ≡ n')
        × (l'.child (other w) k ≡ l.child (other w) k)

    pub Under-moved :
        (up : Above) (p n n' : ℕ)
        → ((k : ℕ) → occurs_above k up ≤ 1)
        → Under l p n up
        → Hooked n' up
        → ((k : ℕ) → 1 ≤ occurs_above k up → l'.color k ≡ l.color k)
        → ((k : ℕ) → 1 ≤ occurs_above k up → k ≢ p → Unchanged k)
        → Under l' p n' up
    Under-moved whole p n n' once (e, f) hook colors same = (e, hook)
    Under-moved (below w c j s up) p n n' once (e, at, q, r, h, u) (root, x, y, z) colors same =
        let top_once : occurs j s + occurs_above j up ≡ 0 = ground (arith, once j) in
        let inner : (k : ℕ) → 1 ≤ occurs k s + occurs_above k up → Unchanged k = λ k o.
          same k (omega arith) (λ i.
            let o' = subst (λ x. 1 ≤ occurs x s + occurs_above x up) (i ∙ e) o in omega arith) in
        (
          e,
          at,
          colors j (ground arith) ∙ q,
          y,
          rw z (Hangs-kept s j _ h (λ k o. inner k (omega arith))),
          rw x (Under-kept up (l.parent j) j u root (λ k o. inner k (omega arith))),
        )

  -- The number of a tree is the null node or occurs in it.
  pub Hangs-head :
      (l : Links) (t : RbTree) (p n : ℕ) → Hangs l p n t → (n ≡ rbnull) ⊎ (1 ≤ occurs n t)
  Hangs-head l empty p n h = inl h
  Hangs-head l (tree c j a b) p n (e, at, q, r, s, t) = inr (ground arith)

  pub Under-head :
      (l : Links) (up : Above) (p n : ℕ) → Under l p n up → (p ≡ rbnull) ⊎ (1 ≤ occurs_above p up)
  Under-head l whole p n h = inl h.0
  Under-head l (below w c j s up) p n (e, at, q, r, h, u) = inr (ground arith)

  pub Under-node :
      (l : Links) (up : Above) (p n k : ℕ) → Under l p n up → 1 ≤ occurs_above k up → N k
  Under-node l whole p n k h o = absurd (omega arith)
  Under-node l (below w c j s up) p n k (e, at, q, r, h, u) o = elim (node_cases k j) [
    | inl (i, t) ↦ rw i at
    | inr (i, t) ↦ elim (some_occurrence (occurs k s) (occurs_above k up) (ground arith)) [
      | inl v ↦ Hangs-node l s j (l.child (other w) j) k h v
      | inr v ↦ Under-node l up (l.parent j) j k u v
    ]
  ]
