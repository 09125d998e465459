-- ===== src/Malloc/Tree/Paint.antt =====
-- A new color of a node, the side that a node hangs on, and addresses in a tree of malloclab/mm.c.
use mathlib.Core.Path.{subst}
use ics.Common.{ℕ, ◌≤◌, ◌≡◌, refl, sym, ◌∙◌, ◌≢◌, ◌⊎◌, inl, inr, arith}
use ics.Bytes.{Buffer}
use ics.Malloc.Tree.{other, rbnull, rb_which, Which, rb_left, rb_right}
use ics.Malloc.Tree.Links.{put_color, Links}
use ics.Malloc.Tree.Nodes.{Holds}
use ics.Malloc.Tree.Focus.{
  side, occurs, occurs_above, Hangs, Under, Hangs-side, side-Hangs, Hangs-node, Hangs-kept,
  Under-kept, Hangs-head, Under-head, Under-node, RbTree, Above, whole, below,
}
use ics.Malloc.Tree.Turned.{OnSide}

module _ (N : ℕ → Type 0) (real : (k : ℕ) → N k → k ≢ rbnull) where
  pub Hangs-put_color :
      (l : Links) (t : RbTree) (p n k v : ℕ)
      → occurs k t ≡ 0
      → Hangs N real l p n t
      → Hangs N real (put_color l k v) p n t
  Hangs-put_color l t p n k v o h = Hangs-kept N real l (put_color l k v) t p n h (λ j o'.
      let ne : j ≢ k = λ e. let o'' = subst (λ x. 1 ≤ occurs x t) e o' in omega arith in
      (refl, ground arith, λ w. refl))

  pub Under-put_color :
      (l : Links) (up : Above) (p n k v : ℕ)
      → occurs_above k up ≡ 0
      → Under N real l p n up
      → Under N real (put_color l k v) p n up
  Under-put_color l up p n k v o h = Under-kept N real l (put_color l k v) up p n h refl (λ j o'.
      let ne : j ≢ k = λ e. let o'' = subst (λ x. 1 ≤ occurs_above x up) e o' in omega arith in
      (refl, ground arith, λ w. refl))

  pub Hangs-painted :
      (l : Links) (w : Which) (p i n c v : ℕ) (x y : RbTree)
      → occurs n x ≡ 0
      → occurs n y ≡ 0
      → Hangs N real l p i (side w c n x y)
      → Hangs N real (put_color l n v) p i (side w v n x y)
  Hangs-painted l w p i n c v x y o o' h =
      let (e, at, q, r, s, t) = Hangs-side N real l w p i c n x y h in
      side-Hangs N real (put_color l n v) w p i v n x y e at q (ground arith)
        (Hangs-put_color l x n _ n v o s) (Hangs-put_color l y n _ n v o' t)

  pub Hangs-Address : (l : Links) (t : RbTree) (p n : ℕ) → Hangs N real l p n t → (n ≡ rbnull) ⊎ N n
  Hangs-Address l t p n h = elim (Hangs-head N real l t p n h) [
    | inl z ↦ inl z
    | inr o ↦ inr (Hangs-node N real l t p n n h o)
  ]

  pub Under-Address :
      (l : Links) (up : Above) (p n : ℕ) → Under N real l p n up → (p ≡ rbnull) ⊎ N p
  Under-Address l up p n h = elim (Under-head N real l up p n h) [
    | inl z ↦ inl z
    | inr o ↦ inr (Under-node N real l up p n p h o)
  ]

  -- A node that is not in a tree is not its number.
  pub head_apart :
      (l : Links) (t : RbTree) (p n k : ℕ) → Hangs N real l p n t → N k → occurs k t ≡ 0 → k ≢ n
  head_apart l t p n k h at o e = elim (Hangs-head N real l t p n h) [
    | inl z ↦ real k at (e ∙ z)
    | inr o' ↦ let o'' : 1 ≤ occurs k t = subst (λ x. 1 ≤ occurs x t) (sym e) o' in omega arith
  ]

  -- The root is the tree or a node above it.
  root_place :
      (l : Links) (up : Above) (p n : ℕ)
      → Under N real l p n up
      → (l.root ≡ n) ⊎ (1 ≤ occurs_above l.root up)
  root_place l whole p n h = inl h.1
  root_place l (below w c k s up) p n (e, at, q, r, h, u) =
      inr (elim (root_place l up (l.parent k) k u) [ inl z ↦ ground arith | inr o ↦ omega arith ])

  -- A node below another is not the root.
  pub below_root :
      (l : Links) (w : Which) (c k : ℕ) (s : RbTree) (up : Above) (p n : ℕ)
      → Under N real l p n (below w c k s up)
      → occurs_above n (below w c k s up) ≡ 0
      → n ≢ l.root
  below_root l w c k s up p n (e, at, q, r, h, u) o z = elim (root_place l up (l.parent k) k u) [
    | inl i ↦ ground arith
    | inr o' ↦
        let o'' : 1 ≤ occurs_above n up = subst (λ x. 1 ≤ occurs_above x up) (sym z) o' in
        omega arith
  ]

  module _ (V : ℕ → ℕ) (lo : ℕ) (m : Buffer) (l : Links) (hold : Holds N V lo m l) where
    pub rb_which-child :
        (w : Which) (n p : ℕ) → N p → l.child w p ≡ n → n ≢ l.child (other w) p → rb_which m n p ≡ w
    unfolding rb_which
    rb_which-child rb_left n p at e ne = rw (hold.child_is rb_left p at) (ground arith)
    rb_which-child rb_right n p at e ne = rw (hold.child_is rb_left p at) (ground arith)

    pub rb_which-OnSide :
        (up : Above) (p n : ℕ)
        → Under N real l p n up
        → N n
        → occurs_above n up ≡ 0
        → OnSide (rb_which m n p) up
    rb_which-OnSide whole p n u at o = tt
    rb_which-OnSide (below w c k s up) p n (e, at', q, r, h, u) at o =
        rw e (rb_which-child w n k at' r (head_apart l s k _ n h at (omega arith)))
