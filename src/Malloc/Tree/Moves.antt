-- ===== src/Malloc/Tree/Moves.antt =====
-- Steps at a place in the tree of malloclab/mm.c: to a child, a new color, what is read there.
use mathlib.Core.Path.{subst}
use ics.Common.{
  ℕ, ◌+◌, ◌≤◌, ◌<◌, ◌≡◌, refl, sym, ◌∙◌, ◌≢◌, true, arith, ◌==◌, if◌then◌else◌, ==_iff,
}
use ics.Malloc.Tree.RedBlack.{color_of}
use ics.Bytes.{Buffer}
use ics.Malloc.Tree.{
  rb_black, rbnull, rb_parent, rb_child, rb_color, rb_set_color, rb_which, rbroot, Which, rb_left,
}
use ics.Malloc.Tree.Focus.{
  side, occurs, occurs_above, occurs-side, Hangs-side, RbTree, Above, empty, tree, whole, below,
}
use ics.Malloc.Tree.Links.{put_color, Links}
use ics.Malloc.Tree.Marks.{color-Holds}
use ics.Malloc.Tree.BlackUncle.{Placed}
use ics.Malloc.Tree.Paint.{Under-put_color, Hangs-painted, rb_which-OnSide}
use ics.Malloc.Tree.Turned.{OnSide}

module _ (N : ℕ → Type 0) (V : ℕ → ℕ) (lo : ℕ) (real : (k : ℕ) → N k → k ≢ rbnull) where
  -- A node by its children on a side and on the other.
  module _ (m : Buffer) (l : Links) (w : Which) (p c k : ℕ) (x s : RbTree) (up : Above)
      (at : Placed N V lo real m l p k (side w c k x s) up) where
    pub node_here : N k
    node_here = let (e, at_k, q, r, hx, hs) = Hangs-side N real l w p k c k x s at.hangs in at_k

    sum : (j : ℕ) → (if j == k then 1 else 0) + occurs j x + occurs j s + occurs_above j up ≤ 1
    sum j = let o = at.once j in let e' = occurs-side w j c k x s in omega (arith, o, e')

    pub to_child : Placed N V lo real m l k (l.child w k) x (below w c k s up)
    to_child =
        let (e, at_k, q, r, hx, hs) = Hangs-side N real l w p k c k x s at.hangs in
        record {
          holds = at.holds;
          hangs = hx;
          under = (refl, at_k, r, refl, hs, rw q at.under);
          once = λ j. let o = sum j in omega (arith, o);
        }

    pub child_here : rb_child m k w ≡ l.child w k
    child_here = at.holds.child_is w k node_here

    pub color_here : rb_color m k ≡ c
    color_here =
        let (e, at_k, q, r, hx, hs) = Hangs-side N real l w p k c k x s at.hangs in
        at.holds.color_is k at_k ∙ r

    pub parent_here : rb_parent m k ≡ p
    parent_here =
        let (e, at_k, q, r, hx, hs) = Hangs-side N real l w p k c k x s at.hangs in
        at.holds.parent_is k at_k ∙ q

    pub which_here : OnSide (rb_which m k p) up
    which_here =
        rb_which-OnSide N real V lo m l at.holds up p k at.under node_here (ground (arith, sum k))

    pub paint-Placed :
        (v : ℕ)
        → v < 2
        → Placed N V lo real (rb_set_color m k v) (put_color l k v) p k (side w v k x s) up
    paint-Placed v lt = record {
      holds = color-Holds N V lo m l at.holds k v node_here lt;
      hangs =
          Hangs-painted N real l w p k k c v x s (ground (arith, sum k)) (ground (arith, sum k))
            at.hangs;
      under = Under-put_color N real l up p k k v (ground (arith, sum k)) at.under;
      once = λ j. let o = sum j in let e' = occurs-side w j v k x s in omega (arith, o, e');
    }

  -- A child that is a node goes by its own number.
  pub named-Placed :
      (m : Buffer) (l : Links) (p n c k : ℕ) (a b : RbTree) (up : Above)
      → Placed N V lo real m l p n (tree c k a b) up
      → (n ≡ k) × Placed N V lo real m l p k (tree c k a b) up
  named-Placed m l p n c k a b up at =
      let e : n ≡ k = at.hangs.0 in
      (e, subst (λ i. Placed N V lo real m l p i (tree c k a b) up) e at)

  paint_root :
      (m : Buffer) (l : Links) (c k : ℕ) (a b : RbTree)
      → Placed N V lo real m l rbnull l.root (tree c k a b) whole
      → c ≡ rb_black
      → Placed N V lo real
          (rb_set_color m (rbroot lo m) rb_black)
          (put_color l k rb_black)
          rbnull
          l.root
          (tree c k a b)
          whole
  paint_root m l c k a b at e =
      let (q, at') = named-Placed m l rbnull l.root c k a b whole at in
      let painted = paint-Placed m l rb_left rbnull c k a b whole at' rb_black (omega arith) in
      let r : k ≡ rbroot lo m = sym (at.holds.root_is ∙ q) in
      let p1 =
        subst
          (λ i.
            Placed N V lo real (rb_set_color m i rb_black) (put_color l k rb_black) rbnull k
              (tree rb_black k a b) whole)
          r painted in
      let p2 =
        subst
          (λ i.
            Placed N V lo real (rb_set_color m (rbroot lo m) rb_black) (put_color l k rb_black)
              rbnull i (tree rb_black k a b) whole)
          (sym q) p1 in
      subst
        (λ i.
          Placed N V lo real (rb_set_color m (rbroot lo m) rb_black) (put_color l k rb_black) rbnull
            l.root (tree i k a b) whole)
        (sym e) p2

  -- A black root is painted black.
  pub root_black :
      (m : Buffer) (l : Links) (t : RbTree)
      → Placed N V lo real m l rbnull l.root t whole
      → color_of t ≡ rb_black
      → (l' : Links) × Placed N V lo real
          (rb_set_color m (rbroot lo m) rb_black)
          l'
          rbnull
          l'.root
          t
          whole
  unfolding rb_set_color
  root_black m l empty at e =
      let z : rbroot lo m == rbnull ≡ true =
        (==_iff (rbroot lo m) rbnull).1 (at.holds.root_is ∙ at.hangs) in
      (l, rw z at)
  root_black m l (tree c k a b) at e = (put_color l k rb_black, paint_root m l c k a b at e)
