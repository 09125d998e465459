-- ===== src/Malloc/Tree/DeleteOuter.antt =====
-- `rb_delete` of malloclab/mm.c for a node that has at most one child.
use mathlib.Core.Path.{subst}
use ics.Common.{
  ℕ, zero, suc, ◌<◌, ◌≡◌, refl, sym, ap, ◌∙◌, ◌≢◌, inl, inr, Option, arith, ◌==◌, ==_iff,
  Bool-cases,
}
use ics.Malloc.Tree.RedBlack.{
  refill, inorder, BalancedAbove, Sound-side, Sound-refill, Balanced-side, Balanced-refill,
  IsRedBlack,
}
use ics.Bytes.{Buffer}
use ics.Malloc.Tree.{rb_black, rbnull, rb_child, rb_which, Which, rb_left, rb_right}
use ics.Malloc.Tree.Focus.{side, Hangs-side, RbTree, Above, empty, whole, below}
use ics.Malloc.Tree.Delete.{
  rb_delete_with_at_most_one_child, replace_root, delete_outer, mark_removed, rb_delete,
}
use ics.Malloc.Tree.Links.{Links}
use ics.Malloc.Tree.Rebuilt.{levels, same_run, Rebuilt}
use ics.Malloc.Tree.BlackUncle.{Placed}
use ics.Malloc.Tree.Moves.{color_here, parent_here}
use ics.Malloc.Tree.GapClosed.{Good}
use ics.Malloc.Tree.Round.{red_cases}
use ics.Malloc.Tree.Removed.{below-Rebuilt, root_black_child, root_red_child}

module _ (lo fuel : ℕ) (m : Buffer) (n p : ℕ) (color : ℕ) where
  abbrev unlinked : ℕ → Option Buffer
  unlinked child =
      replace_root lo n child
        (rb_delete_with_at_most_one_child lo fuel m child p (rb_which m n p) color)

  no_right : (left : ℕ) → delete_outer lo fuel m n p left rbnull color ≡ unlinked left
  unfolding delete_outer
  no_right left = elim (Bool-cases (left == rbnull)) [
    | inl t ↦ let e : left ≡ rbnull = (==_iff left rbnull).0 t in rw e refl
    | inr t ↦ rw t refl
  ]

  no_left : (right : ℕ) → delete_outer lo fuel m n p rbnull right color ≡ unlinked right
  unfolding delete_outer
  no_left right = elim (Bool-cases (right == rbnull)) [
    | inl t ↦ let e : right ≡ rbnull = (==_iff right rbnull).0 t in rw e refl
    | inr t ↦ rw t refl
  ]

module _ (N : ℕ → Type 0) (V : ℕ → ℕ) (lo : ℕ) (real : (k : ℕ) → N k → k ≢ rbnull) (fuel : ℕ)
    (m : Buffer) (l : Links) (p c n : ℕ) (x : RbTree) (up : Above) where
  runs :
      (v : Which)
      → Placed N V lo real m l p n (side v c n x empty) up
      → rb_delete lo fuel m n ≡ mark_removed lo n (unlinked lo fuel m n p c (l.child v n))
  unfolding rb_delete
  runs rb_left at =
      let (e, at_n, q, r, hx, hs) = Hangs-side N real l rb_left p n c n x empty at.hangs in
      let ep = parent_here N V lo real m l rb_left p c n x empty up at in
      let ec = color_here N V lo real m l rb_left p c n x empty up at in
      let el = at.holds.child_is rb_left n at_n in
      let er : rb_child m n rb_right ≡ rbnull = at.holds.child_is rb_right n at_n ∙ hs in
      rw (ep, ec, el, er) (ap (mark_removed lo n) (no_right lo fuel m n p c (l.child rb_left n)))
  runs rb_right at =
      let (e, at_n, q, r, hx, hs) = Hangs-side N real l rb_right p n c n x empty at.hangs in
      let ep = parent_here N V lo real m l rb_right p c n x empty up at in
      let ec = color_here N V lo real m l rb_right p c n x empty up at in
      let el : rb_child m n rb_left ≡ rbnull = at.holds.child_is rb_left n at_n ∙ hs in
      let er = at.holds.child_is rb_right n at_n in
      rw (ep, ec, el, er) (ap (mark_removed lo n) (no_left lo fuel m n p c (l.child rb_right n)))

module _ (N : ℕ → Type 0) (V : ℕ → ℕ) (lo : ℕ) (real : (k : ℕ) → N k → k ≢ rbnull) where
  at_the_root :
      (fuel : ℕ) (m : Buffer) (l : Links) (n h : ℕ) (v : Which) (x : RbTree) (w : Which)
      → Placed N V lo real m l rbnull n (side v rb_black n x empty) whole
      → Good N V lo real h x
      → Rebuilt N V lo real
          (mark_removed lo n (
            replace_root lo n
              (l.child v n)
              (rb_delete_with_at_most_one_child lo (suc fuel) m (l.child v n) rbnull w rb_black)))
          (inorder x)
  at_the_root fuel m l n h v x w at good = elim (red_cases x good.0) [
    | inl black ↦ root_black_child N V lo real m l n h v x at fuel w good black
    | inr (i, a, b, e) ↦
        let at' =
          subst (λ t. Placed N V lo real m l rbnull n (side v rb_black n t empty) whole) e at in
        same_run N V lo real _ _ _ _ refl (ap inorder (sym e)) (
          root_red_child N V lo real m l n h v i a b (suc fuel) w at'
            (subst (Good N V lo real h) e good))
  ]

  -- In a memory that holds a red-black tree, `rb_delete` of a node with no child or with one ends,
  -- with fuel for the levels above it, and the memory then holds a red-black tree of the other nodes
  -- in the same order.
  pub rb_delete_single-Rebuilt :
      (fuel : ℕ) (m : Buffer) (l : Links) (p c n : ℕ) (v : Which) (x : RbTree) (up : Above)
      → levels up < fuel
      → Placed N V lo real m l p n (side v c n x empty) up
      → IsRedBlack (refill up (side v c n x empty))
      → Rebuilt N V lo real (rb_delete lo fuel m n) (inorder (refill up x))
  rb_delete_single-Rebuilt zero m l p c n v x up lt at rules = absurd (omega arith)
  rb_delete_single-Rebuilt (suc fuel) m l p c n v x whole lt at rules =
      let (st, sa) = Sound-refill whole (side v c n x empty) rules.sound rules.black_root in
      let (ls, f, sx, se) = Sound-side v c n x empty st in
      let (h1, b1, ba) = Balanced-refill whole rules.height (side v c n x empty) rules.balanced in
      let (h, eh, bx, be) = Balanced-side v h1 c n x empty b1 in
      let z : p ≡ rbnull = at.under.0 in
      let at1 = subst (λ i. Placed N V lo real m l i n (side v c n x empty) whole) z at in
      let at2 = subst (λ i. Placed N V lo real m l rbnull n (side v i n x empty) whole) sa at1 in
      same_run N V lo real _ _ _ _
        (runs N V lo real (suc fuel) m l rbnull c n x whole v at1
          ∙ ap (λ i. mark_removed lo n (unlinked lo (suc fuel) m n rbnull i (l.child v n))) sa)
        refl (at_the_root fuel m l n h v x (rb_which m n rbnull) at2 (sx, bx))
  rb_delete_single-Rebuilt (suc fuel) m l p c n v x (below w d k s up) lt at rules =
      let above = below w d k s up in
      let (st, sa) = Sound-refill above (side v c n x empty) rules.sound rules.black_root in
      let (ls, f, sx, se) = Sound-side v c n x empty st in
      let (h1, b1, ba) = Balanced-refill above rules.height (side v c n x empty) rules.balanced in
      let (h, eh, bx, be) = Balanced-side v h1 c n x empty b1 in
      same_run N V lo real _ _ _ _ (runs N V lo real (suc fuel) m l p c n x above v at) refl (
        below-Rebuilt N V lo real (suc fuel) m l p c n h v x w d k s up lt at ls (sx, bx)
          (λ e. (f e).0) sa (subst (λ i. BalancedAbove i above) eh ba))
