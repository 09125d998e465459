-- ===== src/Malloc/Tree/RedUncle.antt =====
-- The branch of `rb_insert_fixup` in malloclab/mm.c with a red uncle: three colors change.
use ics.Common.{ℕ, ◌+◌, ◌≤◌, ◌≡◌, refl, ◌∙◌, ◌≢◌, arith, ◌==◌, if◌then◌else◌}
use ics.Bytes.{Buffer}
use ics.Malloc.Tree.{other, rb_red, rb_black, rbnull, Which, rb_left}
use ics.Malloc.Tree.Focus.{
  side, occurs, occurs_above, occurs-side, Hangs, Hangs-side, side-Hangs, RbTree, Above, tree,
}
use ics.Malloc.Tree.Links.{put_color, Links}
use ics.Malloc.Tree.Marks.{color-Holds}
use ics.Malloc.Tree.Paint.{Hangs-put_color, Under-put_color, Hangs-painted}
use ics.Malloc.Tree.BlackUncle.{Placed}
use ics.Malloc.Tree.Reads.{recolored}

module _ (N : ℕ → Type 0) (V : ℕ → ℕ) (lo : ℕ) (real : (k : ℕ) → N k → k ≢ rbnull) (m : Buffer)
    (l : Links) (gg g c1 k c u c' : ℕ) (w1 w : Which) (t s x y : RbTree) (up : Above)
    (at : Placed N V lo real m l gg g (side w1 c1 g (side w c k t s) (tree c' u x y)) up) where
  sum :
      (j : ℕ)
      → (if j == g then 1 else 0)
          + ((if j == k then 1 else 0) + occurs j t + occurs j s)
          + ((if j == u then 1 else 0) + occurs j x + occurs j y)
          + occurs_above j up
        ≤ 1
  sum j =
      let o = at.once j in
      let e = occurs-side w j c k t s in
      let e' = occurs-side w1 j c1 g (side w c k t s) (tree c' u x y) in omega (arith, o, e, e')

  abbrev l1 : Links
  l1 = put_color l k rb_black

  abbrev l2 : Links
  l2 = put_color l1 u rb_black

  abbrev l3 : Links
  l3 = put_color l2 g rb_red

  child_none :
      (j : ℕ) → j ≢ k → occurs j t ≡ 0 → occurs j s ≡ 0 → (d : ℕ) → occurs j (side w d k t s) ≡ 0
  child_none j ne o o' d = occurs-side w j d k t s ∙ ground arith

  pub recolored-Placed :
      Placed N V lo real
        (recolored m k u g)
        l3
        gg
        g
        (side w1 rb_red g (side w rb_black k t s) (tree rb_black u x y))
        up
  recolored-Placed =
      let (e0, at_g, par_g, col_g, h1, h2) =
        Hangs-side N real l w1 gg g c1 g (side w c k t s) (tree c' u x y) at.hangs in
      let (e1, at_k, q1, r1, ht, hs) = Hangs-side N real l w g (l.child w1 g) c k t s h1 in
      let (e2, at_u, q2, r2, hx, hy) =
        Hangs-side N real l rb_left g (l.child (other w1) g) c' u x y h2 in
      let i1 = l.child w1 g in
      let i2 = l.child (other w1) g in
      let h1' : Hangs N real l3 g i1 (side w rb_black k t s) =
        Hangs-put_color N real l2 (side w rb_black k t s) g i1 g rb_red
          (child_none g (ground (arith, sum g)) (ground (arith, sum g)) (ground (arith, sum g))
            rb_black)
          (Hangs-put_color N real l1 (side w rb_black k t s) g i1 u rb_black
            (child_none u (ground (arith, sum u)) (ground (arith, sum u)) (ground (arith, sum u))
              rb_black)
            (Hangs-painted N real l w g i1 k c rb_black t s (ground (arith, sum k))
              (ground (arith, sum k)) h1)) in
      let h2' : Hangs N real l3 g i2 (tree rb_black u x y) =
        Hangs-put_color N real l2 (tree rb_black u x y) g i2 g rb_red (ground (arith, sum g)) (
          Hangs-painted N real l1 rb_left g i2 u c' rb_black x y (ground (arith, sum u))
            (ground (arith, sum u))
            (Hangs-put_color N real l (tree c' u x y) g i2 k rb_black (ground (arith, sum k))
              h2)) in
      record {
        holds =
            color-Holds N V lo _ _
              (color-Holds N V lo _ _
                (color-Holds N V lo m l at.holds k rb_black at_k (omega arith)) u rb_black at_u
                (omega arith))
              g rb_red at_g (omega arith);
        hangs =
            side-Hangs N real l3 w1 gg g rb_red g (side w rb_black k t s) (tree rb_black u x y) refl
              at_g par_g (ground arith) h1' h2';
        under = Under-put_color N real l2 up gg g g rb_red (ground (arith, sum g)) (
            Under-put_color N real l1 up gg g u rb_black (ground (arith, sum u))
              (Under-put_color N real l up gg g k rb_black (ground (arith, sum k)) at.under));
        once = λ j.
            let e = occurs-side w j rb_black k t s in
            let e' = occurs-side w1 j rb_red g (side w rb_black k t s) (tree rb_black u x y) in
            omega (arith, sum j, e, e');
      }
