-- ===== src/Malloc/Tree/BlackUncle.antt =====
-- `rb_rotate` of malloclab/mm.c on a tree in memory, and the end of the branch of `rb_insert_fixup` with
-- a black uncle.
use ics.Common.{ℕ, ◌+◌, ◌≤◌, ◌≡◌, refl, ◌∙◌, ◌≢◌, arith, ◌==◌, if◌then◌else◌}
use ics.Bytes.{Buffer}
use ics.Malloc.Tree.{rb_red, rb_black, rbnull, rb_parent, rb_set_color, rb_which, Which}
use ics.Malloc.Tree.Focus.{
  side, occurs, occurs_above, occurs-side, Hangs, Under, Hangs-side, side-Hangs, RbTree, Above,
}
use ics.Malloc.Tree.Insert.{rb_rotate}
use ics.Malloc.Tree.Links.{put_color, Links}
use ics.Malloc.Tree.Nodes.{Holds}
use ics.Malloc.Tree.Marks.{color-Holds}
use ics.Malloc.Tree.Rotate.{rotate_links}
use ics.Malloc.Tree.Turned.{OnSide, sum_once, above_differs, rotate-Focus}
use ics.Malloc.Tree.Paint.{
  Hangs-put_color, Under-put_color, Hangs-Address, Under-Address, head_apart, rb_which-child,
  rb_which-OnSide,
}
use ics.Malloc.Tree.Stored.{rb_rotate-Holds}

-- Memory holds a tree and what lies above it.
pub record Placed (N : ℕ → Type 0) (V : ℕ → ℕ) (lo : ℕ) (real : (k : ℕ) → N k → k ≢ rbnull)
    (m : Buffer) (l : Links) (p n : ℕ) (t : RbTree) (up : Above) : Type 0 where
  pub holds : Holds N V lo m l
  pub hangs : Hangs N real l p n t
  pub under : Under N real l p n up
  pub once : (k : ℕ) → occurs k t + occurs_above k up ≤ 1

module _ (N : ℕ → Type 0) (V : ℕ → ℕ) (lo : ℕ) (real : (k : ℕ) → N k → k ≢ rbnull) where
  -- The end of the branch, from the first color.
  abbrev pub last_turn : Buffer → ℕ → Buffer
  last_turn m tmp =
      let m2 = rb_set_color m tmp rb_black in
      let tmp_parent = rb_parent m2 tmp in
      let m3 = rb_set_color m2 tmp_parent rb_red in
      let tmp_grandparent = rb_parent m3 tmp_parent in
      rb_rotate lo m3 tmp (rb_which m3 tmp tmp_parent) tmp_parent
        (rb_which m3 tmp_parent tmp_grandparent) tmp_grandparent

  module _ (m : Buffer) (l : Links) (gg g cg n cn : ℕ) (w : Which) (x y s : RbTree) (up : Above)
      (at : Placed N V lo real m l gg g (side w cg g (side w cn n x y) s) up) where
    sum :
        (k : ℕ)
        → (if k == g then 1 else 0)
            + ((if k == n then 1 else 0) + occurs k x + occurs k y)
            + occurs k s
            + occurs_above k up
          ≤ 1
    sum = sum_once N real l gg g cg n cn w x y s up at.hangs at.under at.once

    abbrev painted : Links
    painted = put_color (put_color l n rb_black) g rb_red

    pub first_parent : rb_parent (rb_set_color m n rb_black) n ≡ g
    first_parent =
        let (e0, at_g, par_g, col_g, h1, hs) =
          Hangs-side N real l w gg g cg g (side w cn n x y) s at.hangs in
        let (e1, at_n, par_n, col_n, hx, hy) = Hangs-side N real l w g (l.child w g) cn n x y h1 in
        (color-Holds N V lo m l at.holds n rb_black at_n (omega arith)).parent_is n at_n ∙ par_n

    pub painted-Placed :
        Placed N V lo real
          (rb_set_color (rb_set_color m n rb_black) g rb_red)
          (put_color (put_color l n rb_black) g rb_red)
          gg
          g
          (side w rb_red g (side w rb_black n x y) s)
          up
    painted-Placed =
        let (e0, at_g, par_g, col_g, h1, hs) =
          Hangs-side N real l w gg g cg g (side w cn n x y) s at.hangs in
        let (e1, at_n, par_n, col_n, hx, hy) = Hangs-side N real l w g (l.child w g) cn n x y h1 in
        let keep : (t : RbTree) (p k : ℕ)
            → occurs n t ≡ 0
            → occurs g t ≡ 0
            → Hangs N real l p k t
            → Hangs N real painted p k t =
          λ t p k o o' h.
            Hangs-put_color N real (put_color l n rb_black) t p k g rb_red o'
              (Hangs-put_color N real l t p k n rb_black o h) in
        let ne : n ≢ g = ground (arith, sum n) in
        record {
          holds =
              color-Holds N V lo _ _ (color-Holds N V lo m l at.holds n rb_black at_n (omega arith))
                g rb_red at_g (omega arith);
          hangs =
              side-Hangs N real painted w gg g rb_red g (side w rb_black n x y) s refl at_g par_g
                (ground arith)
                (side-Hangs N real painted w g (l.child w g) rb_black n x y e1 at_n par_n
                  (ground arith) (keep x _ _ (ground (arith, sum n)) (ground (arith, sum g)) hx)
                  (keep y _ _ (ground (arith, sum n)) (ground (arith, sum g)) hy))
                (keep s _ _ (ground (arith, sum n)) (ground (arith, sum g)) hs);
          under =
              Under-put_color N real (put_color l n rb_black) up gg g g rb_red
                (ground (arith, sum g))
                (Under-put_color N real l up gg g n rb_black (ground (arith, sum n)) at.under);
          once = λ k.
              let e = occurs-side w k rb_black n x y in
              let e' = occurs-side w k rb_red g (side w rb_black n x y) s in
              omega (arith, sum k, e, e');
        }

  module _ (m : Buffer) (l : Links) (gg g cg n cn : ℕ) (w : Which) (x y s : RbTree) (up : Above)
      (at : Placed N V lo real m l gg g (side w cg g (side w cn n x y) s) up) where
    -- Where memory holds a tree whose top has a child on the side `w`, `rb_rotate` of that child, with
    -- the side of the top if anything is above it, leaves a memory that holds the rotated tree in its
    -- place, and what is above and below as it was.
    pub rb_rotate-Placed :
        (pw : Which)
        → OnSide pw up
        → Placed N V lo real
            (rb_rotate lo m n w g pw gg)
            (rotate_links l n w g pw gg)
            gg
            n
            (side w cn n x (side w cg g y s))
            up
    rb_rotate-Placed pw on =
        let (e0, at_g, par_g, col_g, h1, hs) =
          Hangs-side N real l w gg g cg g (side w cn n x y) s at.hangs in
        let (e1, at_n, par_n, col_n, hx, hy) = Hangs-side N real l w g (l.child w g) cn n x y h1 in
        let differ = above_differs N real l gg g cg n cn w x y s up at.hangs at.under at.once in
        let (h, u) =
          rotate-Focus N real l gg g cg n cn w x y s up at.hangs at.under at.once pw on in
        record {
          holds =
              rb_rotate-Holds N V lo m l at.holds n w g pw gg at_n at_g
                (Under-Address N real l up gg g at.under) differ (Hangs-Address N real l y n _ hy);
          hangs = h;
          under = u;
          once = λ k.
              let o = sum_once N real l gg g cg n cn w x y s up at.hangs at.under at.once k in
              let e = occurs-side w k cg g y s in
              let e' = occurs-side w k cn n x (side w cg g y s) in omega (arith, o, e, e');
        }

    -- The sides and the parents that the code reads.
    pub reads_side :
        (rb_parent m n ≡ g)
        × (rb_parent m g ≡ gg)
        × (rb_which m n g ≡ w)
        × OnSide (rb_which m g gg) up
    reads_side =
        let (e0, at_g, par_g, col_g, h1, hs) =
          Hangs-side N real l w gg g cg g (side w cn n x y) s at.hangs in
        let (e1, at_n, par_n, col_n, hx, hy) = Hangs-side N real l w g (l.child w g) cn n x y h1 in
        let o = sum_once N real l gg g cg n cn w x y s up at.hangs at.under at.once in
        (
          at.holds.parent_is n at_n ∙ par_n,
          at.holds.parent_is g at_g ∙ par_g,
          rb_which-child N real V lo m l at.holds w n g at_g e1
              (head_apart N real l s g _ n hs at_n (ground (arith, o n))),
          rb_which-OnSide N real V lo m l at.holds up gg g at.under at_g (ground (arith, o g)),
        )

  pub last_turn-Placed :
      (m : Buffer) (l : Links) (gg g cg n cn : ℕ) (w : Which) (x y s : RbTree) (up : Above)
      → Placed N V lo real m l gg g (side w cg g (side w cn n x y) s) up
      → (l' : Links) × Placed N V lo real
          (last_turn m n)
          l'
          gg
          n
          (side w rb_black n x (side w rb_red g y s))
          up
  last_turn-Placed m l gg g cg n cn w x y s up at =
      let at3 = painted-Placed m l gg g cg n cn w x y s up at in
      let (a, b, c, d) = reads_side _ _ gg g rb_red n rb_black w x y s up at3 in
      let p2 = first_parent m l gg g cg n cn w x y s up at in
      let m3 = rb_set_color (rb_set_color m n rb_black) g rb_red in
      let l3 = put_color (put_color l n rb_black) g rb_red in
      let turned =
        rb_rotate-Placed m3 l3 gg g rb_red n rb_black w x y s up at3 (rb_which m3 g gg) d in
      (rotate_links l3 n w g (rb_which m3 g gg) gg, rw (p2, b, c) turned)
