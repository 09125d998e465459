-- ===== src/Malloc/Tree/Brother.antt =====
-- A round of `rb_delete_fixup` in malloclab/mm.c with a black brother.
use mathlib.Core.Path.{subst}
use ics.Common.{
  ℕ, ◌≡◌, refl, ap, ◌∙◌, ◌≢◌, Bool, true, false, not, ◌&&◌, Option, some, arith, ◌==◌,
  if◌then◌else◌,
}
use ics.Malloc.Tree.RedBlack.{color_of}
use ics.Bytes.{Buffer}
use ics.Malloc.Tree.{
  other, rb_red, rb_black, rbnull, rb_parent, rb_child, rb_color, rb_set_color, rb_which, Which,
  rb_left, rb_right,
}
use ics.Malloc.Tree.Focus.{at_left, side, RbTree, Above, tree, below}
use ics.Malloc.Tree.Delete.{close_gap, rb_delete_fixup}
use ics.Malloc.Tree.Links.{put_color, Links}
use ics.Malloc.Tree.BlackUncle.{Placed}
use ics.Malloc.Tree.FixRotate.{up_one}
use ics.Malloc.Tree.Gap.{side_swap}
use ics.Malloc.Tree.Moves.{to_child, child_here, paint-Placed, named-Placed}
use ics.Malloc.Tree.Reads.{head_color}

-- A tree by its children on a side and on the other.
pub by_side :
    (w : Which) (c n : ℕ) (x y : RbTree) → tree c n x y ≡ side w c n (at_left w x y) (at_left w y x)
by_side rb_left c n x y = refl
by_side rb_right c n x y = refl

module _ (lo fuel : ℕ) where
  -- The round from the place where the brother is black.
  abbrev pub black_round : Buffer → ℕ → Which → ℕ → Option Buffer
  black_round m parent which brother =
      let left_black = rb_color m (rb_child m brother rb_left) == rb_black in
      let right_black = rb_color m (rb_child m brother rb_right) == rb_black in
      let m2 = rb_set_color m brother rb_red in
      let grandparent = rb_parent m2 parent in
      let rest = rb_delete_fixup lo fuel m2 grandparent (rb_which m2 parent grandparent) in
      if not (left_black && right_black)
      then some (close_gap lo m parent which brother)
      else if rb_color m2 parent == rb_red
      then some (rb_set_color m2 parent rb_black)
      else rest

  module _ (m : Buffer) (k : ℕ) (w : Which) (b : ℕ) where
    abbrev tests : Bool
    tests =
        (rb_color m (rb_child m b rb_left) == rb_black)
        && (rb_color m (rb_child m b rb_right) == rb_black)

    pub round_gap : tests ≡ false → black_round m k w b ≡ some (close_gap lo m k w b)
    round_gap e = rw e refl

    pub round_red :
        tests ≡ true
        → rb_color (rb_set_color m b rb_red) k ≡ rb_red
        → black_round m k w b ≡ some (rb_set_color (rb_set_color m b rb_red) k rb_black)
    round_red e e' = rw (e, e') refl

    pub round_up :
        (g : ℕ)
        → tests ≡ true
        → rb_color (rb_set_color m b rb_red) k ≡ rb_black
        → rb_parent (rb_set_color m b rb_red) k ≡ g
        → black_round m k w b
          ≡ rb_delete_fixup lo fuel
              (rb_set_color m b rb_red)
              g
              (rb_which (rb_set_color m b rb_red) k g)
    round_up g e e' ep = rw (e, e', ep) refl

module _ (m : Buffer) (b : ℕ) where
  pub both_black :
      (w : Which)
      → rb_color m (rb_child m b w) ≡ rb_black
      → rb_color m (rb_child m b (other w)) ≡ rb_black
      → (rb_color m (rb_child m b rb_left) == rb_black)
          && (rb_color m (rb_child m b rb_right) == rb_black)
        ≡ true
  both_black rb_left e e' = rw (e, e') refl
  both_black rb_right e e' = rw (e, e') refl

  pub outer_red :
      (w : Which)
      → rb_color m (rb_child m b (other w)) ≡ rb_red
      → (rb_color m (rb_child m b rb_left) == rb_black)
          && (rb_color m (rb_child m b rb_right) == rb_black)
        ≡ false
  outer_red rb_left e = rw e (ground arith)
  outer_red rb_right e = rw e (ground arith)

  pub inner_red :
      (w : Which)
      → rb_color m (rb_child m b w) ≡ rb_red
      → (rb_color m (rb_child m b rb_left) == rb_black)
          && (rb_color m (rb_child m b rb_right) == rb_black)
        ≡ false
  inner_red rb_left e = rw e (ground arith)
  inner_red rb_right e = rw e (ground arith)

module _ (N : ℕ → Type 0) (V : ℕ → ℕ) (lo : ℕ) (real : (k : ℕ) → N k → k ≢ rbnull) where
  module _ (m : Buffer) (l : Links) (p c k : ℕ) (w : Which) (cb b : ℕ) (outer inner t : RbTree)
      (up : Above)
      (at : Placed N V lo real m l p k
        (side (other w) c k (side (other w) cb b outer inner) t)
        up) where
    pub at_brother :
        Placed N V lo real m l k b (side (other w) cb b outer inner) (below (other w) c k t up)
    at_brother =
        let v = other w in
        let a1 = to_child N V lo real m l v p c k (side v cb b outer inner) t up at in
        (named-Placed N V lo real m l k (l.child v k) cb b _ _ (below v c k t up) a1).1

    pub brother_read : rb_child m k (other w) ≡ b
    brother_read =
        let v = other w in
        let a1 = to_child N V lo real m l v p c k (side v cb b outer inner) t up at in
        child_here N V lo real m l v p c k (side v cb b outer inner) t up at
        ∙ (named-Placed N V lo real m l k (l.child v k) cb b _ _ (below v c k t up) a1).0

    pub outer_color : rb_color m (rb_child m b (other w)) ≡ color_of outer
    outer_color =
        let v = other w in
        let o = to_child N V lo real m l v k cb b outer inner (below v c k t up) at_brother in
        ap (rb_color m)
          (child_here N V lo real m l v k cb b outer inner (below v c k t up) at_brother)
        ∙ head_color N V lo real m l at.holds outer b (l.child v b) o.hangs

    pub inner_color : rb_color m (rb_child m b w) ≡ color_of inner
    inner_color =
        let v = other w in
        let up_b = below v c k t up in
        let swapped =
          subst (λ q. Placed N V lo real m l k b q up_b) (side_swap w cb b inner outer)
            at_brother in
        let i = to_child N V lo real m l w k cb b inner outer up_b swapped in
        ap (rb_color m) (child_here N V lo real m l w k cb b inner outer up_b swapped)
        ∙ head_color N V lo real m l at.holds inner b (l.child w b) i.hangs

    -- The brother turns red.
    pub red_brother :
        (l' : Links) × Placed N V lo real
          (rb_set_color m b rb_red)
          l'
          (l'.parent k)
          k
          (side (other w) c k (side (other w) rb_red b outer inner) t)
          up
    red_brother =
        let v = other w in
        let up_b = below v c k t up in
        let a2 =
          paint-Placed N V lo real m l v k cb b outer inner up_b at_brother rb_red (omega arith) in
        let l2 = put_color l b rb_red in
        let (e, a3) =
          up_one N V lo real (rb_set_color m b rb_red) l2 k b (side v rb_red b outer inner) v c k t
            up a2 in
        (l2, a3)
