-- ===== src/Malloc/Tree/LiftBrother.antt =====
-- The first branch of `rb_delete_fixup` in malloclab/mm.c: a red brother comes above the parent.
use mathlib.Core.Path.{subst}
use ics.Common.{ℕ, suc, ◌≡◌, refl, ◌≢◌, false, ◌==◌}
use ics.Bytes.{Buffer}
use ics.Malloc.Tree.{
  other, rb_red, rb_black, rbnull, rb_child, rb_color, rb_set_color, rb_which, Which,
}
use ics.Malloc.Tree.Focus.{side, RbTree, Above, below}
use ics.Malloc.Tree.Insert.{rb_rotate}
use ics.Malloc.Tree.Delete.{lift_brother, rb_delete_fixup}
use ics.Malloc.Tree.Links.{put_color, Links}
use ics.Malloc.Tree.BlackUncle.{painted-Placed, rb_rotate-Placed, Placed}
use ics.Malloc.Tree.Gap.{side_swap}
use ics.Malloc.Tree.Moves.{to_child, parent_here, which_here, named-Placed}
use ics.Malloc.Tree.Rotate.{rotate_links}
use ics.Malloc.Tree.Brother.{black_round}

module _ (lo fuel : ℕ) (m : Buffer) (k : ℕ) (w : Which) (ne : k == rbnull ≡ false) where
  pub from_black_brother :
      (b : ℕ)
      → rb_child m k (other w) ≡ b
      → rb_color m b ≡ rb_black
      → rb_delete_fixup lo (suc fuel) m k w ≡ black_round lo fuel m k w b
  unfolding rb_delete_fixup
  from_black_brother b e ec = rw (ne, e, ec) refl

  pub from_red_brother :
      (b b' : ℕ)
      → rb_child m k (other w) ≡ b
      → rb_color m b ≡ rb_red
      → rb_child (lift_brother lo m k w b) k (other w) ≡ b'
      → rb_delete_fixup lo (suc fuel) m k w ≡ black_round lo fuel (lift_brother lo m k w b) k w b'
  unfolding rb_delete_fixup
  from_red_brother b b' e ec e' = rw (ne, e, ec, e') refl

module _ (N : ℕ → Type 0) (V : ℕ → ℕ) (lo : ℕ) (real : (k : ℕ) → N k → k ≢ rbnull) where
  -- A red brother comes above the parent.
  module _ (m : Buffer) (l : Links) (p c k : ℕ) (w : Which) (b : ℕ) (outer inner t : RbTree)
      (up : Above)
      (at : Placed N V lo real m l p k
        (side (other w) c k (side (other w) rb_red b outer inner) t)
        up) where
    pub lift_brother-Placed :
        (l' : Links) × Placed N V lo real
          (lift_brother lo m k w b)
          l'
          b
          k
          (side (other w) rb_red k inner t)
          (below w rb_black b outer up)
    unfolding lift_brother
    lift_brother-Placed =
        let v = other w in
        let a2 = painted-Placed N V lo real m l p k c b rb_red v outer inner t up at in
        let m2 = rb_set_color (rb_set_color m b rb_black) k rb_red in
        let l2 = put_color (put_color l b rb_black) k rb_red in
        let s2 = side v rb_black b outer inner in
        let ep = parent_here N V lo real m2 l2 v p rb_red k s2 t up a2 in
        let on = which_here N V lo real m2 l2 v p rb_red k s2 t up a2 in
        let pw = rb_which m2 k p in
        let a3 =
          rb_rotate-Placed N V lo real m2 l2 p k rb_red b rb_black v outer inner t up a2 pw on in
        let m3 = rb_rotate lo m2 b v k pw p in
        let l3 = rotate_links l2 b v k pw p in
        let kt = side v rb_red k inner t in
        let a4 =
          subst (λ q. Placed N V lo real m3 l3 p b q up) (side_swap w rb_black b kt outer) a3 in
        let a5 = to_child N V lo real m3 l3 w p rb_black b kt outer up a4 in
        let (e, a6) =
          named-Placed N V lo real m3 l3 b (l3.child w b) rb_red k _ _ (below w rb_black b outer up)
            a5 in
        (l3, rw ep a6)
