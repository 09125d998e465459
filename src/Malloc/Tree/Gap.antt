-- ===== src/Malloc/Tree/Gap.antt =====
-- `close_gap`: what the last branch of `rb_delete_fixup` in malloclab/mm.c leaves.
use mathlib.Core.Path.{subst}
use ics.Common.{ℕ, ◌<◌, ◌≡◌, refl, sym, ◌∙◌, ◌≢◌, arith}
use ics.Bytes.{Buffer}
use ics.Malloc.Tree.{
  other, rb_red, rb_black, rbnull, rb_child, rb_color, rb_set_color, rbroot, Which, rb_left,
  rb_right,
}
use ics.Malloc.Tree.Focus.{side, RbTree, Above, below}
use ics.Malloc.Tree.Insert.{rb_rotate}
use ics.Malloc.Tree.Delete.{close_gap}
use ics.Malloc.Tree.Links.{put_color, Links}
use ics.Malloc.Tree.BlackUncle.{rb_rotate-Placed, Placed}
use ics.Malloc.Tree.FixRotate.{up_one}
use ics.Malloc.Tree.Rotate.{rotate_links}
use ics.Malloc.Tree.Moves.{to_child, child_here, paint-Placed, named-Placed}
use ics.Malloc.Tree.CloseGap.{lift_top}

pub side_swap : (w : Which) (c n : ℕ) (x y : RbTree) → side (other w) c n y x ≡ side w c n x y
side_swap rb_left c n x y = refl
side_swap rb_right c n x y = refl

module _ (N : ℕ → Type 0) (V : ℕ → ℕ) (lo : ℕ) (real : (k : ℕ) → N k → k ≢ rbnull) where
  abbrev pub with_black_root : Buffer → Buffer
  with_black_root m = rb_set_color m (rbroot lo m) rb_black

  -- The memory in which an inner red child has come above the brother.
  abbrev pub inner_up : Buffer → ℕ → Which → ℕ → ℕ → Buffer
  inner_up m parent which brother inner =
      rb_rotate lo (rb_set_color (rb_set_color m brother rb_red) inner rb_black) inner which brother
        (other which) parent

  module _ (m : Buffer) (k : ℕ) (w : Which) (b : ℕ) where
    pub gap_straight :
        rb_color m (rb_child m b (other w)) ≡ rb_red
        → close_gap lo m k w b ≡ with_black_root (lift_top N V lo real m k w b)
    unfolding close_gap
    gap_straight e = rw e refl

    pub gap_bent :
        (i : ℕ)
        → rb_color m (rb_child m b (other w)) ≡ rb_black
        → rb_child m b w ≡ i
        → close_gap lo m k w b ≡ with_black_root (lift_top N V lo real (inner_up m k w b i) k w i)
    unfolding close_gap
    gap_bent i e e' = rw (e, e') refl

  module _ (m : Buffer) (l : Links) (p c k : ℕ) (w : Which) (cb b : ℕ) (outer : RbTree) (i : ℕ)
      (x y t : RbTree) (up : Above) (small : c < 2)
      (at : Placed N V lo real m l p k
        (side (other w) c k (side (other w) cb b outer (side w rb_red i x y)) t)
        up) where
    pub bent_parts :
        (l' : Links) × (rb_child m b w ≡ i)
        × Placed N V lo real
            (inner_up m k w b i)
            l'
            (l'.parent k)
            k
            (side (other w) c k (side (other w) rb_black i (side w rb_red b y outer) x) t)
            up
    bent_parts =
        let v = other w in
        let inner = side w rb_red i x y in
        let s = side v cb b outer inner in
        let above_b = below v c k t up in
        let a1 = to_child N V lo real m l v p c k s t up at in
        let (e1, a1') = named-Placed N V lo real m l k (l.child v k) cb b _ _ above_b a1 in
        let a1'' =
          subst (λ q. Placed N V lo real m l k b q above_b) (side_swap w cb b inner outer) a1' in
        let a0 = to_child N V lo real m l w k cb b inner outer above_b a1'' in
        let (e0, a0') =
          named-Placed N V lo real m l b (l.child w b) rb_red i _ _ (below w cb b outer above_b)
            a0 in
        let m2 = rb_set_color m b rb_red in
        let l2 = put_color l b rb_red in
        let a2 =
          paint-Placed N V lo real m l w k cb b inner outer above_b a1'' rb_red (omega arith) in
        let above_i = below w rb_red b outer above_b in
        let a3 = to_child N V lo real m2 l2 w k rb_red b inner outer above_b a2 in
        let (e3, a3') = named-Placed N V lo real m2 l2 b (l2.child w b) rb_red i _ _ above_i a3 in
        let m3 = rb_set_color m2 i rb_black in
        let l3 = put_color l2 i rb_black in
        let a4 =
          paint-Placed N V lo real m2 l2 w b rb_red i x y above_i a3' rb_black (omega arith) in
        let (e5, a5) =
          up_one N V lo real m3 l3 b i (side w rb_black i x y) w rb_red b outer above_b a4 in
        let is_k : l3.parent b ≡ k = a5.under.0 in
        let a5' =
          subst
            (λ q.
              Placed N V lo real m3 l3 q b (side w rb_red b (side w rb_black i x y) outer) above_b)
            is_k a5 in
        let a6 =
          rb_rotate-Placed N V lo real m3 l3 k b rb_red i rb_black w x y outer above_b a5' v refl in
        let m4 = inner_up m k w b i in
        let l4 = rotate_links l3 i w b v k in
        let (e7, a7) = up_one N V lo real m4 l4 k i _ v c k t up a6 in
        (
          l4,
          child_here N V lo real m l w k cb b inner outer above_b a1'' ∙ e0,
          subst (λ q. Placed N V lo real m4 l4 (l4.parent k) k (side v c k q t) up)
              (sym (side_swap w rb_black i x (side w rb_red b y outer))) a7,
        )
