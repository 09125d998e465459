-- ===== src/Malloc/Tree/CloseGap.antt =====
-- The last branch of `rb_delete_fixup` in malloclab/mm.c, where the outer child of the brother is red.
use ics.Common.{ℕ, ◌<◌, ◌≡◌, ◌∙◌, ◌≢◌, arith}
use ics.Bytes.{Buffer}
use ics.Malloc.Tree.{
  other, rb_black, rbnull, rb_parent, rb_child, rb_color, rb_set_color, rb_which, Which, rb_left,
}
use ics.Malloc.Tree.Focus.{side, RbTree, Above, tree, below}
use ics.Malloc.Tree.Insert.{rb_rotate}
use ics.Malloc.Tree.Links.{put_color, Links}
use ics.Malloc.Tree.BlackUncle.{rb_rotate-Placed, Placed}
use ics.Malloc.Tree.FixRotate.{up_one}
use ics.Malloc.Tree.Rotate.{rotate_links}
use ics.Malloc.Tree.Moves.{
  to_child, child_here, color_here, parent_here, which_here, paint-Placed, named-Placed,
}

module _ (N : ℕ → Type 0) (V : ℕ → ℕ) (lo : ℕ) (real : (k : ℕ) → N k → k ≢ rbnull) where
  -- From the color of the node that comes to the top, to the rotation.
  abbrev pub lift_top : Buffer → ℕ → Which → ℕ → Buffer
  lift_top m parent which top =
      let m3 = rb_set_color m top (rb_color m parent) in
      let m4 = rb_set_color m3 parent rb_black in
      let m5 = rb_set_color m4 (rb_child m4 top (other which)) rb_black in
      let grandparent = rb_parent m5 parent in
      rb_rotate lo m5 top (other which) parent (rb_which m5 parent grandparent) grandparent

  module _ (m : Buffer) (l : Links) (p c k : ℕ) (w : Which) (cb b co o : ℕ) (x y inner t : RbTree)
      (up : Above) (small : c < 2)
      (at : Placed N V lo real m l p k
        (side (other w) c k (side (other w) cb b (tree co o x y) inner) t)
        up) where
    -- The three colors.
    three_colors :
        (l5 : Links) × (rb_color m k ≡ c)
        × (rb_child (rb_set_color (rb_set_color m b c) k rb_black) b (other w) ≡ o)
        × Placed N V lo real
            (rb_set_color (rb_set_color (rb_set_color m b c) k rb_black) o rb_black)
            l5
            (l5.parent k)
            k
            (side (other w) rb_black k (side (other w) c b (tree rb_black o x y) inner) t)
            up
    three_colors =
        let v = other w in
        let s = side v cb b (tree co o x y) inner in
        let s' = side v c b (tree co o x y) inner in
        let a1 = to_child N V lo real m l v p c k s t up at in
        let (e1, a1') =
          named-Placed N V lo real m l k (l.child v k) cb b _ _ (below v c k t up) a1 in
        let m3 = rb_set_color m b c in
        let l3 = put_color l b c in
        let a2 =
          paint-Placed N V lo real m l v k cb b (tree co o x y) inner (below v c k t up) a1' c
            small in
        let (e2, a3) = up_one N V lo real m3 l3 k b s' v c k t up a2 in
        let m4 = rb_set_color m3 k rb_black in
        let l4 = put_color l3 k rb_black in
        let a4 =
          paint-Placed N V lo real m3 l3 v (l3.parent k) c k s' t up a3 rb_black (omega arith) in
        let above_b = below v rb_black k t up in
        let b1 = to_child N V lo real m4 l4 v (l3.parent k) rb_black k s' t up a4 in
        let (e3, b1') = named-Placed N V lo real m4 l4 k (l4.child v k) c b _ _ above_b b1 in
        let b2 = to_child N V lo real m4 l4 v k c b (tree co o x y) inner above_b b1' in
        let (e4, b2') =
          named-Placed N V lo real m4 l4 b (l4.child v b) co o x y (below v c b inner above_b) b2 in
        let m5 = rb_set_color m4 o rb_black in
        let l5 = put_color l4 o rb_black in
        let b3 =
          paint-Placed N V lo real m4 l4 rb_left b co o x y (below v c b inner above_b) b2' rb_black
            (omega arith) in
        let (e5, b4) = up_one N V lo real m5 l5 b o (tree rb_black o x y) v c b inner above_b b3 in
        let (e6, b5) =
          up_one N V lo real m5 l5 (l5.parent b) b (side v c b (tree rb_black o x y) inner) v
            rb_black k t up b4 in
        (
          l5,
          color_here N V lo real m l v p c k s t up at,
          child_here N V lo real m4 l4 v k c b (tree co o x y) inner above_b b1' ∙ e4,
          b5,
        )

    pub lift_top-Placed :
        (l' : Links) × (p' : ℕ) × Placed N V lo real
          (lift_top m k w b)
          l'
          p'
          b
          (side (other w) c b (tree rb_black o x y) (side (other w) rb_black k inner t))
          up
    lift_top-Placed =
        let (l5, ec, eo, a5) = three_colors in
        let v = other w in
        let m5 = rb_set_color (rb_set_color (rb_set_color m b c) k rb_black) o rb_black in
        let s5 = side v c b (tree rb_black o x y) inner in
        let ep = parent_here N V lo real m5 l5 v (l5.parent k) rb_black k s5 t up a5 in
        let on = which_here N V lo real m5 l5 v (l5.parent k) rb_black k s5 t up a5 in
        let pw = rb_which m5 k (l5.parent k) in
        let turned =
          rb_rotate-Placed N V lo real m5 l5 (l5.parent k) k rb_black b c v (tree rb_black o x y)
            inner t up a5 pw on in
        (rotate_links l5 b v k pw (l5.parent k), l5.parent k, rw (ec, eo, ep) turned)
