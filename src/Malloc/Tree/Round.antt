-- ===== src/Malloc/Tree/Round.antt =====
-- What a round of `rb_delete_fixup` in malloclab/mm.c with a black brother leads to.
use mathlib.Core.Path.{subst}
use ics.Common.{ℕ, zero, suc, ◌+◌, ◌<◌, ◌≡◌, refl, sym, ap, ◌∙◌, ◌≢◌, ◌⊎◌, inl, inr, List, arith}
use ics.Malloc.Tree.RedBlack.{
  refill, inorder, color_of, Sound, Balanced, SoundAbove, BalancedAbove, side-Sound, side-Balanced,
  refill-inorder,
}
use ics.Bytes.{Buffer}
use ics.Malloc.Tree.{
  other, rb_red, rb_black, rbnull, rb_child, rb_color, rb_set_color, rb_which, Which, rb_left,
  rb_right,
}
use ics.Malloc.Tree.Focus.{at_left, side, RbTree, Above, empty, tree, whole, below}
use ics.Malloc.Tree.Delete.{rb_delete_fixup}
use ics.Malloc.Tree.Links.{put_color, Links}
use ics.Malloc.Tree.Rebuilt.{same_run, from_parts, Rebuilt}
use ics.Malloc.Tree.BlackUncle.{Placed}
use ics.Malloc.Tree.Moves.{color_here, parent_here, which_here, paint-Placed}
use ics.Malloc.Tree.Turned.{OnSide}
use ics.Malloc.Tree.GapClosed.{at_left_back, Good, straight_gap, bent_gap}
use ics.Malloc.Tree.Brother.{
  by_side, black_round, round_gap, round_red, round_up, both_black, outer_red, inner_red,
  outer_color, inner_color, red_brother,
}

pub zero_or_one : (c : ℕ) → c < 2 → (c ≡ rb_red) ⊎ (c ≡ rb_black)
zero_or_one zero lt = inl refl
zero_or_one (suc c) lt = inr (omega arith)

-- What is above a red tree is right for a black one.
pub black_top : (up : Above) {c : ℕ} → c ≡ rb_red → SoundAbove c up → SoundAbove rb_black up
black_top whole e sa = refl
black_top (below w d k s up) e (lt, f, ss, a) = (lt, (λ z. (refl, (f z).1)), ss, a)

pub red_cases :
    (t : RbTree)
    → Sound t
    → (color_of t ≡ rb_black) ⊎ ((n : ℕ) × (a : RbTree) × (b : RbTree) × (t ≡ tree rb_red n a b))
red_cases empty s = inl refl
red_cases (tree zero n a b) s = inr (n, a, b, refl)
red_cases (tree (suc c) n a b) (lt, f, x, y) = inl (omega arith)

recolored_brother :
    (w : Which) (c c' k b d d' : ℕ) (outer inner t : RbTree)
    → inorder (side (other w) c k (side (other w) d b outer inner) t)
      ≡ inorder (side (other w) c' k (side (other w) d' b outer inner) t)
recolored_brother rb_left c c' k b d d' outer inner t = refl
recolored_brother rb_right c c' k b d d' outer inner t = refl

pub Good-red :
    (N : ℕ → Type 0) (V : ℕ → ℕ) (lo : ℕ) (real : (k : ℕ) → N k → k ≢ rbnull) (h n : ℕ)
    (a b : RbTree)
    → Good N V lo real h (tree rb_red n a b)
    → Good N V lo real h a × Good N V lo real h b
Good-red N V lo real h n a b ((lt, f, sa, sb), (h', e, ba, bb)) =
    let same : h' ≡ h = omega (arith, e) in
    ((sa, subst (λ i. Balanced i a) same ba), (sb, subst (λ i. Balanced i b) same bb))

module _ (N : ℕ → Type 0) (V : ℕ → ℕ) (lo : ℕ) (real : (k : ℕ) → N k → k ≢ rbnull) (fuel h : ℕ)
    (m : Buffer) (l : Links) (p c k : ℕ) (w : Which) (b : ℕ) (outer inner t : RbTree) (up : Above)
    (at : Placed N V lo real m l p k
      (side (other w) c k (side (other w) rb_black b outer inner) t)
      up)
    (small : c < 2) (good : Good N V lo real h t) (black : color_of t ≡ rb_black)
    (good_outer : Good N V lo real h outer) (good_inner : Good N V lo real h inner)
    (sa : SoundAbove c up) (ba : BalancedAbove (h + 1 + c) up) where
  abbrev nodes : List ℕ
  nodes = inorder (refill up (side (other w) c k (side (other w) rb_black b outer inner) t))

  -- The gap moves up, or ends at a red parent.
  module _ (ob : color_of outer ≡ rb_black) (ib : color_of inner ≡ rb_black)
      (next : (m' : Buffer) (l' : Links) (t' : RbTree) (w' : Which)
        → c ≡ rb_black
        → Placed N V lo real m' l' (l'.parent k) k t' up
        → OnSide w' up
        → Good N V lo real (h + 1) t'
        → color_of t' ≡ rb_black
        → Rebuilt N V lo real
            (rb_delete_fixup lo fuel m' (l'.parent k) w')
            (inorder (refill up t'))) where
    children_black :
        rb_color m (rb_child m b w) ≡ rb_black × rb_color m (rb_child m b (other w)) ≡ rb_black
    children_black = (
      inner_color N V lo real m l p c k w rb_black b outer inner t up at ∙ ib,
      outer_color N V lo real m l p c k w rb_black b outer inner t up at ∙ ob,
    )

    red_subtree :
        Sound (side (other w) rb_red b outer inner)
        × Balanced h (side (other w) rb_red b outer inner)
    red_subtree =
        let (so, bo) = good_outer in
        let (si, bi) = good_inner in
        (
          (side-Sound (other w) rb_red b outer inner (omega arith) (λ e. (ob, ib)) so si).0,
          subst (λ i. Balanced i (side (other w) rb_red b outer inner)) (omega arith)
              (side-Balanced (other w) h rb_red b outer inner bo bi),
        )

    -- The parent is black or becomes black.
    black_subtree :
        Good N V lo real (h + 1) (side (other w) rb_black k (side (other w) rb_red b outer inner) t)
    black_subtree =
        let (sr, br) = red_subtree in
        let (st, bt) = good in
        (
          (side-Sound (other w) rb_black k (side (other w) rb_red b outer inner) t (omega arith)
              (λ e. absurd (omega arith)) sr st).0,
          side-Balanced (other w) h rb_black k (side (other w) rb_red b outer inner) t br bt,
        )

    all_black : Rebuilt N V lo real (black_round lo fuel m k w b) nodes
    all_black =
        let v = other w in
        let (ei, eo) = children_black in
        let both = both_black m b w ei eo in
        let (l2, at2) = red_brother N V lo real m l p c k w rb_black b outer inner t up at in
        let m2 = rb_set_color m b rb_red in
        let s2 = side v rb_red b outer inner in
        let ec = color_here N V lo real m2 l2 v (l2.parent k) c k s2 t up at2 in
        let ep = parent_here N V lo real m2 l2 v (l2.parent k) c k s2 t up at2 in
        let on = which_here N V lo real m2 l2 v (l2.parent k) c k s2 t up at2 in
        elim (zero_or_one c small) [
          | inl z ↦
              let m3 = rb_set_color m2 k rb_black in
              let l3 = put_color l2 k rb_black in
              let at3 =
                paint-Placed N V lo real m2 l2 v (l2.parent k) c k s2 t up at2 rb_black
                  (omega arith) in
              let (s3, b3) = black_subtree in
              let (lt, top) =
                side-Sound v rb_black k s2 t (omega arith) (λ e. absurd (omega arith)) red_subtree.0
                  good.0 in
              from_parts N V lo real _ _ m3 l3 (l2.parent k) k (side v rb_black k s2 t) up (h + 1)
                (round_red lo fuel m k w b both (ec ∙ z)) at3 s3 b3 (black_top up z sa)
                (subst (λ i. BalancedAbove i up) (omega arith) ba)
                (refill-inorder up _ _
                  (recolored_brother w rb_black c k b rb_red rb_black outer inner t))
          | inr z ↦
              let at3 =
                subst (λ i. Placed N V lo real m2 l2 (l2.parent k) k (side v i k s2 t) up) z at2 in
              let (s3, b3) = black_subtree in
              same_run N V lo real _ _ _ _ (round_up lo fuel m k w b (l2.parent k) both (ec ∙ z) ep)
                (refill-inorder up _ _
                  (recolored_brother w rb_black c k b rb_red rb_black outer inner t))
                (next m2 l2 (side v rb_black k s2 t) (rb_which m2 k (l2.parent k)) z at3 on (s3, b3)
                  refl)
        ]

  straight_case :
      (o : ℕ) (x y : RbTree)
      → outer ≡ tree rb_red o x y
      → Rebuilt N V lo real (black_round lo fuel m k w b) nodes
  straight_case o x y e =
      let v = other w in
      let (gx, gy) = Good-red N V lo real h o x y (subst (Good N V lo real h) e good_outer) in
      let at' =
        subst (λ q. Placed N V lo real m l p k (side v c k (side v rb_black b q inner) t) up) e
          at in
      let eo = outer_color N V lo real m l p c k w rb_black b outer inner t up at ∙ ap color_of e in
      same_run N V lo real _ _ _ _ (round_gap lo fuel m k w b (outer_red m b w eo))
        (ap (λ q. inorder (refill up (side v c k (side v rb_black b q inner) t))) (sym e))
        (straight_gap N V lo real h m l p c k w t up small good sa ba rb_black b o x y inner at' eo
          gx gy good_inner)

  bent_case :
      (i : ℕ) (x y : RbTree)
      → color_of outer ≡ rb_black
      → inner ≡ side w rb_red i x y
      → Rebuilt N V lo real (black_round lo fuel m k w b) nodes
  bent_case i x y ob e =
      let v = other w in
      let (ga, gb) =
        Good-red N V lo real h i (at_left w x y) (at_left w y x)
          (subst (Good N V lo real h) e good_inner) in
      let gx : Good N V lo real h x = at_left_back (Good N V lo real h) w x y ga gb in
      let gy : Good N V lo real h y = at_left_back (Good N V lo real h) w y x gb ga in
      let at' =
        subst (λ q. Placed N V lo real m l p k (side v c k (side v rb_black b outer q) t) up) e
          at in
      let eo = outer_color N V lo real m l p c k w rb_black b outer inner t up at ∙ ob in
      let ei = inner_color N V lo real m l p c k w rb_black b outer inner t up at ∙ ap color_of e in
      same_run N V lo real _ _ _ _ (round_gap lo fuel m k w b (inner_red m b w ei))
        (ap (λ q. inorder (refill up (side v c k (side v rb_black b outer q) t))) (sym e))
        (bent_gap N V lo real h m l p c k w t up small good sa ba rb_black b outer i x y at' eo
          good_outer gx gy)

  pub black_round-Rebuilt :
      ((m' : Buffer) (l' : Links) (t' : RbTree) (w' : Which)
        → c ≡ rb_black
        → Placed N V lo real m' l' (l'.parent k) k t' up
        → OnSide w' up
        → Good N V lo real (h + 1) t'
        → color_of t' ≡ rb_black
        → Rebuilt N V lo real
            (rb_delete_fixup lo fuel m' (l'.parent k) w')
            (inorder (refill up t')))
      → Rebuilt N V lo real (black_round lo fuel m k w b) nodes
  black_round-Rebuilt next = elim (red_cases outer good_outer.0) [
    | inr (o, x, y, e) ↦ straight_case o x y e
    | inl ob ↦ elim (red_cases inner good_inner.0) [
      | inr (i, x, y, e) ↦
          bent_case i (at_left w x y) (at_left w y x) ob (e ∙ by_side w rb_red i x y)
      | inl ib ↦ all_black ob ib next
    ]
  ]
