-- ===== src/Malloc/Tree/DeleteFixup.antt =====
-- `rb_delete_fixup` of malloclab/mm.c: a tree that is one black node short is set right.
use ics.Malloc.Tree.LiftBrother.{from_black_brother, from_red_brother, lift_brother-Placed}
use mathlib.Core.Path.{subst}
use ics.Common.{
  ℕ, zero, suc, ◌+◌, ◌<◌, ◌≡◌, refl, sym, ap, ◌∙◌, ◌≢◌, true, some, append_assoc, arith, ◌==◌,
  ==_iff,
}
use ics.Malloc.Tree.RedBlack.{
  refill, inorder, color_of, Balanced, SoundAbove, BalancedAbove, refill-inorder,
}
use ics.Malloc.Tree.Stored.{nodes_differ}
use ics.Bytes.{Buffer}
use ics.Malloc.Tree.{other, rb_red, rb_black, rbnull, Which, rb_left, rb_right}
use ics.Malloc.Tree.Focus.{at_left, side, RbTree, Above, empty, tree, whole, below}
use ics.Malloc.Tree.Delete.{lift_brother, rb_delete_fixup}
use ics.Malloc.Tree.Links.{Links}
use ics.Malloc.Tree.Rebuilt.{levels, same_run, from_parts, Rebuilt}
use ics.Malloc.Tree.BlackUncle.{Placed}
use ics.Malloc.Tree.FixRotate.{up_one}
use ics.Malloc.Tree.Gap.{side_swap}
use ics.Malloc.Tree.Moves.{color_here}
use ics.Malloc.Tree.Turned.{OnSide}
use ics.Malloc.Tree.GapClosed.{at_left_each, Good}
use ics.Malloc.Tree.Brother.{by_side, at_brother, brother_read}
use ics.Malloc.Tree.Round.{black_round-Rebuilt}

same_sum : (h : ℕ) → h + 1 ≡ h + 1 + rb_red
same_sum h = omega arith

black_small : rb_black < 2
black_small = omega arith

red_small : rb_red < 2
red_small = omega arith

black_not_red : rb_black ≢ rb_red
black_not_red e = omega arith

not_red : (c : ℕ) → c < 2 → (c ≡ rb_red → rb_red ≡ rb_black) → c ≡ rb_black
not_red zero lt f = f refl
not_red (suc c) lt f = omega arith

lifted_brother :
    (w : Which) (c k b : ℕ) (outer inner t : RbTree)
    → inorder (side w rb_black b (side (other w) rb_red k inner t) outer)
      ≡ inorder (side (other w) c k (side (other w) rb_red b outer inner) t)
lifted_brother rb_left c k b outer inner t = simp append_assoc
lifted_brother rb_right c k b outer inner t = simp append_assoc

module _ (N : ℕ → Type 0) (V : ℕ → ℕ) (lo : ℕ) (real : (k : ℕ) → N k → k ≢ rbnull) where
  -- The children of a black tree that is not empty.
  black_parts :
      (h : ℕ) (t : RbTree)
      → Good N V lo real (h + 1) t
      → color_of t ≡ rb_black
      → (n : ℕ) × (a : RbTree) × (b : RbTree) × (t ≡ tree rb_black n a b)
        × Good N V lo real h a
        × Good N V lo real h b
  black_parts h empty (s, b) e = absurd (omega (arith, b))
  black_parts h (tree c n x y) ((lt, f, sx, sy), (h', eh, bx, by')) e =
      let same : h' ≡ h = omega (arith, eh, e) in
      (
        n,
        x,
        y,
        ap (λ i. tree i n x y) e,
        (sx, subst (λ i. Balanced i x) same bx),
        (sy, subst (λ i. Balanced i y) same by'),
      )

  module _ (fuel h : ℕ) (m : Buffer) (l : Links) (p n : ℕ) (t : RbTree) (w : Which) (c k b : ℕ)
      (x y : RbTree) (up : Above) (small : c < 2) (good : Good N V lo real h t)
      (black : color_of t ≡ rb_black) (sa : SoundAbove c up) where
    -- The place of the parent, with the brother first.
    at_parent :
        (d : ℕ)
        → Placed N V lo real m l p n t (below w c k (tree d b x y) up)
        → (p ≡ k)
          × Placed N V lo real m l
              (l.parent k)
              k
              (side
                (other w)
                c
                k
                (side (other w) d b (at_left (other w) x y) (at_left (other w) y x))
                t)
              up
    at_parent d at =
        let v = other w in
        let (e, a1) = up_one N V lo real m l p n t w c k (tree d b x y) up at in
        let a2 =
          subst (λ q. Placed N V lo real m l (l.parent k) k q up)
            (sym (side_swap w c k t (tree d b x y))) a1 in
        (
          e,
          subst (λ q. Placed N V lo real m l (l.parent k) k (side v c k q t) up) (by_side v d b x y)
              a2,
        )

    same_order :
        (d : ℕ)
        → inorder (
            refill up (
              side
                (other w)
                c
                k
                (side (other w) d b (at_left (other w) x y) (at_left (other w) y x))
                t))
          ≡ inorder (refill (below w c k (tree d b x y) up) t)
    same_order d =
        ap (λ q. inorder (refill up (side (other w) c k q t))) (sym (by_side (other w) d b x y))
        ∙ ap (λ q. inorder (refill up q)) (side_swap w c k t (tree d b x y))

    black_brother :
        Placed N V lo real m l p n t (below w c k (tree rb_black b x y) up)
        → Good N V lo real h x
        → Good N V lo real h y
        → BalancedAbove (h + 1 + c) up
        → ((m' : Buffer) (l' : Links) (t' : RbTree) (w' : Which)
            → c ≡ rb_black
            → Placed N V lo real m' l' (l'.parent k) k t' up
            → OnSide w' up
            → Good N V lo real (h + 1) t'
            → color_of t' ≡ rb_black
            → Rebuilt N V lo real
                (rb_delete_fixup lo fuel m' (l'.parent k) w')
                (inorder (refill up t')))
        → Rebuilt N V lo real
            (rb_delete_fixup lo (suc fuel) m p w)
            (inorder (refill (below w c k (tree rb_black b x y) up) t))
    black_brother at gx gy ba next =
        let v = other w in
        let (e, a3) = at_parent rb_black at in
        let outer = at_left v x y in
        let inner = at_left v y x in
        let q = l.parent k in
        let ne = nodes_differ N V lo k rbnull (real k (at.under.1)) in
        let eb = brother_read N V lo real m l q c k w rb_black b outer inner t up a3 in
        let ab = at_brother N V lo real m l q c k w rb_black b outer inner t up a3 in
        let ec = color_here N V lo real m l v k rb_black b outer inner (below v c k t up) ab in
        same_run N V lo real _ _ _ _
          (ap (λ i. rb_delete_fixup lo (suc fuel) m i w) e
            ∙ from_black_brother lo fuel m k w ne b eb ec)
          (same_order rb_black)
          (black_round-Rebuilt N V lo real fuel h m l q c k w b outer inner t up a3 small good black
            (at_left_each (Good N V lo real h) v x y gx gy)
            (at_left_each (Good N V lo real h) v y x gy gx) sa ba next)

    red_brother_case :
        Placed N V lo real m l p n t (below w c k (tree rb_red b x y) up)
        → c ≡ rb_black
        → Good N V lo real (h + 1) x × (color_of x ≡ rb_black)
        → Good N V lo real (h + 1) y × (color_of y ≡ rb_black)
        → BalancedAbove (h + 1 + c) up
        → Rebuilt N V lo real
            (rb_delete_fixup lo (suc fuel) m p w)
            (inorder (refill (below w c k (tree rb_red b x y) up) t))
    red_brother_case at cb gx gy ba =
        let v = other w in
        let (e, a3) = at_parent rb_red at in
        let outer = at_left v x y in
        let inner = at_left v y x in
        let q = l.parent k in
        let both : RbTree → Type 0 = λ r. Good N V lo real (h + 1) r × (color_of r ≡ rb_black) in
        let (go, eo) = at_left_each both v x y gx gy in
        let (gi, ei) = at_left_each both v y x gy gx in
        let (b', x', y', shape, gx', gy') = black_parts h inner gi ei in
        let ne = nodes_differ N V lo k rbnull (real k (at.under.1)) in
        let eb = brother_read N V lo real m l q c k w rb_red b outer inner t up a3 in
        let ab = at_brother N V lo real m l q c k w rb_red b outer inner t up a3 in
        let ec = color_here N V lo real m l v k rb_red b outer inner (below v c k t up) ab in
        let (l1, a4) = lift_brother-Placed N V lo real m l q c k w b outer inner t up a3 in
        let m1 = lift_brother lo m k w b in
        let above_k = below w rb_black b outer up in
        let o1 = at_left v x' y' in
        let i1 = at_left v y' x' in
        let named = shape ∙ by_side v rb_black b' x' y' in
        let a5 = subst (λ r. Placed N V lo real m1 l1 b k (side v rb_red k r t) above_k) named a4 in
        let eb' = brother_read N V lo real m1 l1 b rb_red k w rb_black b' o1 i1 t above_k a5 in
        let black_sa = subst (λ i. SoundAbove i up) cb sa in
        let high : BalancedAbove (h + 1 + rb_red + rb_black) up =
          subst (λ i. BalancedAbove i up) (omega (arith, cb)) ba in
        let go' : Balanced (h + 1 + rb_red) outer =
          subst (λ i. Balanced i outer) (same_sum h) go.1 in
        let above_sound : SoundAbove rb_red above_k =
          (black_small, (λ z. absurd (black_not_red z)), go.0, black_sa) in
        let above_balanced : BalancedAbove (h + 1 + rb_red) above_k = (go', high) in
        let run =
          black_round-Rebuilt N V lo real fuel h m1 l1 b rb_red k w b' o1 i1 t above_k a5 red_small
            good black (at_left_each (Good N V lo real h) v x' y' gx' gy')
            (at_left_each (Good N V lo real h) v y' x' gy' gx') above_sound above_balanced
            (λ m' l' t' w' z. absurd (black_not_red (sym z))) in
        same_run N V lo real _ _ _ _
          (ap (λ i. rb_delete_fixup lo (suc fuel) m i w) e
            ∙ from_red_brother lo fuel m k w ne b b' eb ec eb')
          (ap (λ r. inorder (refill above_k (side v rb_red k r t))) (sym named)
            ∙ refill-inorder up _ _ (lifted_brother w c k b outer inner t)
            ∙ same_order rb_red)
          run

  pub nothing_above :
      (fuel : ℕ) (m : Buffer) (p : ℕ) (w : Which)
      → p ≡ rbnull
      → rb_delete_fixup lo (suc fuel) m p w ≡ some m
  unfolding rb_delete_fixup
  nothing_above fuel m p w e = let t : p == rbnull ≡ true = (==_iff p rbnull).1 e in rw t refl

  -- In a memory that holds a black tree, or none, that is one black node short for its place, where
  -- the rules hold otherwise, `rb_delete_fixup` with the parent and the side ends, with fuel for the
  -- levels above, and leaves a red-black tree of the same nodes in the same order.
  pub rb_delete_fixup-Rebuilt :
      (fuel h : ℕ) (m : Buffer) (l : Links) (p n : ℕ) (t : RbTree) (w : Which) (up : Above)
      → levels up < fuel
      → Placed N V lo real m l p n t up
      → Good N V lo real h t
      → color_of t ≡ rb_black
      → OnSide w up
      → SoundAbove rb_black up
      → BalancedAbove (h + 1) up
      → Rebuilt N V lo real (rb_delete_fixup lo fuel m p w) (inorder (refill up t))
  rb_delete_fixup-Rebuilt zero h m l p n t w up lt at good black on sa ba = absurd (omega arith)
  rb_delete_fixup-Rebuilt (suc fuel) h m l p n t w whole lt at good black on sa ba =
      from_parts N V lo real _ _ m l p n t whole h (nothing_above fuel m p w at.under.0) at good.0
        good.1 black tt refl
  rb_delete_fixup-Rebuilt (suc fuel) h m l p n t w (below w' c k empty up) lt at good black on sa
        (bs, ba) =
      absurd (omega (arith, bs))
  rb_delete_fixup-Rebuilt (suc fuel) h m l p n t w (below w' c k (tree zero b x y) up) lt at good
        black on (lc, f, (ld, g, sx, sy), sa) ((h', eh, bx, by'), ba) =
      let (cx, cy) = g refl in
      let same : h' ≡ h + 1 = omega (arith, eh) in
      subst
        (λ i.
          Rebuilt N V lo real (rb_delete_fixup lo (suc fuel) m p i)
            (inorder (refill (below w' c k (tree rb_red b x y) up) t)))
        (sym on)
        (red_brother_case fuel h m l p n t w' c k b x y up lc good black sa at
          (not_red c lc (λ e. (f e).1)) ((sx, subst (λ i. Balanced i x) same bx), cx)
          ((sy, subst (λ i. Balanced i y) same by'), cy) ba)
  rb_delete_fixup-Rebuilt (suc fuel) h m l p n t w (below w' c k (tree (suc d) b x y) up) lt at good
        black on (lc, f, (ld, g, sx, sy), sa) ((h', eh, bx, by'), ba) =
      let one : suc d ≡ rb_black = omega (arith, ld) in
      let same : h' ≡ h = omega (arith, eh, one) in
      let at' = subst (λ i. Placed N V lo real m l p n t (below w' c k (tree i b x y) up)) one at in
      same_run N V lo real _ _ _ _ (ap (λ i. rb_delete_fixup lo (suc fuel) m p i) on)
        (ap (λ i. inorder (refill (below w' c k (tree i b x y) up) t)) (sym one))
        (black_brother fuel h m l p n t w' c k b x y up lc good black sa at'
          (sx, subst (λ i. Balanced i x) same bx) (sy, subst (λ i. Balanced i y) same by') ba
          (λ m' l' t' w'' cb a on' g' black'.
            rb_delete_fixup-Rebuilt fuel (h + 1) m' l' (l'.parent k) k t' w'' up (omega (arith, lt))
              a g' black' on' (subst (λ i. SoundAbove i up) cb sa)
              (subst (λ i. BalancedAbove i up) (ap (λ i. h + 1 + i) cb) ba)))
