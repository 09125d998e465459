-- ===== src/Malloc/Tree/GapClosed.antt =====
-- After `close_gap` in malloclab/mm.c the rules of a red-black tree hold again.
use mathlib.Core.Path.{subst}
use ics.Common.{ℕ, ◌+◌, ◌<◌, ◌≡◌, refl, sym, ap, ◌∙◌, ◌≢◌, some, append_assoc, arith}
use ics.Malloc.Tree.RedBlack.{
  refill, inorder, Sound, Balanced, SoundAbove, BalancedAbove, side-Sound, side-Balanced,
  refill-IsRedBlack, refill-inorder, black_node,
}
use ics.Bytes.{Buffer}
use ics.Malloc.Tree.{other, rb_red, rb_black, rbnull, rb_child, rb_color, Which, rb_left, rb_right}
use ics.Malloc.Tree.Focus.{at_left, side, RbTree, Above, tree}
use ics.Malloc.Tree.Delete.{close_gap}
use ics.Malloc.Tree.Links.{Links}
use ics.Malloc.Tree.Rebuilt.{close-Placed, Rebuilt}
use ics.Malloc.Tree.BlackUncle.{Placed}
use ics.Malloc.Tree.CloseGap.{lift_top, lift_top-Placed}
use ics.Malloc.Tree.Moves.{root_black}
use ics.Malloc.Tree.Gap.{with_black_root, inner_up, gap_straight, gap_bent, bent_parts}

pub at_left_each : (P : RbTree → Type 0) (w : Which) (x y : RbTree) → P x → P y → P (at_left w x y)
at_left_each P rb_left x y a b = a
at_left_each P rb_right x y a b = b

pub at_left_back :
    (P : RbTree → Type 0) (w : Which) (x y : RbTree) → P (at_left w x y) → P (at_left w y x) → P x
at_left_back P rb_left x y a b = a
at_left_back P rb_right x y a b = b

lifted_order :
    (w : Which) (c k cb b o : ℕ) (x y inner t : RbTree)
    → inorder (side (other w) c b (tree rb_black o x y) (side (other w) rb_black k inner t))
      ≡ inorder (side (other w) c k (side (other w) cb b (tree rb_red o x y) inner) t)
lifted_order rb_left c k cb b o x y inner t = simp append_assoc
lifted_order rb_right c k cb b o x y inner t = simp append_assoc

bent_order :
    (w : Which) (c k cb b i : ℕ) (outer x y t : RbTree)
    → inorder (side (other w) c k (side (other w) rb_black i (side w rb_red b y outer) x) t)
      ≡ inorder (side (other w) c k (side (other w) cb b outer (side w rb_red i x y)) t)
bent_order rb_left c k cb b i outer x y t = simp append_assoc
bent_order rb_right c k cb b i outer x y t = simp append_assoc

module _ (N : ℕ → Type 0) (V : ℕ → ℕ) (lo : ℕ) (real : (k : ℕ) → N k → k ≢ rbnull) (h : ℕ) where
  -- A tree of the height `h` with its rules.
  abbrev pub Good : RbTree → Type 0
  Good t = Sound t × Balanced h t

  module _ (m : Buffer) (l : Links) (p c k : ℕ) (w : Which) (t : RbTree) (up : Above)
      (small : c < 2) (good : Good t) (sa : SoundAbove c up)
      (ba : BalancedAbove (h + 1 + c) up) where
    lifted-Rebuilt :
        (cb b o : ℕ) (x y inner : RbTree)
        → Placed N V lo real m l p k
            (side (other w) c k (side (other w) cb b (tree rb_red o x y) inner) t)
            up
        → Good x
        → Good y
        → Good inner
        → Rebuilt N V lo real (some (with_black_root N V lo real (lift_top N V lo real m k w b))) (
            inorder
              (refill up (side (other w) c k (side (other w) cb b (tree rb_red o x y) inner) t)))
    lifted-Rebuilt cb b o x y inner at (sx, bx) (sy, by') (si, bi) =
        let v = other w in
        let (st, bt) = good in
        let (l', p', at') =
          lift_top-Placed N V lo real m l p c k w cb b rb_red o x y inner t up small at in
        let (s1, e1) =
          side-Sound v rb_black k inner t (omega arith) (λ e. absurd (omega arith)) si st in
        let b1 = side-Balanced v h rb_black k inner t bi bt in
        let (s2, e2) =
          side-Sound v c b (tree rb_black o x y) (side v rb_black k inner t) small (λ e. (refl, e1))
            (black_node o x y sx sy) s1 in
        let b2 =
          side-Balanced v (h + 1) c b (tree rb_black o x y) (side v rb_black k inner t)
            (h, refl, bx, by') b1 in
        let result = side v c b (tree rb_black o x y) (side v rb_black k inner t) in
        let m6 = lift_top N V lo real m k w b in
        let rules =
          refill-IsRedBlack up (h + 1 + c) result s2 b2 (subst (λ i. SoundAbove i up) (sym e2) sa)
            ba in
        let closed = close-Placed N V lo real m6 l' up p' b result at' in
        let (l'', last) = root_black N V lo real m6 l' (refill up result) closed rules.black_root in
        record {
          memory = with_black_root N V lo real m6;
          links = l'';
          result = refill up result;
          ends = refl;
          placed = last;
          red_black = rules;
          same_nodes = refill-inorder up _ _ (lifted_order w c k cb b o x y inner t);
        }

    pub straight_gap :
        (cb b o : ℕ) (x y inner : RbTree)
        → Placed N V lo real m l p k
            (side (other w) c k (side (other w) cb b (tree rb_red o x y) inner) t)
            up
        → rb_color m (rb_child m b (other w)) ≡ rb_red
        → Good x
        → Good y
        → Good inner
        → Rebuilt N V lo real (some (close_gap lo m k w b)) (
            inorder
              (refill up (side (other w) c k (side (other w) cb b (tree rb_red o x y) inner) t)))
    straight_gap cb b o x y inner at e gx gy gi =
        rw (gap_straight N V lo real m k w b e) (lifted-Rebuilt cb b o x y inner at gx gy gi)

  module _ (m : Buffer) (l : Links) (p c k : ℕ) (w : Which) (t : RbTree) (up : Above)
      (small : c < 2) (good : Good t) (sa : SoundAbove c up)
      (ba : BalancedAbove (h + 1 + c) up) where
    pub bent_gap :
        (cb b : ℕ) (outer : RbTree) (i : ℕ) (x y : RbTree)
        → Placed N V lo real m l p k
            (side (other w) c k (side (other w) cb b outer (side w rb_red i x y)) t)
            up
        → rb_color m (rb_child m b (other w)) ≡ rb_black
        → Good outer
        → Good x
        → Good y
        → Rebuilt N V lo real (some (close_gap lo m k w b)) (
            inorder
              (refill up (side (other w) c k (side (other w) cb b outer (side w rb_red i x y)) t)))
    bent_gap cb b outer i x y at e go gx gy =
        let (l', ei, at') = bent_parts N V lo real m l p c k w cb b outer i x y t up small at in
        let m' = inner_up N V lo real m k w b i in
        let done' =
          lifted-Rebuilt m' l' (l'.parent k) c k w t up small good sa ba rb_black i b
            (at_left w y outer) (at_left w outer y) x at' (at_left_each Good w y outer gy go)
            (at_left_each Good w outer y go gy) gx in
        record {
          memory = done'.memory;
          links = done'.links;
          result = done'.result;
          ends = ap some (gap_bent N V lo real m k w b i e ei) ∙ done'.ends;
          placed = done'.placed;
          red_black = done'.red_black;
          same_nodes =
              done'.same_nodes ∙ refill-inorder up _ _ (bent_order w c k cb b i outer x y t);
        }
