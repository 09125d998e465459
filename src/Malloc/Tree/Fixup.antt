-- ===== src/Malloc/Tree/Fixup.antt =====
-- `rb_insert_fixup` of malloclab/mm.c: the rules of a red-black tree hold again.
use mathlib.Core.Path.{subst}
use ics.Common.{ℕ, zero, suc, ◌+◌, ◌<◌, ◌≡◌, refl, sym, ◌∙◌, ◌≢◌, arith}
use ics.Bytes.{Buffer}
use ics.Malloc.Tree.{other, rb_red, rb_black, rbnull, rb_color, Which, rb_left, rb_right}
use ics.Malloc.Tree.Focus.{at_left, side, RbTree, Above, empty, tree, whole, below}
use ics.Malloc.Tree.Rebuilt.{levels, from_parts, at_root, black_parent, Rebuilt}
use ics.Malloc.Tree.RedUncle.{recolored-Placed}
use ics.Malloc.Tree.Insert.{fix_rotate, rb_insert_fixup}
use ics.Malloc.Tree.Links.{Links}
use ics.Malloc.Tree.RedBlack.{
  refill, inorder, color_of, Sound, Balanced, SoundAbove, BalancedAbove, side-Sound, side-Balanced,
  refill-inorder, turned-inorder, black_node, turned-Sound, turned-Balanced,
}
use ics.Malloc.Tree.BlackUncle.{Placed}
use ics.Malloc.Tree.FixRotate.{turned, turned_top, up_one, fix_rotate-Placed}
use ics.Malloc.Tree.Reads.{recolored, head_color, reads_above, fixup_red_uncle, fixup_black_uncle}

recolored_inorder :
    (w w1 : Which) (k : ℕ) (t s : RbTree) (c1 g u : ℕ) (x y : RbTree)
    → inorder (side w1 rb_red g (side w rb_black k t s) (tree rb_black u x y))
      ≡ inorder (side w1 c1 g (side w rb_red k t s) (tree rb_red u x y))
recolored_inorder rb_left rb_left k t s c1 g u x y = refl
recolored_inorder rb_left rb_right k t s c1 g u x y = refl
recolored_inorder rb_right rb_left k t s c1 g u x y = refl
recolored_inorder rb_right rb_right k t s c1 g u x y = refl

-- A parent of a red node that may not be red.
must_black : (c : ℕ) {A : Type 0} → c < 2 → (c ≡ rb_red → (rb_red ≡ rb_black) × A) → c ≡ rb_black
must_black zero lt f = (f refl).0
must_black (suc c) lt f = omega arith

same_height : (h : ℕ) (t : RbTree) → Balanced (h + rb_red) t → Balanced h t
same_height h t = subst (λ i. Balanced i t) (omega arith)

module _ (N : ℕ → Type 0) (V : ℕ → ℕ) (lo : ℕ) (real : (k : ℕ) → N k → k ≢ rbnull) where
  module _ (m : Buffer) (l : Links) (p n : ℕ) (a b : RbTree) (h fuel : ℕ)
      (s0 : Sound (tree rb_red n a b)) (b0 : Balanced h (tree rb_red n a b)) where
    -- A red parent on the side `w1` of `g`.
    module _ (w : Which) (k : ℕ) (s : RbTree) (w1 : Which) (c1 g : ℕ) (up : Above)
        (black : c1 ≡ rb_black) (ss : Sound s) (bs : Balanced h s) (sa : SoundAbove c1 up)
        (ba : BalancedAbove (h + rb_red + c1) up) where
      higher : BalancedAbove (h + 1) up
      higher = subst (λ i. BalancedAbove i up) (omega arith) ba

      black_above : SoundAbove rb_black up
      black_above = subst (λ i. SoundAbove i up) black sa

      pub black_uncle :
          (s1 : RbTree)
          → Placed N V lo real m l p n
              (tree rb_red n a b)
              (below w rb_red k s (below w1 c1 g s1 up))
          → color_of s ≡ rb_black
          → color_of s1 ≡ rb_black
          → Sound s1
          → Balanced h s1
          → Rebuilt N V lo real
              (rb_insert_fixup lo (suc fuel) m n)
              (inorder (refill (below w rb_red k s (below w1 c1 g s1 up)) (tree rb_red n a b)))
      black_uncle s1 at cs c1s ss1 bs1 =
          let t = tree rb_red n a b in
          let above1 = below w1 c1 g s1 up in
          let (i, at_n, q, r, ha, hb) = at.hangs in
          let (ep, ew, eu, ec, er) =
            reads_above N V lo real m l at.holds w rb_red k s above1 p n at.under at_n q
              (ground (arith, at.once n)) in
          let at_k : N k = at.under.1 in
          let (j, at1) = up_one N V lo real m l p n t w rb_red k s above1 at in
          let (eg, ew1, eu1, ec1, er1) =
            reads_above N V lo real m l at.holds w1 c1 g s1 up (l.parent k) k at1.under at_k refl
              (ground (arith, at.once k)) in
          let eh = head_color N V lo real m l at.holds s1 g _ at1.under.4 in
          let (l', p', end) =
            fix_rotate-Placed N V lo real m l p rb_red n a b rb_red k s c1 g s1 up w w1 at ew in
          let (sound, top) = turned-Sound w w1 n a b k s g s1 s0 ss cs ss1 c1s in
          from_parts N V lo real _ _ (fix_rotate lo m n k w1 g) l' p' (turned_top w w1 n k)
            (turned w w1 rb_red n a b rb_red k s g s1) up (h + 1)
            (fixup_black_uncle lo fuel m n k ep er g w1 _ eg ew1 eu1 ec (eh ∙ c1s)) end sound
            (turned-Balanced w w1 h n a b k s g s1 b0 bs bs1)
            (subst (λ i. SoundAbove i up) (sym top) black_above) higher
            (refill-inorder up _ _ (turned-inorder w w1 rb_red n a b rb_red k s c1 g s1))

      pub red_uncle :
          (u : ℕ) (x y : RbTree)
          → Placed N V lo real m l p n
              (tree rb_red n a b)
              (below w rb_red k s (below w1 c1 g (tree rb_red u x y) up))
          → Sound (tree rb_red u x y)
          → Balanced h (tree rb_red u x y)
          → ((m' : Buffer) (l' : Links) (p' : ℕ) (a' b' : RbTree) (h' : ℕ)
              → Placed N V lo real m' l' p' g (tree rb_red g a' b') up
              → Sound (tree rb_red g a' b')
              → Balanced h' (tree rb_red g a' b')
              → SoundAbove rb_black up
              → BalancedAbove h' up
              → Rebuilt N V lo real
                  (rb_insert_fixup lo fuel m' g)
                  (inorder (refill up (tree rb_red g a' b'))))
          → Rebuilt N V lo real (rb_insert_fixup lo (suc fuel) m n) (
              inorder (
                refill
                  (below w rb_red k s (below w1 c1 g (tree rb_red u x y) up))
                  (tree rb_red n a b)))
      red_uncle u x y at (lu, fu, sx, sy) (hu, eh, bx, by') next =
          let t = tree rb_red n a b in
          let s1 = tree rb_red u x y in
          let above1 = below w1 c1 g s1 up in
          let (i, at_n, q, r, ha, hb) = at.hangs in
          let (ep, ew, eu, ec, er) =
            reads_above N V lo real m l at.holds w rb_red k s above1 p n at.under at_n q
              (ground (arith, at.once n)) in
          let at_k : N k = at.under.1 in
          let (j, at1) = up_one N V lo real m l p n t w rb_red k s above1 at in
          let (eg, ew1, eu1, ec1, er1) =
            reads_above N V lo real m l at.holds w1 c1 g s1 up (l.parent k) k at1.under at_k refl
              (ground (arith, at.once k)) in
          let is_u : l.child (other w1) g ≡ u = at1.under.4.0 in
          let color : rb_color m u ≡ rb_red =
            subst (λ i. rb_color m i ≡ rb_red) is_u
              (head_color N V lo real m l at.holds s1 g (l.child (other w1) g) at1.under.4) in
          let (j', at2) =
            up_one N V lo real m l (l.parent k) k (side w rb_red k t s) w1 c1 g s1 up at1 in
          let at3 =
            recolored-Placed N V lo real m l (l.parent g) g c1 k rb_red u rb_red w1 w t s x y up
              at2 in
          let t1 = side w rb_black k t s in
          let u1 = tree rb_black u x y in
          let (sound1, top1) =
            side-Sound w rb_black k t s (omega arith) (λ e. absurd (omega arith)) s0 ss in
          let (sound, top) =
            side-Sound w1 rb_red g t1 u1 (omega arith) (λ e. (refl, refl)) sound1
              (black_node u x y sx sy) in
          let balanced1 = side-Balanced w h rb_black k t s b0 bs in
          let balanced =
            side-Balanced w1 (h + 1) rb_red g t1 u1 balanced1 (hu, omega arith, bx, by') in
          let rest =
            next (recolored m k u g) _ (l.parent g) (at_left w1 t1 u1) (at_left w1 u1 t1)
              (h + 1 + rb_red) at3 sound balanced black_above
              (subst (λ i. BalancedAbove i up) (omega arith) higher) in
          let run = fixup_red_uncle lo fuel m n k ep er g w1 u eg ew1 (eu1 ∙ is_u) ec color in
          record {
            memory = rest.memory;
            links = rest.links;
            result = rest.result;
            ends = run ∙ rest.ends;
            placed = rest.placed;
            red_black = rest.red_black;
            same_nodes =
                rest.same_nodes ∙ refill-inorder up _ _ (recolored_inorder w w1 k t s c1 g u x y);
          }

  -- In a memory that holds a red node whose own tree keeps the rules, at a place where the rules hold
  -- but for a parent that may be red, `rb_insert_fixup` of the node ends, with fuel for the levels
  -- above it, and leaves a red-black tree of the same nodes in the same order.
  pub rb_insert_fixup-Rebuilt :
      (fuel : ℕ) (m : Buffer) (l : Links) (p n : ℕ) (a b : RbTree) (up : Above) (h : ℕ)
      → levels up < fuel
      → Placed N V lo real m l p n (tree rb_red n a b) up
      → Sound (tree rb_red n a b)
      → Balanced h (tree rb_red n a b)
      → SoundAbove rb_black up
      → BalancedAbove h up
      → Rebuilt N V lo real (rb_insert_fixup lo fuel m n) (inorder (refill up (tree rb_red n a b)))
  rb_insert_fixup-Rebuilt zero m l p n a b up h lt at s0 b0 sa ba = absurd (omega arith)
  rb_insert_fixup-Rebuilt (suc fuel) m l p n a b whole h lt at s0 b0 sa ba =
      at_root N V lo real m l p n a b h fuel s0 b0 at
  rb_insert_fixup-Rebuilt (suc fuel) m l p n a b (below w (suc c) k s up) h lt at s0 b0
        (lc, f, ss, sa) (bs, ba) =
      black_parent N V lo real m l p n a b h fuel s0 b0 w (suc c) k s up (omega arith) at ss sa bs
        ba
  rb_insert_fixup-Rebuilt (suc fuel) m l p n a b (below w zero k s whole) h lt at s0 b0
        (lc, f, ss, sa) (bs, ba) =
      absurd (omega arith)
  rb_insert_fixup-Rebuilt (suc fuel) m l p n a b (below w zero k s (below w1 c1 g empty up)) h lt at
        s0 b0 (lc, f, ss, (lc1, f1, ss1, sa)) (bs, (bs1, ba)) =
      black_uncle m l p n a b h fuel s0 b0 w k s w1 c1 g up (must_black c1 lc1 f1) ss bs sa ba empty
        at (f refl).1 refl ss1 (same_height h empty bs1)
  rb_insert_fixup-Rebuilt (suc fuel) m l p n a b
        (below w zero k s (below w1 c1 g (tree (suc c') u x y) up)) h lt at s0 b0
        (lc, f, ss, (lc1, f1, ss1, sa)) (bs, (bs1, ba)) =
      black_uncle m l p n a b h fuel s0 b0 w k s w1 c1 g up (must_black c1 lc1 f1) ss bs sa ba
        (tree (suc c') u x y) at (f refl).1 (let top = ss1.0 in omega arith) ss1
        (same_height h (tree (suc c') u x y) bs1)
  rb_insert_fixup-Rebuilt (suc fuel) m l p n a b
        (below w zero k s (below w1 c1 g (tree zero u x y) up)) h lt at s0 b0
        (lc, f, ss, (lc1, f1, ss1, sa)) (bs, (bs1, ba)) =
      red_uncle m l p n a b h fuel s0 b0 w k s w1 c1 g up (must_black c1 lc1 f1) ss bs sa ba u x y
        at ss1 (same_height h (tree zero u x y) bs1)
        (λ m' l' p' a' b' h' at' s' bal' sa' ba'.
          rb_insert_fixup-Rebuilt fuel m' l' p' g a' b' up h' (omega arith) at' s' bal' sa' ba')
