-- ===== src/Malloc/Tree/FixRotate.antt =====
-- `fix_rotate`: what the branch of `rb_insert_fixup` in malloclab/mm.c with a black uncle leaves.
use mathlib.Core.Path.{subst}
use ics.Common.{ℕ, ◌≡◌, refl, sym, ap, ◌∙◌, ◌≢◌, true, false, arith}
use ics.Bytes.{Buffer}
use ics.Malloc.Tree.{other, same_which, rbnull, rb_which, Which, rb_left, rb_right}
use ics.Malloc.Tree.Focus.{side, occurs-side, Hangs, side-Hangs, RbTree, Above, tree, below}
use ics.Malloc.Tree.Insert.{rb_rotate, fix_rotate}
use ics.Malloc.Tree.Links.{Links}
use ics.Malloc.Tree.Rotate.{rotate_links}
use ics.Malloc.Tree.BlackUncle.{last_turn, rb_rotate-Placed, reads_side, last_turn-Placed, Placed}

-- The tree in the place of the grandparent `g`: `k` hangs on its side `w1`, and `n` on the side `w`
-- of `k`.
abbrev pub turned : Which → Which → ℕ → ℕ → RbTree → RbTree → ℕ → ℕ → RbTree → ℕ → RbTree → RbTree
turned rb_left rb_left ct n a b c k s g s1 =
    side rb_left 1 k (tree ct n a b) (side rb_left 0 g s s1)
turned rb_right rb_right ct n a b c k s g s1 =
    side rb_right 1 k (tree ct n a b) (side rb_right 0 g s s1)
turned rb_left rb_right ct n a b c k s g s1 =
    side rb_right 1 n (side rb_left c k b s) (side rb_right 0 g a s1)
turned rb_right rb_left ct n a b c k s g s1 =
    side rb_left 1 n (side rb_right c k a s) (side rb_left 0 g b s1)

abbrev pub turned_top : Which → Which → ℕ → ℕ → ℕ
turned_top rb_left rb_left n k = k
turned_top rb_right rb_right n k = k
turned_top rb_left rb_right n k = n
turned_top rb_right rb_left n k = n

module _ (N : ℕ → Type 0) (V : ℕ → ℕ) (lo : ℕ) (real : (k : ℕ) → N k → k ≢ rbnull) where
  -- The place of the node above.
  pub up_one :
      (m : Buffer) (l : Links) (p n : ℕ) (t : RbTree) (w : Which) (c k : ℕ) (s : RbTree)
      (up : Above)
      → Placed N V lo real m l p n t (below w c k s up)
      → (p ≡ k) × Placed N V lo real m l (l.parent k) k (side w c k t s) up
  up_one m l p n t w c k s up at =
      let (e, at_k, q, r, h, u) = at.under in
      let ht : Hangs N real l k n t = rw (← e) at.hangs in
      (
        e,
        record {
          holds = at.holds;
          hangs = side-Hangs N real l w (l.parent k) k c k t s refl at_k refl q (rw r ht) h;
          under = u;
          once = λ j. let o = at.once j in let e' = occurs-side w j c k t s in omega (arith, o, e');
        },
      )

  module _ (m : Buffer) (l : Links) (p ct n : ℕ) (a b : RbTree) (c k : ℕ) (s : RbTree) (c1 g : ℕ)
      (s1 : RbTree) (up : Above) where
    straight_turn :
        (w : Which)
        → Placed N V lo real m l p n (tree ct n a b) (below w c k s (below w c1 g s1 up))
        → (rb_which m n k ≡ w)
        → (l' : Links) × Placed N V lo real
            (fix_rotate lo m n k w g)
            l'
            (l.parent g)
            k
            (side w 1 k (tree ct n a b) (side w 0 g s s1))
            up
    unfolding fix_rotate
    straight_turn w at e =
        let (e1, at1) = up_one m l p n (tree ct n a b) w c k s (below w c1 g s1 up) at in
        let (e2, at2) = up_one m l (l.parent k) k (side w c k (tree ct n a b) s) w c1 g s1 up at1 in
        let t : same_which w w ≡ true = same_self w in
        rw (e, t)
          (last_turn-Placed N V lo real m l (l.parent g) g c1 k c w (tree ct n a b) s s1 up at2)
      where
        same_self : (w' : Which) → same_which w' w' ≡ true
        same_self rb_left = refl
        same_self rb_right = refl

    code :
        (w : Which)
        → rb_which m n k ≡ w
        → fix_rotate lo m n k (other w) g
          ≡ last_turn N V lo real (rb_rotate lo m n w k (other w) g) n
    unfolding fix_rotate
    code w e = let t : same_which w (other w) ≡ false = not_other w in rw (e, t) refl
      where
        not_other : (w' : Which) → same_which w' (other w') ≡ false
        not_other rb_left = refl
        not_other rb_right = refl

    -- The node hangs on the other side: `x` is its child on the side `w`.
    bent_turn :
        (w : Which) (x y : RbTree)
        → Placed N V lo real m l p n (side w ct n x y) (below w c k s (below (other w) c1 g s1 up))
        → (l' : Links) × (p' : ℕ) × Placed N V lo real
            (fix_rotate lo m n k (other w) g)
            l'
            p'
            n
            (side (other w) 1 n (side w c k y s) (side (other w) 0 g x s1))
            up
    bent_turn w x y at =
        let (e1, at1) = up_one m l p n (side w ct n x y) w c k s (below (other w) c1 g s1 up) at in
        let e2 : l.parent k ≡ g = at1.under.0 in
        let (a1, b1, e, d1) =
          reads_side N V lo real m l (l.parent k) k c n ct w x y s (below (other w) c1 g s1 up)
            at1 in
        let l1 = rotate_links l n w k (other w) (l.parent k) in
        let at2 =
          rb_rotate-Placed N V lo real m l (l.parent k) k c n ct w x y s
            (below (other w) c1 g s1 up) at1 (other w) refl in
        let m1 = rb_rotate lo m n w k (other w) (l.parent k) in
        let (e3, at3) =
          up_one m1 l1 (l.parent k) n (side w ct n x (side w c k y s)) (other w) c1 g s1 up at2 in
        let at4 : Placed N V lo real m1 l1 (l1.parent g) g
            (side (other w) c1 g (side (other w) ct n (side w c k y s) x) s1) up =
          subst (λ q. Placed N V lo real m1 l1 (l1.parent g) g (side (other w) c1 g q s1) up)
            (sym (side_swap w ct n x (side w c k y s))) at3 in
        let (l', end) =
          last_turn-Placed N V lo real m1 l1 (l1.parent g) g c1 n ct (other w) (side w c k y s) x s1
            up at4 in
        (
          l',
          l1.parent g,
          subst
              (λ q.
                Placed N V lo real q l' (l1.parent g) n
                  (side (other w) 1 n (side w c k y s) (side (other w) 0 g x s1)) up)
              (ap (λ q. last_turn N V lo real (rb_rotate lo m n w k (other w) q) n) e2
                ∙ sym (code w e))
              end,
        )
      where
        side_swap :
            (w' : Which) (c' n' : ℕ) (x' y' : RbTree)
            → side (other w') c' n' y' x' ≡ side w' c' n' x' y'
        side_swap rb_left c' n' x' y' = refl
        side_swap rb_right c' n' x' y' = refl

    pub fix_rotate-Placed :
        (w w1 : Which)
        → Placed N V lo real m l p n (tree ct n a b) (below w c k s (below w1 c1 g s1 up))
        → (rb_which m n k ≡ w)
        → (l' : Links) × (p' : ℕ) × Placed N V lo real
            (fix_rotate lo m n k w1 g)
            l'
            p'
            (turned_top w w1 n k)
            (turned w w1 ct n a b c k s g s1)
            up
    fix_rotate-Placed rb_left rb_left at e =
        let (l', end) = straight_turn rb_left at e in (l', l.parent g, end)
    fix_rotate-Placed rb_right rb_right at e =
        let (l', end) = straight_turn rb_right at e in (l', l.parent g, end)
    fix_rotate-Placed rb_left rb_right at e = bent_turn rb_left a b at
    fix_rotate-Placed rb_right rb_left at e = bent_turn rb_right b a at
