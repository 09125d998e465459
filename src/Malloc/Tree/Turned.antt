-- ===== src/Malloc/Tree/Turned.antt =====
-- A rotation of the tree in malloclab/mm.c, seen at the place where it is done.
use mathlib.Core.Path.{subst}
use ics.Common.{ℕ, ◌+◌, ◌≤◌, ◌≡◌, refl, sym, ◌∙◌, ◌≢◌, inl, inr, arith, ◌==◌, if◌then◌else◌}
use ics.Malloc.Tree.{other, rbnull, Which}
use ics.Malloc.Tree.Links.{Links}
use ics.Malloc.Tree.Rotate.{
  rotate_links, rotate-color, rotate-parent, rotate_inner, rotate_down, rotate_across, rotate_outer,
  rotate_hook, rotate_beside, rotate_elsewhere, rotate_root,
}
use ics.Malloc.Tree.Focus.{
  side, occurs, occurs_above, occurs-side, Hangs, Under, Hangs-side, side-Hangs, Hangs-node,
  Unchanged, Hangs-kept, Hangs-moved, Hooked, Under-moved, Hangs-head, Under-head, Under-node,
  RbTree, Above, whole, below,
}

-- The side that a tree hangs on, if anything is above it.
abbrev pub OnSide : Which → Above → Type 0
OnSide w whole = Unit
OnSide w (below w' c k s up) = w ≡ w'

module _ (N : ℕ → Type 0) (real : (k : ℕ) → N k → k ≢ rbnull) (l : Links) (g p n : ℕ) (w pw : Which)
    (np : n ≢ p) (above_differs : n ≢ g) (pg : p ≢ g) where
  rotate-Hooked :
      (up : Above)
      → Under N real l g p up
      → OnSide pw up
      → (N g → g ≢ l.child (other w) n)
      → Hooked N real l (rotate_links l n w p pw g) n up
  rotate-Hooked whole (z, r) on far = rotate_root l n w p pw g np above_differs pg ∙ ground arith
  rotate-Hooked (below w' c k s up) (e, at, q, r, h, u) on far =
      let gk : N g = subst N (sym e) at in
      let null = real g gk in
      let far' = far gk in
      (
        rotate_root l n w p pw g np above_differs pg ∙ ground arith,
        rw (← e) (rotate-parent l n w p pw g np above_differs pg g ∙ ground arith),
        rw (← e, ← on) (rotate_hook l n w p pw g np above_differs pg),
        rw (← e, ← on) (rotate_beside l n w p pw g np above_differs pg),
      )

-- `p` hangs below `g`; `n` is its child on the side `w`.
module _ (N : ℕ → Type 0) (real : (k : ℕ) → N k → k ≢ rbnull) (l : Links) (g p cp n cn : ℕ)
    (w : Which) (a b c : RbTree) (up : Above)
    (hangs : Hangs N real l g p (side w cp p (side w cn n a b) c)) (under : Under N real l g p up)
    (once : (k : ℕ) → occurs k (side w cp p (side w cn n a b) c) + occurs_above k up ≤ 1) where
  pub sum_once :
      (k : ℕ)
      → (if k == p then 1 else 0)
          + ((if k == n then 1 else 0) + occurs k a + occurs k b)
          + occurs k c
          + occurs_above k up
        ≤ 1
  sum_once k =
      let e = occurs-side w k cn n a b in
      let e' = occurs-side w k cp p (side w cn n a b) c in omega (arith, once k, e, e')

  parts :
      N p
      × (l.color p ≡ cp)
      × N n
      × (l.color n ≡ cn)
      × Hangs N real l n (l.child w n) a
      × Hangs N real l n (l.child (other w) n) b
      × Hangs N real l p (l.child (other w) p) c
  parts =
      let (e0, at_p, par_p, col_p, h1, hc) =
        Hangs-side N real l w g p cp p (side w cn n a b) c hangs in
      let (e1, at_n, par_n, col_n, ha, hb) = Hangs-side N real l w p (l.child w p) cn n a b h1 in
      (at_p, col_p, at_n, col_n, ha, hb, hc)

  np : n ≢ p
  np = ground (arith, sum_once n)

  -- The node above is not one of the tree.
  apart_g :
      (k : ℕ)
      → N k
      → 1
        ≤ (if k == p then 1 else 0)
          + (if k == n then 1 else 0)
          + occurs k a
          + occurs k b
          + occurs k c
      → k ≢ g
  apart_g k at o e = elim (Under-head N real l up g p under) [
    | inl z ↦ real k at (e ∙ z)
    | inr o' ↦
        let o'' : 1 ≤ occurs_above k up = subst (λ x. 1 ≤ occurs_above x up) (sym e) o' in
        ground (arith, sum_once k)
  ]

  pub above_differs : n ≢ g
  above_differs =
      let (at_p, col_p, at_n, col_n, ha, hb, hc) = parts in apart_g n at_n (ground arith)

  pg : p ≢ g
  pg = let (at_p, col_p, at_n, col_n, ha, hb, hc) = parts in apart_g p at_p (ground arith)

  -- The tree that changes sides starts with none of the other nodes.
  apart_b : (k : ℕ) → N k → occurs k b ≡ 0 → k ≢ l.child (other w) n
  apart_b k at o e =
      let (at_p, col_p, at_n, col_n, ha, hb, hc) = parts in
      elim (Hangs-head N real l b n (l.child (other w) n) hb) [
        | inl z ↦ real k at (e ∙ z)
        | inr o' ↦ let o'' : 1 ≤ occurs k b = subst (λ x. 1 ≤ occurs x b) (sym e) o' in omega arith
      ]

  head_p : l.child (other w) n ≢ rbnull → l.child (other w) n ≢ p
  head_p ne =
      let (at_p, col_p, at_n, col_n, ha, hb, hc) = parts in
      elim (Hangs-head N real l b n (l.child (other w) n) hb) [
        | inl z ↦ absurd (ne z)
        | inr o ↦ ground (arith, sum_once (l.child (other w) n))
      ]

  module _ (pw : Which) (on : OnSide pw up) where
    abbrev l' : Links
    l' = rotate_links l n w p pw g

    away : (k : ℕ) → k ≢ n → k ≢ p → k ≢ l.child (other w) n → k ≢ g → Unchanged N real l l' k
    away k kn kp kc kg = (
      rotate-parent l n w p pw g np above_differs pg k ∙ ground arith,
      rotate-color l n w p pw g np above_differs pg k,
      rotate_elsewhere l n w p pw g np above_differs pg k kn kp kg,
    )

    Hangs-inner : Hangs N real l' n (l.child w n) a
    Hangs-inner =
        let (at_p, col_p, at_n, col_n, ha, hb, hc) = parts in
        Hangs-kept N real l l' a n _ ha (λ k o.
          let at = Hangs-node N real l a n _ k ha o in
          away k (ground (arith, sum_once k)) (ground (arith, sum_once k))
            (apart_b k at (ground (arith, sum_once k))) (apart_g k at (ground arith)))

    Hangs-outer : Hangs N real l' p (l.child (other w) p) c
    Hangs-outer =
        let (at_p, col_p, at_n, col_n, ha, hb, hc) = parts in
        Hangs-kept N real l l' c p _ hc (λ k o.
          let at = Hangs-node N real l c p _ k hc o in
          away k (ground (arith, sum_once k)) (ground (arith, sum_once k))
            (apart_b k at (ground (arith, sum_once k))) (apart_g k at (ground arith)))

    Hangs-across : Hangs N real l' p (l.child (other w) n) b
    Hangs-across =
        let (at_p, col_p, at_n, col_n, ha, hb, hc) = parts in
        Hangs-moved N real l l' b n p _ (λ k. ground (arith, sum_once k)) hb
          (λ ne.
            rotate-parent l n w p pw g np above_differs pg _ ∙ (let kp = head_p ne in ground arith))
          (λ k o.
            let at = Hangs-node N real l b n _ k hb o in
            let kn : k ≢ n = ground (arith, sum_once k) in
            let kp : k ≢ p = ground (arith, sum_once k) in
            (
              (λ ne. rotate-parent l n w p pw g np above_differs pg k ∙ ground arith),
              rotate-color l n w p pw g np above_differs pg k,
              rotate_elsewhere l n w p pw g np above_differs pg k kn kp
                  (apart_g k at (ground arith)),
            ))

    pub rotate-Focus :
        Hangs N real l' g n (side w cn n a (side w cp p b c)) × Under N real l' g n up
    rotate-Focus =
        let (at_p, col_p, at_n, col_n, ha, hb, hc) = parts in
        let bn = apart_b n at_n (ground (arith, sum_once n)) in
        (
          side-Hangs N real l' w g n cn n a (side w cp p b c) refl at_n
              (rotate-parent l n w p pw g np above_differs pg n ∙ ground arith)
              (rotate-color l n w p pw g np above_differs pg n ∙ col_n)
              (rw (rotate_inner l n w p pw g np above_differs pg) Hangs-inner)
              (side-Hangs N real l' w n (l'.child (other w) n) cp p b c
                (rotate_down l n w p pw g np above_differs pg) at_p
                (rotate-parent l n w p pw g np above_differs pg p ∙ ground arith)
                (rotate-color l n w p pw g np above_differs pg p ∙ col_p)
                (rw (rotate_across l n w p pw g np above_differs pg) Hangs-across)
                (rw (rotate_outer l n w p pw g np above_differs pg) Hangs-outer)),
          Under-moved N real l l' up g p n (λ k. ground (arith, sum_once k)) under
              (rotate-Hooked N real l g p n w pw np above_differs pg up under on (λ at.
                apart_b g at (elim (Under-head N real l up g p under) [
                  | inl z ↦ absurd (real g at z)
                  | inr o ↦ ground (arith, sum_once g)
                ])))
              (λ k o. rotate-color l n w p pw g np above_differs pg k)
              (λ k o ne.
                let at = Under-node N real l up g p k under o in
                away k (ground (arith, sum_once k)) (ground (arith, sum_once k))
                  (apart_b k at (ground (arith, sum_once k))) ne),
        )
