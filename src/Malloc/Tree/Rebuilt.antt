-- ===== src/Malloc/Tree/Rebuilt.antt =====
-- What `rb_insert_fixup` of malloclab/mm.c leaves, and its branches at the root and under a black
-- parent.
use mathlib.Core.Path.{subst}
use ics.Common.{
  ℕ, suc, ◌+◌, ◌≡◌, refl, sym, ◌∙◌, ◌≢◌, true, Option, some, List, arith, ◌==◌, ==_iff,
}
use ics.Bytes.{Buffer}
use ics.Malloc.Tree.{rb_red, rb_black, rbnull, rb_set_color, rbroot, Which, rb_left}
use ics.Malloc.Tree.Focus.{side, Hangs, RbTree, Above, tree, whole, below}
use ics.Malloc.Tree.Insert.{rb_insert_fixup}
use ics.Malloc.Tree.Links.{put_color, Links}
use ics.Malloc.Tree.Marks.{color-Holds}
use ics.Malloc.Tree.RedBlack.{
  refill, inorder, color_of, Sound, Balanced, SoundAbove, BalancedAbove, refill-IsRedBlack,
  black_node, IsRedBlack,
}
use ics.Malloc.Tree.Paint.{Hangs-painted}
use ics.Malloc.Tree.BlackUncle.{Placed}
use ics.Malloc.Tree.FixRotate.{up_one}
use ics.Malloc.Tree.Reads.{reads_above, fixup_black}

abbrev pub levels : Above → ℕ
levels whole = 0
levels (below w c k s up) = 1 + levels up

-- The run ends with a memory that holds a red-black tree with these nodes in order.
pub record Rebuilt (N : ℕ → Type 0) (V : ℕ → ℕ) (lo : ℕ) (real : (k : ℕ) → N k → k ≢ rbnull)
    (run : Option Buffer) (nodes : List ℕ) : Type 0 where
  pub memory : Buffer
  pub links : Links
  pub result : RbTree
  pub ends : run ≡ some memory
  pub placed : Placed N V lo real memory links rbnull links.root result whole
  pub red_black : IsRedBlack result
  pub same_nodes : inorder result ≡ nodes

module _ (N : ℕ → Type 0) (V : ℕ → ℕ) (lo : ℕ) (real : (k : ℕ) → N k → k ≢ rbnull) where
  pub close-Placed :
      (m : Buffer) (l : Links) (up : Above) (p n : ℕ) (t : RbTree)
      → Placed N V lo real m l p n t up
      → Placed N V lo real m l rbnull l.root (refill up t) whole
  close-Placed m l whole p n t at =
      let (e, r) = at.under in
      record {
        holds = at.holds;
        hangs =
            subst (λ q. Hangs N real l q l.root t) e
              (subst (λ q. Hangs N real l p q t) (sym r) at.hangs);
        under = (refl, refl);
        once = at.once;
      }
  close-Placed m l (below w c k s up) p n t at =
      let (e, at') = up_one N V lo real m l p n t w c k s up at in
      close-Placed m l up (l.parent k) k (side w c k t s) at'

  pub same_run :
      (run run' : Option Buffer) (xs xs' : List ℕ)
      → run ≡ run'
      → xs' ≡ xs
      → Rebuilt N V lo real run' xs'
      → Rebuilt N V lo real run xs
  same_run run run' xs xs' e e' r = record {
    memory = r.memory;
    links = r.links;
    result = r.result;
    ends = e ∙ r.ends;
    placed = r.placed;
    red_black = r.red_black;
    same_nodes = r.same_nodes ∙ e';
  }

  -- A place whose tree and surroundings have the rules.
  pub from_parts :
      (run : Option Buffer) (nodes : List ℕ) (m : Buffer) (l : Links) (p n : ℕ) (t : RbTree)
      (up : Above) (h : ℕ)
      → run ≡ some m
      → Placed N V lo real m l p n t up
      → Sound t
      → Balanced h t
      → SoundAbove (color_of t) up
      → BalancedAbove h up
      → inorder (refill up t) ≡ nodes
      → Rebuilt N V lo real run nodes
  from_parts run nodes m l p n t up h e at s b sa ba i = record {
    memory = m;
    links = l;
    result = refill up t;
    ends = e;
    placed = close-Placed m l up p n t at;
    red_black = refill-IsRedBlack up h t s b sa ba;
    same_nodes = i;
  }

  module _ (m : Buffer) (l : Links) (p n : ℕ) (a b : RbTree) (h fuel : ℕ)
      (s0 : Sound (tree rb_red n a b)) (b0 : Balanced h (tree rb_red n a b)) where
    pub at_root :
        Placed N V lo real m l p n (tree rb_red n a b) whole
        → Rebuilt N V lo real (rb_insert_fixup lo (suc fuel) m n) (inorder (tree rb_red n a b))
    unfolding rb_insert_fixup
    at_root at =
        let (e, at_n, q, r, ha, hb) = at.hangs in
        let (z, root) = at.under in
        let o = at.once n in
        let t : n == rbroot lo m ≡ true =
          (==_iff n (rbroot lo m)).1 (sym (at.holds.root_is ∙ root)) in
        let (lt, f, sa, sb) = s0 in
        let (h', eh, ba, bb) = b0 in
        from_parts _ _ (rb_set_color m n rb_black) (put_color l n rb_black) p n
          (tree rb_black n a b) whole (h + 1) (rw t refl)
          (record {
            holds = color-Holds N V lo m l at.holds n rb_black at_n (omega arith);
            hangs =
                Hangs-painted N real l rb_left p n n rb_red rb_black a b (ground arith)
                  (ground arith) at.hangs;
            under = (z, root);
            once = at.once;
          })
          (black_node n a b sa sb) (h', omega arith, ba, bb) refl tt refl

    pub black_parent :
        (w : Which) (c k : ℕ) (s : RbTree) (up : Above)
        → c ≡ rb_black
        → Placed N V lo real m l p n (tree rb_red n a b) (below w c k s up)
        → Sound s
        → SoundAbove c up
        → Balanced h s
        → BalancedAbove (h + c) up
        → Rebuilt N V lo real
            (rb_insert_fixup lo (suc fuel) m n)
            (inorder (refill (below w c k s up) (tree rb_red n a b)))
    black_parent w c k s up ec at ss sa bs ba =
        let (e, at_n, q, r, ha, hb) = at.hangs in
        let (ep, ew, eu, ek, er) =
          reads_above N V lo real m l at.holds w c k s up p n at.under at_n q
            (ground (arith, at.once n)) in
        from_parts _ _ m l p n (tree rb_red n a b) (below w c k s up) h
          (fixup_black lo fuel m n k ep er (ek ∙ ec)) at s0 b0
          (omega arith, (λ z. absurd (omega arith)), ss, sa) (bs, ba) refl
