-- ===== src/Malloc/Tree/Reads.antt =====
-- What `rb_insert_fixup` of malloclab/mm.c reads of the nodes above a node.
use ics.Common.{ℕ, suc, ◌≡◌, refl, ◌∙◌, ◌≢◌, false, some, arith, ◌==◌}
use ics.Bytes.{Buffer}
use ics.Malloc.Tree.{
  other, rb_red, rb_black, rbnull, rb_parent, rb_child, rb_color, rb_set_color, rb_which, rbroot,
  Which,
}
use ics.Malloc.Tree.Focus.{occurs_above, Hangs, Under, RbTree, Above, empty, tree, below}
use ics.Malloc.Tree.Insert.{fix_rotate, rb_insert_fixup}
use ics.Malloc.Tree.Links.{Links}
use ics.Malloc.Tree.Nodes.{Holds}
use ics.Malloc.Tree.RedBlack.{color_of}
use ics.Malloc.Tree.Stored.{nodes_differ}
use ics.Malloc.Tree.Paint.{head_apart, below_root, rb_which-child}

-- The colors of a red uncle's branch.
abbrev pub recolored : Buffer → ℕ → ℕ → ℕ → Buffer
recolored m parent uncle grandparent =
    rb_set_color (rb_set_color (rb_set_color m parent rb_black) uncle rb_black) grandparent rb_red

module _ (N : ℕ → Type 0) (V : ℕ → ℕ) (lo : ℕ) (real : (k : ℕ) → N k → k ≢ rbnull) (m : Buffer)
    (l : Links) (hold : Holds N V lo m l) where
  pub head_color : (t : RbTree) (p n : ℕ) → Hangs N real l p n t → rb_color m n ≡ color_of t
  head_color empty p n h = rw h hold.nodes.null_black
  head_color (tree c k a b) p n (e, at, q, r, s, t) = rw e (hold.color_is k at ∙ r)

  -- A node `n` on the side `w` of `k`.
  pub reads_above :
      (w : Which) (c k : ℕ) (s : RbTree) (up : Above) (p n : ℕ)
      → Under N real l p n (below w c k s up)
      → N n
      → l.parent n ≡ p
      → occurs_above n (below w c k s up) ≡ 0
      → (rb_parent m n ≡ k)
        × (rb_which m n k ≡ w)
        × (rb_child m k (other w) ≡ l.child (other w) k)
        × (rb_color m k ≡ c)
        × (n == rbroot lo m ≡ false)
  reads_above w c k s up p n u at e o =
      let (i, at_k, q, r, h, v) = u in
      (
        hold.parent_is n at ∙ e ∙ i,
        rb_which-child N real V lo m l hold w n k at_k r
            (head_apart N real l s k _ n h at (omega arith)),
        hold.child_is (other w) k at_k,
        hold.color_is k at_k ∙ q,
        rw hold.root_is (nodes_differ N V lo n l.root (below_root N real l w c k s up p n u o)),
      )

module _ (lo fuel : ℕ) (m : Buffer) (n k : ℕ) (ep : rb_parent m n ≡ k)
    (er : n == rbroot lo m ≡ false) where
  pub fixup_black : rb_color m k ≡ rb_black → rb_insert_fixup lo (suc fuel) m n ≡ some m
  unfolding rb_insert_fixup
  fixup_black ec = rw (er, ep, ec) refl

  module _ (g : ℕ) (w : Which) (u : ℕ) (eg : rb_parent m k ≡ g) (ew : rb_which m k g ≡ w)
      (eu : rb_child m g (other w) ≡ u) (ec : rb_color m k ≡ rb_red) where
    pub fixup_red_uncle :
        rb_color m u ≡ rb_red
        → rb_insert_fixup lo (suc fuel) m n ≡ rb_insert_fixup lo fuel (recolored m k u g) g
    unfolding rb_insert_fixup
    fixup_red_uncle e = rw (er, ep, eg, ew, eu, ec, e) refl

    pub fixup_black_uncle :
        rb_color m u ≡ rb_black → rb_insert_fixup lo (suc fuel) m n ≡ some (fix_rotate lo m n k w g)
    unfolding rb_insert_fixup
    fixup_black_uncle e = rw (er, ep, eg, ew, eu, ec, e) refl
