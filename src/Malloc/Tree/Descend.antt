-- ===== src/Malloc/Tree/Descend.antt =====
-- The descent of `rb_insert` in malloclab/mm.c to the place of a new node.
use mathlib.Core.Path.{subst}
use ics.Common.{
  ℕ, zero, suc, ◌+◌, ◌≤◌, ◌<◌, max, ◌≡◌, refl, sym, ap, ◌≢◌, ◌⊎◌, inl, inr, false, Option, some, [],
  ◌∷◌, ◌++◌, arith, leb, ◌==◌, if◌then◌else◌, Bool-cases, All,
}
use ics.Malloc.Tree.Stored.{nodes_differ}
use ics.Bytes.{Buffer}
use ics.Malloc.Tree.{rbnull, rb_child, rb_value, Which, rb_left, rb_right}
use ics.Malloc.Tree.Focus.{side, occurs-side, Hangs, Hangs-side, RbTree, Above, empty, tree, below}
use ics.Malloc.Tree.Insert.{insert_place}
use ics.Malloc.Tree.Links.{Links}
use ics.Malloc.Tree.RedBlack.{refill, inorder}
use ics.Malloc.Tree.Rebuilt.{levels}
use ics.Malloc.Tree.BlackUncle.{Placed}
use ics.Malloc.Tree.Sorted.{before, after, All-append, All-map, Ascending, Ascending-parts}

-- The nodes on the longest way down.
abbrev pub height_of : RbTree → ℕ
height_of empty = 0
height_of (tree c n a b) = 1 + max (height_of a) (height_of b)

-- A free place below a node.
pub record FreePlace (N : ℕ → Type 0) (V : ℕ → ℕ) (lo : ℕ) (real : (k : ℕ) → N k → k ≢ rbnull)
    (m : Buffer) (l : Links) (v bound : ℕ) (run : Option (ℕ × Which)) (whole_tree : RbTree)
    : Type 0 where
  pub at_node : ℕ
  pub on_side : Which
  pub its_color : ℕ
  pub sibling : RbTree
  pub above : Above
  pub found : run ≡ some (at_node, on_side)
  pub free :
      Placed N V lo real m l at_node rbnull empty (below on_side its_color at_node sibling above)
  pub same_tree : refill (below on_side its_color at_node sibling above) empty ≡ whole_tree
  pub not_deep : levels (below on_side its_color at_node sibling above) ≤ bound
  pub shorter : All (λ x. V x < v) (before (below on_side its_color at_node sibling above))
  pub not_shorter : All (λ x. v ≤ V x) (after (below on_side its_color at_node sibling above))

shape_cases :
    (t : RbTree)
    → (t ≡ empty) ⊎ ((c : ℕ) × (k : ℕ) × (a : RbTree) × (b : RbTree) × (t ≡ tree c k a b))
shape_cases empty = inl refl
shape_cases (tree c k a b) = inr (c, k, a, b, refl)

module _ (N : ℕ → Type 0) (V : ℕ → ℕ) (lo : ℕ) (real : (k : ℕ) → N k → k ≢ rbnull) (m : Buffer)
    (l : Links) (v : ℕ) where
  -- One step down, to the side `w`.
  module _ (w : Which) (p c k : ℕ) (x s : RbTree) (up : Above)
      (at : Placed N V lo real m l p k (side w c k x s) up) where
    down : Placed N V lo real m l k (l.child w k) x (below w c k s up)
    down =
        let (e, at_k, q, r, hx, hs) = Hangs-side N real l w p k c k x s at.hangs in
        record {
          holds = at.holds;
          hangs = hx;
          under = (refl, at_k, r, refl, hs, rw q at.under);
          once = λ j. let o = at.once j in let e' = occurs-side w j c k x s in omega (arith, o, e');
        }

    child_read : rb_child m k w ≡ l.child w k
    child_read =
        let (e, at_k, q, r, hx, hs) = Hangs-side N real l w p k c k x s at.hangs in
        at.holds.child_is w k at_k

    value_read : rb_value m k ≡ V k
    value_read =
        let (e, at_k, q, r, hx, hs) = Hangs-side N real l w p k c k x s at.hangs in
        at.holds.value_is k at_k

    -- The code goes to the side `w`.
    module _ (fuel : ℕ) (goes : (if leb v (rb_value m k) then rb_left else rb_right) ≡ w)
        (lower : All (λ x. V x < v) (before (below w c k s up)))
        (upper : All (λ x. v ≤ V x) (after (below w c k s up))) where
      stops :
          l.child w k ≡ rbnull
          → x ≡ empty
          → FreePlace N V lo real m l v
              (levels up + height_of (side w c k x s))
              (insert_place (suc fuel) m v k)
              (refill up (side w c k x s))
      unfolding insert_place
      stops e ex = record {
        at_node = k;
        on_side = w;
        its_color = c;
        sibling = s;
        above = up;
        found = rw (goes, child_read, e) refl;
        free =
            subst (λ t. Placed N V lo real m l k rbnull t (below w c k s up)) ex
              (subst (λ i. Placed N V lo real m l k i x (below w c k s up)) e down);
        same_tree = ap (λ t. refill (below w c k s up) t) (sym ex);
        not_deep = omega arith;
        shorter = lower;
        not_shorter = upper;
      }

      goes_on :
          (n : ℕ)
          → l.child w k ≡ n
          → n ≢ rbnull
          → FreePlace N V lo real m l v
              (levels (below w c k s up) + height_of x)
              (insert_place fuel m v n)
              (refill up (side w c k x s))
          → FreePlace N V lo real m l v
              (levels up + height_of (side w c k x s))
              (insert_place (suc fuel) m v k)
              (refill up (side w c k x s))
      unfolding insert_place
      goes_on n e ne rest =
          let t : n == rbnull ≡ false = nodes_differ N V lo n rbnull ne in
          let h : height_of x < height_of (side w c k x s) = deeper w in
          record {
            at_node = rest.at_node;
            on_side = rest.on_side;
            its_color = rest.its_color;
            sibling = rest.sibling;
            above = rest.above;
            found = rw (goes, child_read, e, t) rest.found;
            free = rest.free;
            same_tree = rest.same_tree;
            not_deep = let d = rest.not_deep in omega (arith, d, h);
            shorter = rest.shorter;
            not_shorter = rest.not_shorter;
          }
        where
          deeper : (w' : Which) → height_of x < height_of (side w' c k x s)
          deeper rb_left = omega arith
          deeper rb_right = omega arith

      proceeds :
          ((c' k' : ℕ) (a' b' : RbTree)
            → x ≡ tree c' k' a' b'
            → Placed N V lo real m l k k' (tree c' k' a' b') (below w c k s up)
            → FreePlace N V lo real m l v
                (levels (below w c k s up) + height_of (tree c' k' a' b'))
                (insert_place fuel m v k')
                (refill (below w c k s up) (tree c' k' a' b')))
          → FreePlace N V lo real m l v
              (levels up + height_of (side w c k x s))
              (insert_place (suc fuel) m v k)
              (refill up (side w c k x s))
      proceeds next = elim (shape_cases x) [
        | inl e ↦ stops (subst (λ t. Hangs N real l k (l.child w k) t) e down.hangs) e
        | inr (c', k', a', b', e) ↦
            let d : Placed N V lo real m l k (l.child w k) (tree c' k' a' b') (below w c k s up) =
              subst (λ t. Placed N V lo real m l k (l.child w k) t (below w c k s up)) e down in
            let (q, at_k, q', r', ha, hb) = d.hangs in
            let d' =
              subst (λ i. Placed N V lo real m l k i (tree c' k' a' b') (below w c k s up)) q d in
            goes_on k' q (real k' at_k) (
              subst
                (λ t.
                  FreePlace N V lo real m l v (levels (below w c k s up) + height_of t)
                    (insert_place fuel m v k') (refill (below w c k s up) t))
                (sym e) (next c' k' a' b' e d'))
      ]

  module _ (p c k : ℕ) (a b : RbTree) (up : Above)
      (at : Placed N V lo real m l p k (tree c k a b) up)
      (sorted : Ascending V (inorder (tree c k a b))) (lower : All (λ x. V x < v) (before up))
      (upper : All (λ x. v ≤ V x) (after up)) where
    goes_left :
        v ≤ V k
        → ((if leb v (rb_value m k) then rb_left else rb_right) ≡ rb_left)
          × All (λ x. v ≤ V x) (after (below rb_left c k b up))
    goes_left le =
        let e = value_read rb_left p c k a b up at in
        let (below_k, above_k, sa, sb) = Ascending-parts V (inorder a) k (inorder b) sorted in
        (
          rw e (ground arith),
          (
            le,
            All-append (λ x. v ≤ V x) (inorder b) (after up)
                (All-map (λ x. V k ≤ V x) (λ x. v ≤ V x) (inorder b) (λ x q. omega arith) above_k)
                upper,
          ),
        )

    goes_right :
        V k < v
        → ((if leb v (rb_value m k) then rb_left else rb_right) ≡ rb_right)
          × All (λ x. V x < v) (before (below rb_right c k a up))
    goes_right lt =
        let e = value_read rb_left p c k a b up at in
        let (below_k, above_k, sa, sb) = Ascending-parts V (inorder a) k (inorder b) sorted in
        (
          rw e (ground arith),
          All-append (λ x. V x < v) (before up) (inorder a ++ (k ∷ [])) lower
              (All-append (λ x. V x < v) (inorder a) (k ∷ [])
                (All-map (λ x. V x ≤ V k) (λ x. V x < v) (inorder a) (λ x q. omega arith) below_k)
                (lt, tt)),
        )

  -- With fuel for the height, the descent ends at a free place: the nodes before it are shorter,
  -- and those after it are not.
  pub insert_place-FreePlace :
      (fuel p c k : ℕ) (a b : RbTree) (up : Above)
      → height_of (tree c k a b) ≤ fuel
      → Placed N V lo real m l p k (tree c k a b) up
      → Ascending V (inorder (tree c k a b))
      → All (λ x. V x < v) (before up)
      → All (λ x. v ≤ V x) (after up)
      → FreePlace N V lo real m l v
          (levels up + height_of (tree c k a b))
          (insert_place fuel m v k)
          (refill up (tree c k a b))
  insert_place-FreePlace zero p c k a b up le at sorted lower upper = absurd (omega arith)
  insert_place-FreePlace (suc fuel) p c k a b up le at sorted lower upper =
      let (below_k, above_k, sa, sb) = Ascending-parts V (inorder a) k (inorder b) sorted in
      elim (Bool-cases (leb v (V k))) [
        | inl t ↦
            let (goes, upper') = goes_left p c k a b up at sorted lower upper (ground arith) in
            proceeds rb_left p c k a b up at fuel goes lower upper' (λ c' k' a' b' e at'.
              insert_place-FreePlace fuel k c' k' a' b' (below rb_left c k b up)
                (let h = ap height_of e in omega (arith, h)) at'
                (subst (λ t. Ascending V (inorder t)) e sa) lower upper')
        | inr t ↦
            let (goes, lower') = goes_right p c k a b up at sorted lower upper (ground arith) in
            proceeds rb_right p c k b a up at fuel goes lower' upper (λ c' k' a' b' e at'.
              insert_place-FreePlace fuel k c' k' a' b' (below rb_right c k a up)
                (let h = ap height_of e in omega (arith, h)) at'
                (subst (λ t. Ascending V (inorder t)) e sb) lower' upper)
      ]
