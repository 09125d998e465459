-- ===== src/Malloc/Tree/Insertion.antt =====
-- `rb_insert` of malloclab/mm.c: a block comes to its place in a red-black tree in memory.
use mathlib.Core.Path.{subst}
use ics.Common.{
  ℕ, ◌+◌, ◌≤◌, ◌<◌, ◌≡◌, refl, sym, ap, ◌∙◌, ◌≢◌, inl, inr, true, false, Option, [], ◌∷◌, ◌++◌,
  arith, ◌==◌, ==_iff,
}
use ics.Malloc.Tree.Stored.{set_parent-Holds, set_child-Holds, nodes_differ}
use ics.Malloc.Tree.RedBlack.{
  refill, inorder, color_of, Sound, Balanced, BalancedAbove, refill-IsRedBlack, refill-occurs,
  black_node, Sound-refill, Balanced-refill, IsRedBlack,
}
use ics.Bytes.{Buffer}
use ics.Malloc.Tree.{
  other, rb_red, rb_black, rbnull, rb_value, rb_set_parent, rb_set_child, rb_set_color, rbroot,
  set_rbroot, Which, rb_left, rb_right,
}
use ics.Malloc.Tree.Focus.{
  occurs, occurs_above, Hangs-kept, Under-moved, RbTree, Above, empty, tree, whole, below,
}
use ics.Malloc.Tree.Insert.{insert_place, insert_at, rb_insert}
use ics.Malloc.Tree.Links.{put_parent, put_child, put_color, put_root, node_cases, Links}
use ics.Malloc.Tree.Marks.{color-Holds, root-Holds}
use ics.Malloc.Tree.Rebuilt.{levels, Rebuilt}
use ics.Malloc.Tree.BlackUncle.{Placed}
use ics.Malloc.Tree.Sorted.{before, after, refill_split, Ascending, insert_sorted, insert_between}
use ics.Malloc.Tree.Descend.{height_of, insert_place-FreePlace, FreePlace}
use ics.Malloc.Tree.Fixup.{rb_insert_fixup-Rebuilt}

module _ (N : ℕ → Type 0) (V : ℕ → ℕ) (lo : ℕ) (real : (k : ℕ) → N k → k ≢ rbnull) where
  module _ (m : Buffer) (l : Links) (n : ℕ) (at_n : N n) where
    -- The children are cleared.
    bare-Placed :
        (t : RbTree)
        → Placed N V lo real m l rbnull l.root t whole
        → occurs n t ≡ 0
        → Placed N V lo real
            (rb_set_child (rb_set_child m n rb_left rbnull) n rb_right rbnull)
            (put_child (put_child l n rb_left rbnull) n rb_right rbnull)
            rbnull
            l.root
            t
            whole
    bare-Placed t at o =
        let l2 = put_child (put_child l n rb_left rbnull) n rb_right rbnull in
        record {
          holds =
              set_child-Holds N V lo _ _
                (set_child-Holds N V lo m l at.holds n rb_left rbnull (inr at_n) (inl refl)) n
                rb_right rbnull (inr at_n) (inl refl);
          hangs = Hangs-kept N real l l2 t rbnull l.root at.hangs (λ k o'.
              let ne : k ≢ n = λ e. let o'' = subst (λ i. 1 ≤ occurs i t) e o' in omega arith in
              (refl, refl, λ w. ground arith));
          under = (refl, refl);
          once = at.once;
        }

  -- A node that hangs at a free place.
  module _ (m : Buffer) (l : Links) (n : ℕ) (at_n : N n) (w : Which) (c cur : ℕ) (s : RbTree)
      (up : Above) (at : Placed N V lo real m l cur rbnull empty (below w c cur s up))
      (o : occurs_above n (below w c cur s up) ≡ 0) (no_left : l.child rb_left n ≡ rbnull)
      (no_right : l.child rb_right n ≡ rbnull) where
    abbrev hung : Links
    hung = put_color (put_parent (put_child l cur w n) n cur) n rb_red

    hung-Placed :
        Placed N V lo real
          (rb_set_color (rb_set_parent (rb_set_child m cur w n) n cur) n rb_red)
          (put_color (put_parent (put_child l cur w n) n cur) n rb_red)
          cur
          n
          (tree rb_red n empty empty)
          (below w c cur s up)
    hung-Placed =
        let (e, at_cur, q, r, hs, u) = at.under in
        let ne : n ≢ cur = ground arith in
        record {
          holds =
              color-Holds N V lo _ _
                (set_parent-Holds N V lo _ _
                  (set_child-Holds N V lo m l at.holds cur w n (inr at_cur) (inr at_n)) n cur
                  (inr at_n) (inr at_cur))
                n rb_red at_n (omega arith);
          hangs = (refl, at_n, ground arith, ground arith, ground arith, ground arith);
          under =
              Under-moved N real l hung (below w c cur s up) cur rbnull n
                (λ k. let o' = at.once k in omega arith) at.under
                (refl, ground arith, hook w, beside w) (λ k o'. let kn = apart k o' in ground arith)
                (λ k o' kc.
                  let kn = apart k o' in (ground arith, ground arith, λ w'. ground arith));
          once = λ k. elim (node_cases k n) [
            | inl (e', t) ↦ rw e' (ground arith)
            | inr (e', t) ↦ rw t (at.once k)
          ];
        }
      where
        apart : (k : ℕ) → 1 ≤ occurs_above k (below w c cur s up) → k ≢ n
        apart k o' e =
            let o'' = subst (λ i. 1 ≤ occurs_above i (below w c cur s up)) e o' in omega arith

        hook : (w' : Which) → (put_child l cur w' n).child w' cur ≡ n
        hook rb_left = ground arith
        hook rb_right = ground arith

        beside : (w' : Which) → (put_child l cur w' n).child (other w') cur ≡ l.child (other w') cur
        beside rb_left = ground arith
        beside rb_right = ground arith

  -- From a free place that the descent found.
  module _ (fuel : ℕ) (m : Buffer) (l : Links) (n : ℕ) (at_n : N n)
      (no_left : l.child rb_left n ≡ rbnull) (no_right : l.child rb_right n ≡ rbnull) (t : RbTree)
      (bound : ℕ) (run : Option (ℕ × Which)) (enough : bound < fuel) (rules : IsRedBlack t)
      (o : occurs n t ≡ 0) where
    from_place :
        FreePlace N V lo real m l (V n) bound run t
        → Rebuilt N V lo real (insert_at lo fuel m n run) (insert_sorted V n (inorder t))
    unfolding insert_at
    from_place place =
        let w = place.on_side in
        let up = below w place.its_color place.at_node place.sibling place.above in
        let same : refill up empty ≡ t = place.same_tree in
        let count : occurs n (refill up empty) ≡ 0 = subst (λ i. occurs n i ≡ 0) (sym same) o in
        let split = refill-occurs up empty n in
        let o' : occurs_above n up ≡ 0 = omega (arith, count, split) in
        let placed =
          hung-Placed m l n at_n w place.its_color place.at_node place.sibling place.above
            place.free o' no_left no_right in
        let (s1, sa) =
          Sound-refill up empty (subst Sound (sym same) rules.sound)
            (ap color_of same ∙ rules.black_root) in
        let (h, eh, ba) =
          Balanced-refill up rules.height empty
            (subst (Balanced rules.height) (sym same) rules.balanced) in
        let deep = place.not_deep in
        let fixed =
          rb_insert_fixup-Rebuilt N V lo real fuel _ _ place.at_node n empty empty up 0
            (omega (arith, deep)) placed (omega arith, (λ e. (refl, refl)), tt, tt)
            (0, refl, refl, refl) sa (subst (λ i. BalancedAbove i up) eh ba) in
        let new = refill_split up (tree rb_red n empty empty) in
        let old = refill_split up empty in
        let listed : insert_sorted V n (inorder t) ≡ before up ++ (n ∷ after up) =
          ap (insert_sorted V n) (ap inorder (sym same) ∙ old)
          ∙ insert_between V n (before up) (after up) place.shorter place.not_shorter in
        record {
          memory = fixed.memory;
          links = fixed.links;
          result = fixed.result;
          ends = ap (λ r. insert_at lo fuel m n r) place.found ∙ fixed.ends;
          placed = fixed.placed;
          red_black = fixed.red_black;
          same_nodes = fixed.same_nodes ∙ new ∙ sym listed;
        }

  module _ (fuel : ℕ) (m : Buffer) (l : Links) (n : ℕ) (at_n : N n) where
    abbrev m2 : Buffer
    m2 = rb_set_child (rb_set_child m n rb_left rbnull) n rb_right rbnull

    abbrev l2 : Links
    l2 = put_child (put_child l n rb_left rbnull) n rb_right rbnull

    -- The first block is a black root.
    first_node :
        Placed N V lo real m l rbnull l.root empty whole
        → Rebuilt N V lo real (rb_insert lo fuel m n) (n ∷ [])
    unfolding rb_insert
    first_node at =
        let at2 = bare-Placed m l n at_n empty at (omega arith) in
        let t : rbroot lo m2 == rbnull ≡ true =
          (==_iff (rbroot lo m2) rbnull).1 (at2.holds.root_is ∙ at.hangs) in
        let h3 = root-Holds N V lo m2 l2 at2.holds n (inr at_n) in
        let h4 = color-Holds N V lo _ _ h3 n rb_black at_n (omega arith) in
        let h5 = set_parent-Holds N V lo _ _ h4 n rbnull (inr at_n) (inl refl) in
        record {
          memory = rb_set_parent (rb_set_color (set_rbroot lo m2 n) n rb_black) n rbnull;
          links = put_parent (put_color (put_root l2 n) n rb_black) n rbnull;
          result = tree rb_black n empty empty;
          ends = rw t refl;
          placed = record {
            holds = h5;
            hangs = (refl, at_n, ground arith, ground arith, ground arith, ground arith);
            under = (refl, refl);
            once = λ k. ground arith;
          };
          red_black =
              refill-IsRedBlack whole 1 (tree rb_black n empty empty)
                (black_node n empty empty tt tt) (0, refl, refl, refl) refl tt;
          same_nodes = refl;
        }

    later_node :
        (c k : ℕ) (a b : RbTree)
        → height_of (tree c k a b) < fuel
        → Placed N V lo real m l rbnull l.root (tree c k a b) whole
        → IsRedBlack (tree c k a b)
        → Ascending V (inorder (tree c k a b))
        → occurs n (tree c k a b) ≡ 0
        → Rebuilt N V lo real (rb_insert lo fuel m n) (insert_sorted V n (inorder (tree c k a b)))
    unfolding rb_insert
    later_node c k a b lt at rules sorted o =
        let t = tree c k a b in
        let at2 = bare-Placed m l n at_n t at o in
        let root : l.root ≡ k = at.hangs.0 in
        let at_k : N k = at.hangs.1 in
        let e : rbroot lo m2 ≡ k = at2.holds.root_is ∙ root in
        let ne : k == rbnull ≡ false = nodes_differ N V lo k rbnull (real k at_k) in
        let v : rb_value m2 n ≡ V n = at2.holds.value_is n at_n in
        let at3 = subst (λ i. Placed N V lo real m2 l2 rbnull i t whole) root at2 in
        let place =
          insert_place-FreePlace N V lo real m2 l2 (V n) fuel rbnull c k a b whole (omega arith) at3
            sorted tt tt in
        rw (e, ne, v)
          (from_place fuel m2 l2 n at_n (ground arith) (ground arith) t (levels whole + height_of t)
            (insert_place fuel m2 (V n) k) (omega arith) rules o place)

    -- In a memory whose blocks lie apart and that holds a red-black tree sorted by length, with fuel
    -- for its height, `rb_insert` of a block that is not in the tree ends, and the memory then holds
    -- a red-black tree with the block at its place in the order.
    pub rb_insert-Rebuilt :
        (t : RbTree)
        → height_of t < fuel
        → Placed N V lo real m l rbnull l.root t whole
        → IsRedBlack t
        → Ascending V (inorder t)
        → occurs n t ≡ 0
        → Rebuilt N V lo real (rb_insert lo fuel m n) (insert_sorted V n (inorder t))
    unfolding insert_sorted
    rb_insert-Rebuilt empty lt at rules sorted o = first_node at
    rb_insert-Rebuilt (tree c k a b) lt at rules sorted o = later_node c k a b lt at rules sorted o
