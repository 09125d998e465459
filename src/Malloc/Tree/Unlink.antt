-- ===== src/Malloc/Tree/Unlink.antt =====
-- `rb_delete_with_at_most_one_child` of malloclab/mm.c: a child takes the place of a node.
use mathlib.Core.Path.{subst}
use ics.Common.{
  ℕ, ◌+◌, ◌≤◌, ◌<◌, ◌≡◌, refl, sym, ap, ◌∙◌, ◌≢◌, ◌⊎◌, inl, inr, some, arith, ◌==◌, if◌then◌else◌,
}
use ics.Malloc.Tree.RedBlack.{
  refill, inorder, color_of, SoundAbove, BalancedAbove, refill-inorder, black_node,
}
use ics.Malloc.Tree.Stored.{set_parent-Holds, set_child-Holds}
use ics.Bytes.{Buffer}
use ics.Malloc.Tree.{
  other, rb_red, rb_black, rbnull, rb_color, rb_set_parent, rb_set_child, rb_set_color, Which,
  rb_left, rb_right,
}
use ics.Malloc.Tree.Focus.{
  occurs, occurs_above, Hangs, Under, Hangs-moved, Under-moved, Under-node, RbTree, Above, tree,
  below,
}
use ics.Malloc.Tree.Delete.{rb_delete_fixup, rb_delete_with_at_most_one_child}
use ics.Malloc.Tree.Links.{put_parent, put_child, put_color, Links}
use ics.Malloc.Tree.Nodes.{Holds}
use ics.Malloc.Tree.Rebuilt.{levels, same_run, from_parts, Rebuilt}
use ics.Malloc.Tree.BlackUncle.{Placed}
use ics.Malloc.Tree.Paint.{Hangs-Address, head_apart}
use ics.Malloc.Tree.Moves.{paint-Placed, named-Placed}
use ics.Malloc.Tree.Reads.{head_color}
use ics.Malloc.Tree.GapClosed.{Good}
use ics.Malloc.Tree.Round.{zero_or_one, black_top, red_cases, Good-red}
use ics.Malloc.Tree.DeleteFixup.{rb_delete_fixup-Rebuilt}

module _ (lo fuel : ℕ) (m : Buffer) (child k : ℕ) (w : Which) where
  abbrev linked : Buffer
  linked = rb_set_child (rb_set_parent m child k) k w child

  pub unlink_red : rb_delete_with_at_most_one_child lo fuel m child k w rb_red ≡ some linked
  unfolding rb_delete_with_at_most_one_child
  unlink_red = refl

  pub unlink_red_child :
      rb_color linked child ≡ rb_red
      → rb_delete_with_at_most_one_child lo fuel m child k w rb_black
        ≡ some (rb_set_color linked child rb_black)
  unfolding rb_delete_with_at_most_one_child
  unlink_red_child e = rw e refl

  pub unlink_black :
      rb_color linked child ≡ rb_black
      → rb_delete_with_at_most_one_child lo fuel m child k w rb_black
        ≡ rb_delete_fixup lo fuel linked k w
  unfolding rb_delete_with_at_most_one_child
  unlink_black e = rw e refl

-- A red child that takes the place becomes black.
red_child-Rebuilt :
    (N : ℕ → Type 0) (V : ℕ → ℕ) (lo : ℕ) (real : (k : ℕ) → N k → k ≢ rbnull) (h : ℕ) (m : Buffer)
    (l : Links) (p child i : ℕ) (a b : RbTree) (up : Above)
    → Placed N V lo real m l p child (tree rb_red i a b) up
    → Good N V lo real h (tree rb_red i a b)
    → SoundAbove rb_black up
    → BalancedAbove (h + 1) up
    → Rebuilt N V lo real
        (some (rb_set_color m child rb_black))
        (inorder (refill up (tree rb_red i a b)))
red_child-Rebuilt N V lo real h m l p child i a b up at good sa ba =
    let (e, at') = named-Placed N V lo real m l p child rb_red i a b up at in
    let ((sx, bx), (sy, by')) = Good-red N V lo real h i a b good in
    let painted =
      paint-Placed N V lo real m l rb_left p rb_red i a b up at' rb_black (omega arith) in
    from_parts N V lo real _ _ (rb_set_color m i rb_black) (put_color l i rb_black) p i
      (tree rb_black i a b) up (h + 1) (ap (λ j. some (rb_set_color m j rb_black)) e) painted
      (black_node i a b sx sy) (h, refl, bx, by') sa ba
      (refill-inorder up (tree rb_black i a b) (tree rb_red i a b) refl)

module _ (N : ℕ → Type 0) (V : ℕ → ℕ) (lo : ℕ) (real : (k : ℕ) → N k → k ≢ rbnull) (m : Buffer)
    (l : Links) (n child c0 : ℕ) (x : RbTree) (w : Which) (c k : ℕ) (s : RbTree) (up : Above)
    (holds : Holds N V lo m l) (hangs : Hangs N real l n child x)
    (under : Under N real l k n (below w c k s up)) (at_n : N n)
    (once : (j : ℕ)
      → (if j == n then 1 else 0) + occurs j x + occurs_above j (below w c k s up) ≤ 1) where
  abbrev relinked : Links
  relinked = put_child (put_parent l child k) k w child

  child_address : (child ≡ rbnull) ⊎ N child
  child_address = Hangs-Address N real l x n child hangs

  child_apart : (j : ℕ) → N j → occurs j x ≡ 0 → j ≢ child
  child_apart j at o = head_apart N real l x n child j hangs at o

  relinked-Placed :
      Placed N V lo real
        (rb_set_child (rb_set_parent m child k) k w child)
        (put_child (put_parent l child k) k w child)
        k
        child
        x
        (below w c k s up)
  relinked-Placed =
      let (e, at_k, q, r, hs, u) = under in
      let nk : n ≢ k = ground (arith, once n) in
      record {
        holds =
            set_child-Holds N V lo _ _
              (set_parent-Holds N V lo m l holds child k child_address (inr at_k)) k w child
              (inr at_k) child_address;
        hangs =
            Hangs-moved N real l relinked x n k child (λ j. let o = once j in omega arith) hangs
              (λ ne. ground arith)
              (λ j o.
                let jk : j ≢ k = ground (arith, once j) in
                ((λ ne. ground arith), refl, λ w'. ground arith));
        under =
            Under-moved N real l relinked (below w c k s up) k n child
              (λ j. let o = once j in omega arith) under
              (
                refl,
                (let kc = child_apart k at_k (ground (arith, once k)) in ground arith),
                hook w,
                beside w,
              )
              (λ j o. refl)
              (λ j o jk.
                let at_j = Under-node N real l (below w c k s up) k n j under o in
                let jc = child_apart j at_j (let o' = once j in omega arith) in
                (ground arith, refl, λ w'. ground arith));
        once = λ j. let o = once j in omega arith;
      }
    where
      hook : (w' : Which) → (put_child (put_parent l child k) k w' child).child w' k ≡ child
      hook rb_left = ground arith
      hook rb_right = ground arith

      beside :
          (w' : Which)
          → (put_child (put_parent l child k) k w' child).child (other w') k ≡ l.child (other w') k
      beside rb_left = ground arith
      beside rb_right = ground arith

  pub unlinked-Rebuilt :
      (fuel h : ℕ)
      → levels (below w c k s up) < fuel
      → c0 < 2
      → Good N V lo real h x
      → (c0 ≡ rb_red → color_of x ≡ rb_black)
      → SoundAbove c0 (below w c k s up)
      → BalancedAbove (h + c0) (below w c k s up)
      → Rebuilt N V lo real
          (rb_delete_with_at_most_one_child lo fuel m child k w c0)
          (inorder (refill (below w c k s up) x))
  unlinked-Rebuilt fuel h lt small good fx sa ba =
      let above = below w c k s up in
      let at = relinked-Placed in
      let m2 = rb_set_child (rb_set_parent m child k) k w child in
      let color = head_color N V lo real m2 relinked at.holds x k child at.hangs in
      elim (zero_or_one c0 small) [
        | inl z ↦
            let run =
              ap (λ i. rb_delete_with_at_most_one_child lo fuel m child k w i) z
              ∙ unlink_red lo fuel m child k w in
            let sa' = black_top above z sa in
            from_parts N V lo real _ _ m2 relinked k child x above h run at good.0 good.1
              (subst (λ i. SoundAbove i above) (sym (fx z)) sa')
              (subst (λ i. BalancedAbove i above) (ap (λ i. h + i) z ∙ omega arith) ba) refl
        | inr z ↦
            let sa' = subst (λ i. SoundAbove i above) z sa in
            let ba' = subst (λ i. BalancedAbove i above) (ap (λ i. h + i) z) ba in
            elim (red_cases x good.0) [
              | inl black ↦
                  same_run N V lo real _ _ _ _
                    (ap (λ i. rb_delete_with_at_most_one_child lo fuel m child k w i) z
                      ∙ unlink_black lo fuel m child k w (color ∙ black))
                    refl
                    (rb_delete_fixup-Rebuilt N V lo real fuel h m2 relinked k child x w above lt at
                      good black refl sa' ba')
              | inr (i, a, b, e) ↦
                  let at' = subst (λ t. Placed N V lo real m2 relinked k child t above) e at in
                  same_run N V lo real _ _ _ _
                    (ap (λ i. rb_delete_with_at_most_one_child lo fuel m child k w i) z
                      ∙ unlink_red_child lo fuel m child k w (color ∙ ap color_of e))
                    (ap (λ t. inorder (refill above t)) (sym e))
                    (red_child-Rebuilt N V lo real h m2 relinked k child i a b above at'
                      (subst (Good N V lo real h) e good) sa' ba')
            ]
      ]
