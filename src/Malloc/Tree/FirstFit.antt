-- ===== src/Malloc/Tree/FirstFit.antt =====
-- `rb_lower_bound` of malloclab/mm.c against the list of the nodes in order.
use ics.Common.{
  ℕ, zero, suc, ◌≤◌, ◌<◌, ◌≡◌, refl, sym, ap, ◌∙◌, ◌≢◌, inl, inr, true, false, some, List, [], ◌∷◌,
  ◌++◌, arith, leb, ◌==◌, if◌then◌else◌, ==_iff, Bool-cases, All,
}
use ics.Bytes.{Buffer}
use ics.Malloc.Tree.{rbnull, lower_loop, rb_lower_bound, rb_left, rb_right}
use ics.Malloc.Tree.Focus.{Hangs, RbTree, empty, tree, whole}
use ics.Malloc.Tree.Links.{Links}
use ics.Malloc.Tree.Stored.{nodes_differ}
use ics.Malloc.Tree.Nodes.{Holds}
use ics.Malloc.Tree.RedBlack.{inorder}
use ics.Malloc.Tree.BlackUncle.{Placed}
use ics.Malloc.Tree.Sorted.{Ascending, Ascending-parts}
use ics.Malloc.Tree.Descend.{height_of}

module _ (V : ℕ → ℕ) (value : ℕ) where
  -- The first node that is long enough, or else `result`.
  unfoldable pub first_fit : ℕ → List ℕ → ℕ
  first_fit result [] = result
  first_fit result (x ∷ xs) = if leb value (V x) then x else first_fit result xs

  fit_before :
      (result k : ℕ) (xs ys : List ℕ)
      → value ≤ V k
      → first_fit result (xs ++ (k ∷ ys)) ≡ first_fit k xs
  unfolding first_fit
  fit_before result k [] ys le = ground arith
  fit_before result k (x ∷ xs) ys le = let rest = fit_before result k xs ys le in rw rest refl

  fit_behind :
      (result k : ℕ) (xs ys : List ℕ)
      → V k < value
      → All (λ x. V x ≤ V k) xs
      → first_fit result (xs ++ (k ∷ ys)) ≡ first_fit result ys
  unfolding first_fit
  fit_behind result k [] ys lt a = ground arith
  fit_behind result k (x ∷ xs) ys lt (p, a) =
      let rest = fit_behind result k xs ys lt a in
      let t : leb value (V x) ≡ false = ground arith in rw t rest

module _ (N : ℕ → Type 0) (V : ℕ → ℕ) (lo : ℕ) (real : (k : ℕ) → N k → k ≢ rbnull) (m : Buffer)
    (l : Links) (hold : Holds N V lo m l) (value : ℕ) where
  lower_loop-first_fit :
      (fuel p n result : ℕ) (t : RbTree)
      → height_of t < fuel
      → Hangs N real l p n t
      → Ascending V (inorder t)
      → lower_loop fuel m n result value ≡ some (first_fit V value result (inorder t))
  unfolding lower_loop first_fit
  lower_loop-first_fit zero p n result t lt h s = absurd (omega arith)
  lower_loop-first_fit (suc fuel) p n result empty lt h s =
      let e : n == rbnull ≡ true = (==_iff n rbnull).1 h in rw e refl
  lower_loop-first_fit (suc fuel) p n result (tree c k a b) lt (e, at, q, r, ha, hb) s =
      let ne : k == rbnull ≡ false = nodes_differ N V lo k rbnull (real k at) in
      let (below_k, above_k, sa, sb) = Ascending-parts V (inorder a) k (inorder b) s in
      let v = hold.value_is k at in
      let cl = hold.child_is rb_left k at in
      let cr = hold.child_is rb_right k at in
      elim (Bool-cases (leb value (V k))) [
        | inl t ↦
            let rest = lower_loop-first_fit fuel k (l.child rb_left k) k a (omega arith) ha sa in
            let le : value ≤ V k = ground arith in
            rw (e, ne, v, t, cl)
              (rest ∙ ap some (sym (fit_before V value result k (inorder a) (inorder b) le)))
        | inr t ↦
            let rest =
              lower_loop-first_fit fuel k (l.child rb_right k) result b (omega arith) hb sb in
            let gt : V k < value = ground arith in
            rw (e, ne, v, t, cr)
              (rest
                ∙ ap some (sym (fit_behind V value result k (inorder a) (inorder b) gt below_k)))
      ]

-- In a memory that holds a tree sorted by length, with fuel for its height, `rb_lower_bound` ends
-- with the first node in order whose length is at least `value`, or with `rbnull` where none is.
pub rb_lower_bound-first_fit :
    (N : ℕ → Type 0) (V : ℕ → ℕ) (lo : ℕ) (real : (k : ℕ) → N k → k ≢ rbnull) (fuel : ℕ)
    (m : Buffer) (l : Links) (t : RbTree) (value : ℕ)
    → height_of t < fuel
    → Placed N V lo real m l rbnull l.root t whole
    → Ascending V (inorder t)
    → rb_lower_bound lo fuel m value ≡ some (first_fit V value rbnull (inorder t))
unfolding rb_lower_bound
rb_lower_bound-first_fit N V lo real fuel m l t value lt at s =
    rw at.holds.root_is (
      lower_loop-first_fit N V lo real m l at.holds value fuel rbnull l.root rbnull t lt at.hangs s)
