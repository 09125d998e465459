-- ===== src/Malloc/Tree/Sorted.antt =====
-- Sorted lists of nodes, the specification of an insertion in the tree of malloclab/mm.c.
use mathlib.Core.Path.{subst}
use ics.Common.{
  ℕ, ◌≤◌, ◌<◌, ◌≡◌, refl, sym, ◌∙◌, inl, inr, false, List, [], ◌∷◌, ◌++◌, append-nil, append_assoc,
  arith, leb, if◌then◌else◌, Bool-cases, All,
}
use ics.Malloc.Tree.{rb_left, rb_right}
use ics.Malloc.Tree.Focus.{RbTree, Above, tree, whole, below}
use ics.Malloc.Tree.RedBlack.{refill, inorder}

-- The nodes before and after what hangs there.
abbrev pub before : Above → List ℕ
before whole = []
before (below rb_left c k s up) = before up
before (below rb_right c k s up) = before up ++ (inorder s ++ (k ∷ []))

abbrev pub after : Above → List ℕ
after whole = []
after (below rb_left c k s up) = k ∷ (inorder s ++ after up)
after (below rb_right c k s up) = after up

pub refill_split :
    (up : Above) (t : RbTree) → inorder (refill up t) ≡ before up ++ (inorder t ++ after up)
refill_split whole t = sym (append-nil (inorder t))
refill_split (below rb_left c k s up) t = refill_split up (tree c k t s) ∙ simp append_assoc
refill_split (below rb_right c k s up) t = refill_split up (tree c k s t) ∙ simp append_assoc

module _ (P : ℕ → Type 0) where
  pub All-append : (xs ys : List ℕ) → All P xs → All P ys → All P (xs ++ ys)
  All-append [] ys a b = b
  All-append (x ∷ xs) ys (p, a) b = (p, All-append xs ys a b)

  pub All-parts : (xs ys : List ℕ) → All P (xs ++ ys) → All P xs × All P ys
  All-parts [] ys a = (tt, a)
  All-parts (x ∷ xs) ys (p, a) = let (b, c) = All-parts xs ys a in ((p, b), c)

pub All-map : (P Q : ℕ → Type 0) (xs : List ℕ) → ((x : ℕ) → P x → Q x) → All P xs → All Q xs
All-map P Q [] f a = tt
All-map P Q (x ∷ xs) f (p, a) = (f x p, All-map P Q xs f a)

-- `V` is the length of a node.
module _ (V : ℕ → ℕ) where
  -- No node has a greater length than one behind it.
  abbrev pub Ascending : List ℕ → Type 0
  Ascending [] = Unit
  Ascending (x ∷ xs) = All (λ y. V x ≤ V y) xs × Ascending xs

  -- A node comes before the first that is not shorter.
  unfoldable pub insert_sorted : ℕ → List ℕ → List ℕ
  insert_sorted n [] = n ∷ []
  insert_sorted n (x ∷ xs) = if leb (V n) (V x) then n ∷ (x ∷ xs) else x ∷ insert_sorted n xs

  pub Ascending-parts :
      (xs : List ℕ) (k : ℕ) (ys : List ℕ)
      → Ascending (xs ++ (k ∷ ys))
      → All (λ x. V x ≤ V k) xs × All (λ y. V k ≤ V y) ys × Ascending xs × Ascending ys
  Ascending-parts [] k ys (a, s) = (tt, a, tt, s)
  Ascending-parts (x ∷ xs) k ys (a, s) =
      let (b, c, d, e) = Ascending-parts xs k ys s in
      let (a', q) = All-parts (λ y. V x ≤ V y) xs (k ∷ ys) a in ((q.0, b), c, (a', d), e)

  Ascending-middle : (xs ys zs : List ℕ) → Ascending (xs ++ (ys ++ zs)) → Ascending ys
  Ascending-middle [] [] zs s = tt
  Ascending-middle [] (y ∷ ys) zs (a, s) =
      ((All-parts (λ z. V y ≤ V z) ys zs a).0, Ascending-middle [] ys zs s)
  Ascending-middle (x ∷ xs) ys zs (a, s) = Ascending-middle xs ys zs s

  pub Ascending-refill :
      (up : Above) (t : RbTree) → Ascending (inorder (refill up t)) → Ascending (inorder t)
  Ascending-refill up t s =
      Ascending-middle (before up) (inorder t) (after up) (subst Ascending (refill_split up t) s)

  -- Between the shorter ones and the others.
  pub insert_between :
      (n : ℕ) (xs ys : List ℕ)
      → All (λ x. V x < V n) xs
      → All (λ y. V n ≤ V y) ys
      → insert_sorted n (xs ++ ys) ≡ xs ++ (n ∷ ys)
  unfolding insert_sorted
  insert_between n [] [] a b = refl
  insert_between n [] (y ∷ ys) a (p, b) = ground arith
  insert_between n (x ∷ xs) ys (p, a) b =
      let rest = insert_between n xs ys a b in
      let t : leb (V n) (V x) ≡ false = ground arith in rw (t, rest) refl

  All-insert : (P : ℕ → Type 0) (n : ℕ) (xs : List ℕ) → P n → All P xs → All P (insert_sorted n xs)
  unfolding insert_sorted
  All-insert P n [] p a = (p, tt)
  All-insert P n (x ∷ xs) p (q, a) = elim (Bool-cases (leb (V n) (V x))) [
    | inl t ↦ rw t (p, (q, a))
    | inr t ↦ rw t (q, All-insert P n xs p a)
  ]

  -- The list stays sorted.
  pub insert_sorted-Ascending :
      (n : ℕ) (xs : List ℕ) → Ascending xs → Ascending (insert_sorted n xs)
  unfolding insert_sorted
  insert_sorted-Ascending n [] s = (tt, tt)
  insert_sorted-Ascending n (x ∷ xs) (a, s) = elim (Bool-cases (leb (V n) (V x))) [
    | inl t ↦
        let le : V n ≤ V x = ground arith in
        rw t ((le, All-map (λ y. V x ≤ V y) (λ y. V n ≤ V y) xs (λ y p. omega arith) a), (a, s))
    | inr t ↦
        let le : V x ≤ V n = ground arith in
        rw t (All-insert (λ y. V x ≤ V y) n xs le a, insert_sorted-Ascending n xs s)
  ]
