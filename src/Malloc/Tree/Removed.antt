-- ===== src/Malloc/Tree/Removed.antt =====
-- The end of `rb_delete` in malloclab/mm.c: the root, and the parent of the node that is out.
use mathlib.Core.Path.{subst}
use ics.Common.{
  ℕ, suc, ◌+◌, ◌≤◌, ◌<◌, ◌≡◌, refl, sym, ap, ◌∙◌, ◌≢◌, inl, inr, true, false, Option, some, List,
  [], ◌∷◌, ◌++◌, arith, ◌==◌, if◌then◌else◌, ==_iff,
}
use ics.Malloc.Tree.RedBlack.{
  refill, inorder, color_of, SoundAbove, BalancedAbove, refill-IsRedBlack, refill-occurs,
  black_node,
}
use ics.Malloc.Tree.Stored.{set_parent-Holds, nodes_differ}
use ics.Bytes.{Buffer}
use ics.Malloc.Tree.{
  rb_red, rb_black, rbnull, rb_color, rb_set_parent, rb_set_child, rb_set_color, rb_which, rbroot,
  set_rbroot, Which, rb_left,
}
use ics.Malloc.Tree.Focus.{
  side, occurs, occurs_above, occurs-side, Hangs, Under, Hangs-side, Hangs-kept, Hangs-moved,
  RbTree, Above, empty, tree, whole, below,
}
use ics.Malloc.Tree.Delete.{rb_delete_with_at_most_one_child, replace_root, mark_removed}
use ics.Malloc.Tree.Links.{put_parent, put_color, put_root, Links}
use ics.Malloc.Tree.Nodes.{Holds}
use ics.Malloc.Tree.Marks.{color-Holds, root-Holds}
use ics.Malloc.Tree.Rebuilt.{levels, close-Placed, same_run, Rebuilt}
use ics.Malloc.Tree.BlackUncle.{Placed}
use ics.Malloc.Tree.Paint.{Hangs-Address, head_apart}
use ics.Malloc.Tree.Moves.{which_here, paint-Placed, named-Placed}
use ics.Malloc.Tree.Reads.{head_color}
use ics.Malloc.Tree.GapClosed.{Good}
use ics.Malloc.Tree.Round.{Good-red}
use ics.Malloc.Tree.DeleteFixup.{nothing_above}
use ics.Malloc.Tree.Unlink.{unlink_red_child, unlink_black, unlinked-Rebuilt}

abbrev pub occurrences : ℕ → List ℕ → ℕ
occurrences k [] = 0
occurrences k (x ∷ xs) = (if k == x then 1 else 0) + occurrences k xs

occurrences-append :
    (k : ℕ) (xs ys : List ℕ) → occurrences k (xs ++ ys) ≡ occurrences k xs + occurrences k ys
occurrences-append k [] ys = omega arith
occurrences-append k (x ∷ xs) ys = let rest = occurrences-append k xs ys in omega (arith, rest)

pub occurs-inorder : (k : ℕ) (t : RbTree) → occurs k t ≡ occurrences k (inorder t)
occurs-inorder k empty = refl
occurs-inorder k (tree c n a b) =
    let ea = occurs-inorder k a in
    let eb = occurs-inorder k b in
    let e = occurrences-append k (inorder a) (n ∷ inorder b) in omega (arith, ea, eb, e)

module _ (N : ℕ → Type 0) (V : ℕ → ℕ) (lo : ℕ) (real : (k : ℕ) → N k → k ≢ rbnull) where
  -- A write of the parent of a node that is not in the tree.
  outside-Placed :
      (m : Buffer) (l : Links) (n : ℕ) (t : RbTree)
      → N n
      → Placed N V lo real m l rbnull l.root t whole
      → occurs n t ≡ 0
      → Placed N V lo real (rb_set_parent m n n) (put_parent l n n) rbnull l.root t whole
  outside-Placed m l n t at_n at o = record {
    holds = set_parent-Holds N V lo m l at.holds n n (inr at_n) (inr at_n);
    hangs = Hangs-kept N real l (put_parent l n n) t rbnull l.root at.hangs (λ k o'.
        let ne : k ≢ n = λ e. let o'' = subst (λ i. 1 ≤ occurs i t) e o' in omega arith in
        (ground arith, refl, λ w. refl));
    under = (refl, refl);
    once = at.once;
  }

  pub removed-Rebuilt :
      (run : Option Buffer) (xs : List ℕ) (n child : ℕ)
      → N n
      → occurrences n xs ≡ 0
      → Rebuilt N V lo real run xs
      → Rebuilt N V lo real (mark_removed lo n (replace_root lo n child run)) xs
  unfolding mark_removed replace_root
  removed-Rebuilt run xs n child at_n none' r =
      let o : occurs n r.result ≡ 0 =
        occurs-inorder n r.result ∙ ap (occurrences n) r.same_nodes ∙ none' in
      let apart = head_apart N real r.links r.result rbnull r.links.root n r.placed.hangs at_n o in
      let t : n == rbroot lo r.memory ≡ false =
        ap (λ i. n == i) r.placed.holds.root_is ∙ nodes_differ N V lo n r.links.root apart in
      record {
        memory = rb_set_parent r.memory n n;
        links = put_parent r.links n n;
        result = r.result;
        ends = rw r.ends (rw t refl);
        placed = outside-Placed r.memory r.links n r.result at_n r.placed o;
        red_black = r.red_black;
        same_nodes = r.same_nodes;
      }

  -- A node below another with one child at most.
  pub below-Rebuilt :
      (fuel : ℕ) (m : Buffer) (l : Links) (p c0 n h : ℕ) (v : Which) (x : RbTree) (w : Which)
      (c k : ℕ) (s : RbTree) (up : Above)
      → levels (below w c k s up) < fuel
      → Placed N V lo real m l p n (side v c0 n x empty) (below w c k s up)
      → c0 < 2
      → Good N V lo real h x
      → (c0 ≡ rb_red → color_of x ≡ rb_black)
      → SoundAbove c0 (below w c k s up)
      → BalancedAbove (h + c0) (below w c k s up)
      → Rebuilt N V lo real
          (mark_removed lo n (
            replace_root lo n
              (l.child v n)
              (rb_delete_with_at_most_one_child lo fuel m (l.child v n) p (rb_which m n p) c0)))
          (inorder (refill (below w c k s up) x))
  below-Rebuilt fuel m l p c0 n h v x w c k s up lt at small good fx sa ba =
      let above = below w c k s up in
      let (e, at_n, q, r, hx, hs) = Hangs-side N real l v p n c0 n x empty at.hangs in
      let o : (j : ℕ) → (if j == n then 1 else 0) + occurs j x + occurs_above j above ≤ 1 =
        λ j. let a = at.once j in let b = occurs-side v j c0 n x empty in omega (arith, a, b) in
      let is_k : p ≡ k = at.under.0 in
      let ew : rb_which m n p ≡ w = which_here N V lo real m l v p c0 n x empty above at in
      let u = subst (λ i. Under N real l i n above) is_k at.under in
      let done' =
        unlinked-Rebuilt N V lo real m l n (l.child v n) c0 x w c k s up at.holds hx u at_n o fuel h
          lt small good fx sa ba in
      let split = refill-occurs above x n in
      let count = occurs-inorder n (refill above x) in
      let none' : occurrences n (inorder (refill above x)) ≡ 0 =
        ground (arith, o n, split, count) in
      same_run N V lo real _ _ _ _
        (ap
            (λ i. mark_removed lo n (
              replace_root lo n (l.child v n)
                (rb_delete_with_at_most_one_child lo fuel m (l.child v n) i (rb_which m n p) c0)))
            is_k
          ∙ ap
              (λ i. mark_removed lo n (
                replace_root lo n (l.child v n)
                  (rb_delete_with_at_most_one_child lo fuel m (l.child v n) k i c0)))
              ew)
        refl (removed-Rebuilt _ _ n (l.child v n) at_n none' done')

  -- The root with one child at most: the child becomes the root.
  module _ (m : Buffer) (l : Links) (n h : ℕ) (v : Which) (x : RbTree)
      (at : Placed N V lo real m l rbnull n (side v rb_black n x empty) whole) where
    abbrev child : ℕ
    child = l.child v n

    abbrev rooted : Links
    rooted = put_root (put_parent l (l.child v n) rbnull) (l.child v n)

    rooted-Placed :
        (m' : Buffer)
        → Holds N V lo m' rooted
        → Placed N V lo real m' rooted rbnull (l.child v n) x whole
    rooted-Placed m' holds =
        let (e, at_n, q, r, hx, hs) = Hangs-side N real l v rbnull n rb_black n x empty at.hangs in
        let o : (j : ℕ) → (if j == n then 1 else 0) + occurs j x ≤ 1 = λ j.
          let a = at.once j in let b = occurs-side v j rb_black n x empty in omega (arith, a, b) in
        record {
          holds = holds;
          hangs =
              Hangs-moved N real l rooted x n rbnull child (λ j. ground (arith, o j)) hx
                (λ ne. ground arith) (λ j o'. ((λ ne. ground arith), refl, λ w'. refl));
          under = (refl, refl);
          once = λ j. ground (arith, o j);
        }

    rooted-Holds :
        Holds N V lo (set_rbroot lo (rb_set_parent m (l.child v n) rbnull) (l.child v n)) rooted
    rooted-Holds =
        let (e, at_n, q, r, hx, hs) = Hangs-side N real l v rbnull n rb_black n x empty at.hangs in
        let to = Hangs-Address N real l x n child hx in
        root-Holds N V lo _ _ (set_parent-Holds N V lo m l at.holds child rbnull to (inl refl))
          child to

    -- The memory once the child has no parent.
    loose-Holds : Holds N V lo (rb_set_parent m child rbnull) (put_parent l child rbnull)
    loose-Holds =
        let (e, at_n, q, r, hx, hs) = Hangs-side N real l v rbnull n rb_black n x empty at.hangs in
        set_parent-Holds N V lo m l at.holds child rbnull (Hangs-Address N real l x n child hx)
          (inl refl)

    loose_color : rb_color (rb_set_parent m child rbnull) child ≡ color_of x
    loose_color =
        let base = rooted-Placed _ rooted-Holds in
        head_color N V lo real (rb_set_parent m child rbnull) (put_parent l child rbnull)
          loose-Holds x rbnull child
          (Hangs-kept N real rooted (put_parent l child rbnull) x rbnull child base.hangs
            (λ k o. (refl, refl, λ w. refl)))

    loose_root : n == rbroot lo (rb_set_parent m child rbnull) ≡ true
    loose_root =
        (==_iff n (rbroot lo (rb_set_parent m child rbnull))).1
          (sym (loose-Holds.root_is ∙ at.under.1))

    node_n : N n
    node_n =
        let (e, at_n, q, r, hx, hs) = Hangs-side N real l v rbnull n rb_black n x empty at.hangs in
        at_n

    not_below : occurs n x ≡ 0
    not_below =
        let a = at.once n in let b = occurs-side v n rb_black n x empty in ground (arith, a, b)

    linked_null :
        (w : Which)
        → rb_set_child (rb_set_parent m child rbnull) rbnull w child ≡ rb_set_parent m child rbnull
    unfolding rb_set_child
    linked_null w = refl

    pub root_black_child :
        (fuel : ℕ) (w : Which)
        → Good N V lo real h x
        → color_of x ≡ rb_black
        → Rebuilt N V lo real
            (mark_removed lo n (
              replace_root lo n child
                (rb_delete_with_at_most_one_child lo (suc fuel) m child rbnull w rb_black)))
            (inorder x)
    unfolding mark_removed replace_root
    root_black_child fuel w good black =
        let m1 = rb_set_parent m child rbnull in
        let run : rb_delete_with_at_most_one_child lo (suc fuel) m child rbnull w rb_black
            ≡ some m1 =
          unlink_black lo (suc fuel) m child rbnull w
            (ap (λ i. rb_color i child) (linked_null w) ∙ loose_color ∙ black)
          ∙ nothing_above N V lo real fuel _ rbnull w refl
          ∙ ap some (linked_null w) in
        let m2 = set_rbroot lo m1 child in
        let base = rooted-Placed m2 rooted-Holds in
        let closed = close-Placed N V lo real m2 rooted whole rbnull child x base in
        let last = outside-Placed m2 rooted n x node_n closed not_below in
        let rules = refill-IsRedBlack whole h x good.0 good.1 black tt in
        record {
          memory = rb_set_parent m2 n n;
          links = put_parent rooted n n;
          result = x;
          ends = rw run (rw loose_root refl);
          placed = last;
          red_black = rules;
          same_nodes = refl;
        }

  pub root_red_child :
      (m : Buffer) (l : Links) (n h : ℕ) (v : Which) (i : ℕ) (a b : RbTree) (fuel : ℕ) (w : Which)
      → Placed N V lo real m l rbnull n (side v rb_black n (tree rb_red i a b) empty) whole
      → Good N V lo real h (tree rb_red i a b)
      → Rebuilt N V lo real
          (mark_removed lo n (
            replace_root lo n
              (l.child v n)
              (rb_delete_with_at_most_one_child lo fuel m (l.child v n) rbnull w rb_black)))
          (inorder (tree rb_red i a b))
  unfolding mark_removed replace_root
  root_red_child m l n h v i a b fuel w at good =
      let x = tree rb_red i a b in
      let kid = l.child v n in
      let m1 = rb_set_parent m kid rbnull in
      let l1 = put_parent l kid rbnull in
      let h1 = loose-Holds m l n h v x at in
      let base = rooted-Placed m l n h v x at _ (rooted-Holds m l n h v x at) in
      let l0 = rooted m l n h v x at in
      let (e, named) =
        named-Placed N V lo real _ l0 rbnull kid rb_red i a b whole
          (subst (λ j. Placed N V lo real (set_rbroot lo m1 kid) l0 rbnull j x whole) refl base) in
      let at_i : N i = named.hangs.1 in
      let at_kid : N kid = subst N (sym e) at_i in
      let h2 = color-Holds N V lo m1 l1 h1 kid rb_black at_kid (omega arith) in
      let m2 = rb_set_color m1 kid rb_black in
      let h3 = root-Holds N V lo m2 (put_color l1 kid rb_black) h2 kid (inr at_kid) in
      let m3 = set_rbroot lo m2 kid in
      let l3 = put_root (put_color l1 kid rb_black) kid in
      let painted =
        paint-Placed N V lo real _ l0 rb_left rbnull rb_red i a b whole named rb_black
          (omega arith) in
      let hung =
        subst (λ j. Hangs N real (put_color l0 j rb_black) rbnull j (tree rb_black i a b)) (sym e)
          painted.hangs in
      let y = tree rb_black i a b in
      let whole_placed : Placed N V lo real m3 l3 rbnull l3.root y whole = record {
        holds = h3;
        hangs = hung;
        under = (refl, refl);
        once = painted.once;
      } in
      let last =
        outside-Placed m3 l3 n y (node_n m l n h v x at) whole_placed (not_below m l n h v x at) in
      let ((sx, bx), (sy, by')) = Good-red N V lo real h i a b good in
      let run : rb_delete_with_at_most_one_child lo fuel m kid rbnull w rb_black ≡ some m2 =
        unlink_red_child lo fuel m kid rbnull w
          (ap (λ q. rb_color q kid) (linked_null m l n h v x at w) ∙ loose_color m l n h v x at)
        ∙ ap (λ q. some (rb_set_color q kid rb_black)) (linked_null m l n h v x at w) in
      let t : n == rbroot lo m2 ≡ true =
        (==_iff n (rbroot lo m2)).1 (sym (h2.root_is ∙ at.under.1)) in
      record {
        memory = rb_set_parent m3 n n;
        links = put_parent l3 n n;
        result = y;
        ends = rw run (rw t refl);
        placed = last;
        red_black =
            refill-IsRedBlack whole (h + 1) y (black_node i a b sx sy) (h, refl, bx, by') refl tt;
        same_nodes = refl;
      }
