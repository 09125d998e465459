-- ===== src/Malloc/TreeTests.antt =====
-- Runs of the tree of malloclab/mm.c on a small heap: three free blocks, and a root.
use ics.Common.{
  ℕ, ◌+◌, ◌%◌, ◌^◌, ◌≤◌, ◌<◌, ◌≡◌, refl, ◌≢◌, ◌⊎◌, inl, inr, some, [], ◌∷◌, arith, ◌==◌,
  if◌then◌else◌,
}
use ics.Malloc.Tree.Stored.{set_parent-Holds, set_child-Holds}
use ics.Malloc.Tree.Marks.{color-Holds, root-Holds}
use ics.Malloc.Tree.Fixup.{rb_insert_fixup-Rebuilt}
use ics.Malloc.Tree.Rotate.{rotate_links}
use ics.Malloc.Block.RoundTrip.{HeaderFits}
use ics.Malloc.Tree.Sorted.{Ascending, insert_sorted}
use ics.Malloc.Tree.RedBlack.{inorder, IsRedBlack}
use ics.Malloc.Tree.Rebuilt.{Rebuilt}
use ics.Bytes.{Buffer, get_le}
use ics.Malloc.Tree.{
  rb_red, rb_black, rbnull, rb_parent, rb_child, rb_color, rb_value, rb_set_parent, rb_set_child,
  rb_set_color, rbroot, set_rbroot, rb_lower_bound, rb_left, rb_right,
}
use ics.Malloc.Tree.Focus.{RbTree, Above, empty, tree, whole, below}
use ics.Malloc.Tree.Delete.{rb_delete_fixup, rb_delete}
use ics.Malloc.Tree.DeleteFixup.{rb_delete_fixup-Rebuilt}
use ics.Malloc.Tree.FirstFit.{first_fit, rb_lower_bound-first_fit}
use ics.Malloc.Tree.DeleteOuter.{rb_delete_single-Rebuilt}
use ics.Malloc.Tree.Insert.{rb_rotate, rb_insert_fixup, rb_insert}
use ics.Malloc.Tree.Links.{put_parent, put_child, put_color, put_root, Links}
use ics.Malloc.Tree.Nodes.{Holds}
use ics.Malloc.Tree.BlackUncle.{rb_rotate-Placed, Placed}
use ics.Malloc.Tree.Insertion.{rb_insert-Rebuilt}
use ics.Malloc.Block.{
  read_24, read_24_transformed, get_block_length, get_block_is_free, read_block_header_bit,
}

-- Blocks of 32, 24 and 20 bytes at 16, 48 and 72, all free; the root is null and black.
abbrev heap_bytes : Buffer
heap_bytes k =
    if k == 0
    then 8
    else if k == 14
    then 1
    else if k == 16
    then 17
    else if k == 48
    then 13
    else if k == 72
    then 11
    else 0

abbrev FreeBlock : ℕ → Type 0
FreeBlock k = (k ≡ 16) ⊎ ((k ≡ 48) ⊎ (k ≡ 72))

abbrev block_size : ℕ → ℕ
block_size k = rb_value heap_bytes k

block_real : (k : ℕ) → FreeBlock k → k ≢ rbnull
block_real k (inl e) i = omega arith
block_real k (inr (inl e)) i = omega arith
block_real k (inr (inr e)) i = omega arith

abbrev first_links : Links
first_links = record {
  parent = rb_parent heap_bytes;
  child = λ w k. rb_child heap_bytes k w;
  color = rb_color heap_bytes;
  root = rbnull;
}

length_16 : get_block_length heap_bytes 16 ≡ 32
unfolding get_block_length read_24_transformed read_24 get_le
length_16 = refl

length_48 : get_block_length heap_bytes 48 ≡ 24
unfolding get_block_length read_24_transformed read_24 get_le
length_48 = refl

length_72 : get_block_length heap_bytes 72 ≡ 20
unfolding get_block_length read_24_transformed read_24 get_le
length_72 = refl

blocks_place :
    (n : ℕ) → FreeBlock n → (16 ≤ n) × (n < 2 ^ 25) × (n % 4 ≡ 0) × HeaderFits heap_bytes n
unfolding get_block_is_free
blocks_place n (inl e) = rw (e, length_16) (omega arith, omega arith, refl, omega arith)
blocks_place n (inr (inl e)) = rw (e, length_48) (omega arith, omega arith, refl, omega arith)
blocks_place n (inr (inr e)) = rw (e, length_72) (omega arith, omega arith, refl, omega arith)

block_end :
    (n : ℕ)
    → FreeBlock n
    → ((n ≡ 16) × (n + get_block_length heap_bytes n ≡ 48))
      ⊎ (((n ≡ 48) × (n + get_block_length heap_bytes n ≡ 72))
          ⊎ ((n ≡ 72) × (n + get_block_length heap_bytes n ≡ 92)))
block_end n (inl e) = inl (e, rw (e, length_16) refl)
block_end n (inr (inl e)) = inr (inl (e, rw (e, length_48) refl))
block_end n (inr (inr e)) = inr (inr (e, rw (e, length_72) refl))

blocks_apart :
    (n k : ℕ)
    → FreeBlock n
    → FreeBlock k
    → n ≢ k
    → (n + get_block_length heap_bytes n ≤ k) ⊎ (k + get_block_length heap_bytes k ≤ n)
blocks_apart n k a b ne = let x = block_end n a in let y = block_end k b in grind arith

heap_Placed :
    Placed FreeBlock block_size 0 block_real heap_bytes first_links rbnull rbnull empty whole
unfolding rbroot get_le rb_color read_block_header_bit
heap_Placed = record {
  holds = record {
    nodes = record {
      bytes = λ k. ground arith;
      place = blocks_place;
      apart = blocks_apart;
      null_black = refl;
      low_heap = omega arith;
    };
    parent_is = λ k at. refl;
    child_is = λ w k at. refl;
    color_is = λ k at. refl;
    value_is = λ k at. refl;
    root_is = refl;
  };
  hangs = refl;
  under = (refl, refl);
  once = λ k. omega arith;
}

-- The block at 16 is the black root, and the one at 48 its red left child.
abbrev two_nodes : Buffer
two_nodes =
    let m1 = set_rbroot 0 heap_bytes 16 in
    let m2 = rb_set_color (rb_set_parent m1 16 rbnull) 16 rb_black in
    let m3 = rb_set_child (rb_set_child m2 16 rb_left 48) 16 rb_right rbnull in
    let m4 = rb_set_color (rb_set_parent m3 48 16) 48 rb_red in
    rb_set_child (rb_set_child m4 48 rb_left rbnull) 48 rb_right rbnull

abbrev two_links : Links
two_links =
    let l1 = put_root first_links 16 in
    let l2 = put_color (put_parent l1 16 rbnull) 16 rb_black in
    let l3 = put_child (put_child l2 16 rb_left 48) 16 rb_right rbnull in
    let l4 = put_color (put_parent l3 48 16) 48 rb_red in
    put_child (put_child l4 48 rb_left rbnull) 48 rb_right rbnull

abbrev two_tree : RbTree
two_tree = tree rb_black 16 (tree rb_red 48 empty empty) empty

two_Holds : Holds FreeBlock block_size 0 two_nodes two_links
two_Holds =
    let at_16 : FreeBlock 16 = inl refl in
    let at_48 : FreeBlock 48 = inr (inl refl) in
    let h1 =
      root-Holds FreeBlock block_size 0 heap_bytes first_links heap_Placed.holds 16 (inr at_16) in
    let h2 = set_parent-Holds FreeBlock block_size 0 _ _ h1 16 rbnull (inr at_16) (inl refl) in
    let h3 = color-Holds FreeBlock block_size 0 _ _ h2 16 rb_black at_16 (omega arith) in
    let h4 = set_child-Holds FreeBlock block_size 0 _ _ h3 16 rb_left 48 (inr at_16) (inr at_48) in
    let h5 =
      set_child-Holds FreeBlock block_size 0 _ _ h4 16 rb_right rbnull (inr at_16) (inl refl) in
    let h6 = set_parent-Holds FreeBlock block_size 0 _ _ h5 48 16 (inr at_48) (inr at_16) in
    let h7 = color-Holds FreeBlock block_size 0 _ _ h6 48 rb_red at_48 (omega arith) in
    let h8 =
      set_child-Holds FreeBlock block_size 0 _ _ h7 48 rb_left rbnull (inr at_48) (inl refl) in
    set_child-Holds FreeBlock block_size 0 _ _ h8 48 rb_right rbnull (inr at_48) (inl refl)

two_Placed : Placed FreeBlock block_size 0 block_real two_nodes two_links rbnull 16 two_tree whole
two_Placed = record {
  holds = two_Holds;
  hangs = (refl, inl refl, refl, refl, (refl, inr (inl refl), refl, refl, refl, refl), refl);
  under = (refl, refl);
  once = λ k. ground arith;
}

two_rules : IsRedBlack two_tree
two_rules = record {
  sound =
      (omega arith, (λ e. absurd (omega arith)), (omega arith, (λ e. (refl, refl)), tt, tt), tt);
  black_root = refl;
  height = 1;
  balanced = (0, refl, (0, refl, refl, refl), refl);
}

two_sorted : Ascending block_size (inorder two_tree)
unfolding rb_value get_block_length read_24_transformed read_24 get_le
two_sorted = ((omega arith, tt), (tt, tt))

-- The block at 72 comes below the block at 48, which then turns up to be the root.
rb_insert-Rebuilt_example :
    Rebuilt FreeBlock block_size 0 block_real
      (rb_insert 0 3 two_nodes 72)
      (insert_sorted block_size 72 (48 ∷ (16 ∷ [])))
rb_insert-Rebuilt_example =
    rb_insert-Rebuilt FreeBlock block_size 0 block_real 3 two_nodes two_links 72 (inr (inr refl))
      two_tree (omega arith) two_Placed two_rules two_sorted refl

insert_sorted_result : insert_sorted block_size 72 (48 ∷ (16 ∷ [])) ≡ 72 ∷ (48 ∷ (16 ∷ []))
unfolding insert_sorted rb_value get_block_length read_24_transformed read_24 get_le
insert_sorted_result = refl

rb_rotate-Placed_example :
    Placed FreeBlock block_size 0 block_real
      (rb_rotate 0 two_nodes 48 rb_left 16 rb_left rbnull)
      (rotate_links two_links 48 rb_left 16 rb_left rbnull)
      rbnull
      48
      (tree rb_red 48 empty (tree rb_black 16 empty empty))
      whole
rb_rotate-Placed_example =
    rb_rotate-Placed FreeBlock block_size 0 block_real two_nodes two_links rbnull 16 rb_black 48
      rb_red rb_left empty empty empty whole two_Placed rb_left tt

-- The red block at 72 hangs below the red block at 48.
abbrev three_nodes : Buffer
three_nodes =
    let m1 = rb_set_child (rb_set_child two_nodes 72 rb_left rbnull) 72 rb_right rbnull in
    rb_set_color (rb_set_parent (rb_set_child m1 48 rb_left 72) 72 48) 72 rb_red

abbrev three_links : Links
three_links =
    let l1 = put_child (put_child two_links 72 rb_left rbnull) 72 rb_right rbnull in
    put_color (put_parent (put_child l1 48 rb_left 72) 72 48) 72 rb_red

abbrev above_three : Above
above_three = below rb_left rb_red 48 empty (below rb_left rb_black 16 empty whole)

three_Placed :
    Placed FreeBlock block_size 0 block_real three_nodes three_links 48 72
      (tree rb_red 72 empty empty)
      above_three
three_Placed =
    let at_48 : FreeBlock 48 = inr (inl refl) in
    let at_72 : FreeBlock 72 = inr (inr refl) in
    let h1 =
      set_child-Holds FreeBlock block_size 0 _ _ two_Holds 72 rb_left rbnull (inr at_72)
        (inl refl) in
    let h2 =
      set_child-Holds FreeBlock block_size 0 _ _ h1 72 rb_right rbnull (inr at_72) (inl refl) in
    let h3 = set_child-Holds FreeBlock block_size 0 _ _ h2 48 rb_left 72 (inr at_48) (inr at_72) in
    let h4 = set_parent-Holds FreeBlock block_size 0 _ _ h3 72 48 (inr at_72) (inr at_48) in
    record {
      holds = color-Holds FreeBlock block_size 0 _ _ h4 72 rb_red at_72 (omega arith);
      hangs = (refl, at_72, refl, refl, refl, refl);
      under = (refl, at_48, refl, refl, refl, (refl, inl refl, refl, refl, refl, (refl, refl)));
      once = λ k. ground arith;
    }

rb_insert_fixup-Rebuilt_example :
    Rebuilt FreeBlock block_size 0 block_real
      (rb_insert_fixup 0 3 three_nodes 72)
      (72 ∷ (48 ∷ (16 ∷ [])))
rb_insert_fixup-Rebuilt_example =
    rb_insert_fixup-Rebuilt FreeBlock block_size 0 block_real 3 three_nodes three_links 48 72 empty
      empty above_three 0 (omega arith) three_Placed (omega arith, (λ e. (refl, refl)), tt, tt)
      (0, refl, refl, refl)
      (omega arith, (λ e. (refl, refl)), tt, (omega arith, (λ e. absurd (omega arith)), tt, refl))
      (refl, (refl, tt))

-- The block at 48 is black, and on the right of the root a black node is missing.
abbrev short_nodes : Buffer
short_nodes = rb_set_color two_nodes 48 rb_black

abbrev short_links : Links
short_links = put_color two_links 48 rb_black

abbrev above_short : Above
above_short = below rb_right rb_black 16 (tree rb_black 48 empty empty) whole

short_Placed :
    Placed FreeBlock block_size 0 block_real short_nodes short_links 16 rbnull empty above_short
short_Placed = record {
  holds =
      color-Holds FreeBlock block_size 0 two_nodes two_links two_Holds 48 rb_black (inr (inl refl))
        (omega arith);
  hangs = refl;
  under =
      (refl, inl refl, refl, refl, (refl, inr (inl refl), refl, refl, refl, refl), (refl, refl));
  once = λ k. ground arith;
}

rb_delete_fixup-Rebuilt_example :
    Rebuilt FreeBlock block_size 0 block_real
      (rb_delete_fixup 0 2 short_nodes 16 rb_right)
      (48 ∷ (16 ∷ []))
rb_delete_fixup-Rebuilt_example =
    rb_delete_fixup-Rebuilt FreeBlock block_size 0 block_real 2 0 short_nodes short_links 16 rbnull
      empty rb_right above_short (omega arith) short_Placed (tt, refl) refl refl
      (omega arith, (λ e. (refl, refl)), (omega arith, (λ e. (refl, refl)), tt, tt), refl)
      ((0, refl, refl, refl), tt)

rb_lower_bound-first_fit_example :
    rb_lower_bound 0 3 two_nodes 30 ≡ some (first_fit block_size 30 rbnull (48 ∷ (16 ∷ [])))
rb_lower_bound-first_fit_example =
    rb_lower_bound-first_fit FreeBlock block_size 0 block_real 3 two_nodes two_links two_tree 30
      (omega arith) two_Placed two_sorted

first_fit_result : first_fit block_size 30 rbnull (48 ∷ (16 ∷ [])) ≡ 16
unfolding first_fit rb_value get_block_length read_24_transformed read_24 get_le
first_fit_result = refl

-- The root has one child, which comes in its place.
rb_delete_single-Rebuilt_example :
    Rebuilt FreeBlock block_size 0 block_real (rb_delete 0 1 two_nodes 16) (48 ∷ [])
rb_delete_single-Rebuilt_example =
    rb_delete_single-Rebuilt FreeBlock block_size 0 block_real 1 two_nodes two_links rbnull rb_black
      16 rb_left (tree rb_red 48 empty empty) whole (omega arith) two_Placed two_rules
