-- ===== src/Malloc/Tree/Delete.antt =====
-- Deletion from the tree of malloclab/mm.c. Fuel bounds the loops, and `none` is its end.
use ics.Common.{ℕ, zero, suc, not, ◌&&◌, Option, none, some, ◌==◌, if◌then◌else◌}
use ics.Bytes.{Buffer}
use ics.Malloc.Tree.{
  other, rb_red, rb_black, rbnull, rb_parent, rb_child, rb_color, rb_set_parent, rb_set_child,
  rb_set_color, rb_which, rbroot, set_rbroot, Which, rb_left, rb_right,
}
use ics.Malloc.Tree.Insert.{rb_rotate}

module _ (lo : ℕ) where
  -- The first branch of `rb_delete_fixup`: a red brother is rotated above the parent.
  unfoldable pub lift_brother : Buffer → ℕ → Which → ℕ → Buffer
  lift_brother m parent which brother =
      let m1 = rb_set_color m brother rb_black in
      let m2 = rb_set_color m1 parent rb_red in
      let grandparent = rb_parent m2 parent in
      rb_rotate lo m2 brother (other which) parent (rb_which m2 parent grandparent) grandparent

  -- The last branch: a child of the brother is red. The inner one is rotated up first where the
  -- outer one is black.
  unfoldable pub close_gap : Buffer → ℕ → Which → ℕ → Buffer
  close_gap m parent which brother =
      let inner = rb_child m brother which in
      let outer = rb_child m brother (other which) in
      let turn = rb_color m outer == rb_black in
      let m1 = rb_set_color (rb_set_color m brother rb_red) inner rb_black in
      let m2 = if turn then rb_rotate lo m1 inner which brother (other which) parent else m in
      let top = if turn then inner else brother in
      let m3 = rb_set_color m2 top (rb_color m2 parent) in
      let m4 = rb_set_color m3 parent rb_black in
      let m5 = rb_set_color m4 (rb_child m4 top (other which)) rb_black in
      let grandparent = rb_parent m5 parent in
      let m6 =
        rb_rotate lo m5 top (other which) parent (rb_which m5 parent grandparent) grandparent in
      rb_set_color m6 (rbroot lo m6) rb_black

  -- The loop of `rb_delete_fixup`. Its `node` is only assigned, so it is left out.
  unfoldable pub rb_delete_fixup : ℕ → Buffer → ℕ → Which → Option Buffer
  rb_delete_fixup zero m parent which = none
  rb_delete_fixup (suc fuel) m parent which =
      let first = rb_child m parent (other which) in
      let lift = rb_color m first == rb_red in
      let m1 = if lift then lift_brother m parent which first else m in
      let brother = if lift then rb_child m1 parent (other which) else first in
      let left_black = rb_color m1 (rb_child m1 brother rb_left) == rb_black in
      let right_black = rb_color m1 (rb_child m1 brother rb_right) == rb_black in
      let m2 = rb_set_color m1 brother rb_red in
      let grandparent = rb_parent m2 parent in
      let rest = rb_delete_fixup fuel m2 grandparent (rb_which m2 parent grandparent) in
      if parent == rbnull
      then some m
      else if not (left_black && right_black)
      then some (close_gap m1 parent which brother)
      else if rb_color m2 parent == rb_red
      then some (rb_set_color m2 parent rb_black)
      else rest

  unfoldable pub rb_delete_with_at_most_one_child : ℕ → Buffer → ℕ → ℕ → Which → ℕ → Option Buffer
  rb_delete_with_at_most_one_child fuel m child parent which color =
      let m1 = rb_set_parent m child parent in
      let m2 = rb_set_child m1 parent which child in
      if color == rb_red
      then some m2
      else if rb_color m2 child == rb_red
      then some (rb_set_color m2 child rb_black)
      else rb_delete_fixup fuel m2 parent which

  -- `if (node == rbroot) rbroot = child;` after that.
  unfoldable pub replace_root : ℕ → ℕ → Option Buffer → Option Buffer
  replace_root node child none = none
  replace_root node child (some m) = some (if node == rbroot lo m then set_rbroot lo m child else m)

  -- The loop that finds the successor: the leftmost node below the right child.
  unfoldable pub leftmost : ℕ → Buffer → ℕ → Option ℕ
  leftmost zero m successor = none
  leftmost (suc fuel) m successor =
      let tmp = rb_child m successor rb_left in
      let rest = leftmost fuel m tmp in if tmp == rbnull then some successor else rest

  -- The links that the successor of `node` takes over, where it is the right child.
  unfoldable pub swap_near : Buffer → ℕ → ℕ → Which → ℕ → ℕ → ℕ → Buffer
  swap_near m node parent which left_child successor successor_right_child =
      let m1 = rb_set_parent (rb_set_child m parent which successor) successor parent in
      let m2 = rb_set_parent (rb_set_child m1 successor rb_left left_child) left_child successor in
      let m3 = rb_set_parent (rb_set_child m2 successor rb_right node) node successor in
      let m4 = rb_set_child m3 node rb_left rbnull in
      rb_set_parent (rb_set_child m4 node rb_right successor_right_child) successor_right_child node

  -- The same where the successor lies deeper.
  unfoldable pub swap_far : Buffer → ℕ → ℕ → Which → ℕ → ℕ → ℕ → ℕ → ℕ → Buffer
  swap_far m node parent which left_child right_child successor successor_parent
        successor_right_child =
      let successor_which = rb_which m successor successor_parent in
      let m1 = rb_set_parent (rb_set_child m parent which successor) successor parent in
      let m2 =
        rb_set_parent (rb_set_child m1 successor_parent successor_which node) node
          successor_parent in
      let m3 = rb_set_parent (rb_set_child m2 successor rb_left left_child) left_child successor in
      let m4 =
        rb_set_parent (rb_set_child m3 successor rb_right right_child) right_child successor in
      let m5 = rb_set_parent (rb_set_child m4 node rb_left rbnull) rbnull node in
      rb_set_parent (rb_set_child m5 node rb_right successor_right_child) successor_right_child node

  -- The branch of `rb_delete` for a node with two children.
  unfoldable pub delete_inner : ℕ → Buffer → ℕ → ℕ → ℕ → ℕ → ℕ → Option ℕ → Option Buffer
  delete_inner fuel m node parent left_child right_child color none = none
  delete_inner fuel m node parent left_child right_child color (some successor) =
      let which = rb_which m node parent in
      let successor_right_child = rb_child m successor rb_right in
      let successor_color = rb_color m successor in
      let m1 =
        if color == successor_color
        then m
        else rb_set_color (rb_set_color m successor color) node successor_color in
      let m2 = if node == rbroot lo m1 then set_rbroot lo m1 successor else m1 in
      let successor_parent = rb_parent m2 successor in
      let near = swap_near m2 node parent which left_child successor successor_right_child in
      let far =
        swap_far m2 node parent which left_child right_child successor successor_parent
          successor_right_child in
      if successor == right_child
      then rb_delete_with_at_most_one_child fuel near successor_right_child successor rb_right
          successor_color
      else rb_delete_with_at_most_one_child fuel far successor_right_child successor_parent rb_left
          successor_color

  unfoldable pub delete_outer : ℕ → Buffer → ℕ → ℕ → ℕ → ℕ → ℕ → Option Buffer
  delete_outer fuel m node parent left_child right_child color =
      let unlink : ℕ → Option Buffer = λ child.
        replace_root node child
          (rb_delete_with_at_most_one_child fuel m child parent (rb_which m node parent) color) in
      if left_child == rbnull && right_child == rbnull
      then unlink rbnull
      else if left_child == rbnull
      then unlink right_child
      else if right_child == rbnull
      then unlink left_child
      else delete_inner fuel m node parent left_child right_child color
          (leftmost fuel m right_child)

  -- The node is its own parent afterwards.
  unfoldable pub mark_removed : ℕ → Option Buffer → Option Buffer
  mark_removed node none = none
  mark_removed node (some m) = some (rb_set_parent m node node)

  unfoldable pub rb_delete : ℕ → Buffer → ℕ → Option Buffer
  rb_delete fuel m node = mark_removed node (
      delete_outer fuel m node (rb_parent m node) (rb_child m node rb_left)
        (rb_child m node rb_right) (rb_color m node))
