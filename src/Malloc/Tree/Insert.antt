-- ===== src/Malloc/Tree/Insert.antt =====
-- Rotation and insertion in the tree of malloclab/mm.c. Fuel bounds the loops, and `none` is its end.
use ics.Common.{ℕ, zero, suc, Option, none, some, leb, ◌==◌, if◌then◌else◌}
use ics.Bytes.{Buffer}
use ics.Malloc.Tree.{
  other, same_which, rb_red, rb_black, rbnull, rb_parent, rb_child, rb_color, rb_value,
  rb_set_parent, rb_set_child, rb_set_color, rb_which, rbroot, set_rbroot, Which, rb_left, rb_right,
}

-- The descent of `rb_insert` from `current`: where the new node hangs, and on which side.
unfoldable pub insert_place : ℕ → Buffer → ℕ → ℕ → Option (ℕ × Which)
insert_place zero m value current = none
insert_place (suc fuel) m value current =
    let which_child = if leb value (rb_value m current) then rb_left else rb_right in
    let child = rb_child m current which_child in
    let rest = insert_place fuel m value child in
    if child == rbnull then some (current, which_child) else rest

module _ (lo : ℕ) where
  unfoldable pub rb_rotate : Buffer → ℕ → Which → ℕ → Which → ℕ → Buffer
  rb_rotate m node which old_parent old_parent_which old_grandparent =
      let m1 = rb_set_parent m node old_grandparent in
      let m2 =
        if old_grandparent == rbnull
        then m1
        else rb_set_child m1 old_grandparent old_parent_which node in
      let child = rb_child m2 node (other which) in
      let m3 = if child == rbnull then m2 else rb_set_parent m2 child old_parent in
      let m4 = rb_set_child m3 old_parent which child in
      let m5 = rb_set_parent m4 old_parent node in
      let m6 = rb_set_child m5 node (other which) old_parent in
      if old_grandparent == rbnull then set_rbroot lo m6 node else m6

  -- The branch of `rb_insert_fixup` with a black uncle.
  unfoldable pub fix_rotate : Buffer → ℕ → ℕ → Which → ℕ → Buffer
  fix_rotate m node parent parent_which grandparent =
      let which = rb_which m node parent in
      let straight = same_which which parent_which in
      let m1 = if straight then m else rb_rotate m node which parent parent_which grandparent in
      let tmp = if straight then parent else node in
      let m2 = rb_set_color m1 tmp rb_black in
      let tmp_parent = rb_parent m2 tmp in
      let m3 = rb_set_color m2 tmp_parent rb_red in
      let tmp_grandparent = rb_parent m3 tmp_parent in
      rb_rotate m3 tmp (rb_which m3 tmp tmp_parent) tmp_parent
        (rb_which m3 tmp_parent tmp_grandparent) tmp_grandparent

  unfoldable pub rb_insert_fixup : ℕ → Buffer → ℕ → Option Buffer
  rb_insert_fixup zero m node = none
  rb_insert_fixup (suc fuel) m node =
      let parent = rb_parent m node in
      let grandparent = rb_parent m parent in
      let parent_which = rb_which m parent grandparent in
      let uncle = rb_child m grandparent (other parent_which) in
      let recolored =
        rb_set_color (rb_set_color (rb_set_color m parent rb_black) uncle rb_black) grandparent
          rb_red in
      let rest = rb_insert_fixup fuel recolored grandparent in
      if node == rbroot lo m
      then some (rb_set_color m node rb_black)
      else if rb_color m parent == rb_black
      then some m
      else if rb_color m uncle == rb_red
      then rest
      else some (fix_rotate m node parent parent_which grandparent)

  unfoldable pub insert_at : ℕ → Buffer → ℕ → Option (ℕ × Which) → Option Buffer
  insert_at fuel m node none = none
  insert_at fuel m node (some (current, which_child)) =
      let m1 = rb_set_child m current which_child node in
      let m2 = rb_set_parent m1 node current in
      rb_insert_fixup fuel (rb_set_color m2 node rb_red) node

  unfoldable pub rb_insert : ℕ → Buffer → ℕ → Option Buffer
  rb_insert fuel m node =
      let m1 = rb_set_child m node rb_left rbnull in
      let m2 = rb_set_child m1 node rb_right rbnull in
      if rbroot lo m2 == rbnull
      then some (rb_set_parent (rb_set_color (set_rbroot lo m2 node) node rb_black) node rbnull)
      else insert_at fuel m2 node (insert_place fuel m2 (rb_value m2 node) (rbroot lo m2))
