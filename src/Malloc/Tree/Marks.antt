-- ===== src/Malloc/Tree/Marks.antt =====
-- The writes of a color and of the root of the tree in malloclab/mm.c.
use ics.Common.{ℕ, ◌+◌, ◌%◌, ◌^◌, ◌≤◌, ◌<◌, ◌≡◌, ap, ◌∙◌, ◌⊎◌, inl, inr, arith}
use ics.Bytes.{Buffer, get_le, put_le, Fits, IsBytes}
use ics.Bytes.Laws.{put_le_outside, get_le-put_le, put_le-IsBytes}
use ics.Malloc.Tree.{
  child_index, rbnull, rb_parent, rb_child, rb_color, rb_value, rb_set_color_unchecked,
  rb_set_color, rbroot, set_rbroot,
}
use ics.Malloc.Tree.Links.{put_color, put_root, node_cases, Links}
use ics.Malloc.Tree.Nodes.{
  Address, header_kept, length_kept, write-NodesOk, root_kept, node_small, not_null, Holds,
}
use ics.Malloc.Block.ColorBit.{bit_outside, bit_header}
use ics.Malloc.Block.Frame.{read_inside, SameHeader}
use ics.Malloc.Block.{
  get_block_length, read_block_header_integer, read_block_header_bit, write_block_header_bit,
}

module _ (N : ℕ → Type 0) (V : ℕ → ℕ) (lo : ℕ) (m : Buffer) (l : Links)
    (hold : Holds N V lo m l) where
  pub color-Holds : (n v : ℕ) → N n → v < 2 → Holds N V lo (rb_set_color m n v) (put_color l n v)
  unfolding rb_set_color rb_set_color_unchecked rb_parent rb_child rb_color rb_value
  color-Holds n v at lt =
      let (ge, small, mul, fits) = hold.nodes.place n at in
      let (h', fields, bit, len, free) = bit_header m n v hold.nodes.bytes fits lt in
      let m' = write_block_header_bit m n 2 v in
      let same : (k : ℕ) → (k < n) ⊎ (n + get_block_length m n ≤ k) → m' k ≡ m k =
        λ k out. bit_outside m n v hold.nodes.bytes fits lt k (ground arith) in
      let other_node = header_kept N V lo m l hold m' n at h' same len free in
      let integers : (j k : ℕ)
          → N k
          → read_block_header_integer m' k j ≡ read_block_header_integer m k j =
        λ j k at'. elim (node_cases k n) [
          | inl (e, t) ↦ rw e (fields j)
          | inr (e, t) ↦ (other_node k at' e).fields_same j
        ] in
      rw (not_null N V lo m l hold n v at) (record {
        nodes = write-NodesOk N V lo m l hold m' n at h' same len free;
        parent_is = λ k at'. integers 1 k at' ∙ hold.parent_is k at';
        child_is = λ w k at'. integers (child_index w) k at' ∙ hold.child_is w k at';
        color_is = λ k at'. elim (node_cases k n) [
          | inl (e, t) ↦ rw (t, e) bit
          | inr (e, t) ↦ rw t ((other_node k at' e).bits_equal 2 ∙ hold.color_is k at')
        ];
        value_is = λ k at'.
            length_kept N V lo m l hold m' n at h' same len free k at' ∙ hold.value_is k at';
        root_is = root_kept N V lo m l hold m' n at h' same len free ∙ hold.root_is;
      })

  pub root-Holds : (v : ℕ) → Address N V lo v → Holds N V lo (set_rbroot lo m v) (put_root l v)
  unfolding set_rbroot rbroot rb_parent rb_child rb_color rb_value read_block_header_bit
  root-Holds v to =
      let (mul, small) = node_small N V lo m v hold.nodes to in
      let m' = put_le 8 m 0 (lo + v) in
      let low = hold.nodes.low_heap in
      let far : (k : ℕ) → 8 ≤ k → m' k ≡ m k = λ k ge. put_le_outside 8 m 0 (lo + v) k (inr ge) in
      let h' : IsBytes m' = put_le-IsBytes 8 m 0 (lo + v) hold.nodes.bytes in
      let header : (k : ℕ) → N k → SameHeader m m' k = λ k at.
        let (ge, lt, mul', fits) = hold.nodes.place k at in
        read_inside m m' k hold.nodes.bytes h' fits (λ j a b. far j (omega arith)) in
      record {
        nodes = record {
          bytes = h';
          place = λ k at.
              let (a, b, c, fits) = hold.nodes.place k at in
              (a, b, c, rw ((header k at).length_same, (header k at).free_same) fits);
          apart = λ k j at at' ne.
              rw ((header k at).length_same, (header j at').length_same)
                (hold.nodes.apart k j at at' ne);
          null_black = ap (λ k. k % 2) (far (rbnull + 6) (omega arith)) ∙ hold.nodes.null_black;
          low_heap = low;
        };
        parent_is = λ k at. (header k at).fields_same 1 ∙ hold.parent_is k at;
        child_is = λ w k at. (header k at).fields_same (child_index w) ∙ hold.child_is w k at;
        color_is = λ k at. (header k at).bits_equal 2 ∙ hold.color_is k at;
        value_is = λ k at. (header k at).length_same ∙ hold.value_is k at;
        root_is =
            let back : get_le 8 m' 0 ≡ lo + v =
              get_le-put_le 8 m 0 (lo + v) (whole (lo + v) (omega arith)) in
            rw back (omega arith);
      }
    where
      whole : (x : ℕ) → x < 2 ^ 64 → Fits 8 x
      whole x lt = omega arith
