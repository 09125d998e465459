-- ===== src/Malloc/Tree/Nodes.antt =====
-- The links of the tree in malloclab/mm.c as functions of the node, and the memory that holds them in
-- the headers of the blocks.
use ics.Common.{
  ℕ, ◌+◌, ◌-◌, ◌%◌, ◌^◌, ◌≤◌, ◌<◌, ◌≡◌, refl, sym, ap, ◌∙◌, ◌≢◌, ◌⊎◌, inl, inr, false, arith, ◌==◌,
  if◌then◌else◌, ==_iff, Bool-cases,
}
use ics.Bytes.{Buffer, IsBytes}
use ics.Bytes.Laws.{get_le_cong}
use ics.Malloc.Block.{
  get_block_length, get_block_is_free, read_block_header_integer, write_block_header_integer,
  read_block_header_bit,
}
use ics.Malloc.Block.RoundTrip.{
  HeaderFits, index_of, write_block_header_integer-Stores, Stores, Field, parent_field, left_field,
  right_field,
}
use ics.Malloc.Block.Frame.{write_inside, read_inside, SameHeader}
use ics.Malloc.Tree.{
  child_index, rb_black, rbnull, rb_parent, rb_child, rb_color, rb_value, rb_set_parent_unchecked,
  rb_set_parent, rb_set_child_unchecked, rb_set_child, rbroot, Which, rb_left, rb_right,
}
use ics.Malloc.Tree.Links.{put_parent, put_child, node_cases, Links}

-- The nodes are the numbers with `N`; `V` is their length.
module _ (N : ℕ → Type 0) (V : ℕ → ℕ) (lo : ℕ) where
  -- A node, or the null node.
  abbrev pub Address : ℕ → Type 0
  Address v = (v ≡ rbnull) ⊎ N v

  -- The nodes are blocks with whole headers, apart from each other; the null node is black.
  pub record NodesOk (m : Buffer) : Type 0 where
    pub bytes : IsBytes m
    pub place : (n : ℕ) → N n → (16 ≤ n) × (n < 2 ^ 25) × (n % 4 ≡ 0) × HeaderFits m n
    pub apart :
        (n k : ℕ)
        → N n
        → N k
        → n ≢ k
        → (n + get_block_length m n ≤ k) ⊎ (k + get_block_length m k ≤ n)
    pub null_black : rb_color m rbnull ≡ rb_black
    pub low_heap : lo < 2 ^ 63

  -- The memory holds the links.
  pub record Holds (m : Buffer) (l : Links) : Type 0 where
    pub nodes : NodesOk m
    pub parent_is : (k : ℕ) → N k → rb_parent m k ≡ l.parent k
    pub child_is : (w : Which) (k : ℕ) → N k → rb_child m k w ≡ l.child w k
    pub color_is : (k : ℕ) → N k → rb_color m k ≡ l.color k
    pub value_is : (k : ℕ) → N k → rb_value m k ≡ V k
    pub root_is : rbroot lo m ≡ l.root

  module _ (m : Buffer) (l : Links) (hold : Holds m l) where
    -- A write within the block of a node that keeps its length and its flags.
    module _ (m' : Buffer) (n : ℕ) (at : N n) (h' : IsBytes m')
        (same : (k : ℕ) → (k < n) ⊎ (n + get_block_length m n ≤ k) → m' k ≡ m k)
        (len : get_block_length m' n ≡ get_block_length m n)
        (free : get_block_is_free m' n ≡ get_block_is_free m n) where
      -- Another node.
      pub header_kept : (k : ℕ) → N k → k ≢ n → SameHeader m m' k
      header_kept k at' ne =
          let ok = hold.nodes in
          let (a, b, c, fits) = ok.place k at' in
          read_inside m m' k ok.bytes h' fits
            (λ j ge lt. let o = ok.apart n k at at' (λ e. ne (sym e)) in same j (grind arith))

      pub length_kept : (k : ℕ) → N k → get_block_length m' k ≡ get_block_length m k
      length_kept k at' = elim (Bool-cases (k == n)) [
        | inl t ↦ let e = (==_iff k n).0 t in rw e len
        | inr t ↦ (header_kept k at' (λ e. cc ((==_iff k n).1 e))).length_same
      ]

      pub free_kept : (k : ℕ) → N k → get_block_is_free m' k ≡ get_block_is_free m k
      free_kept k at' = elim (Bool-cases (k == n)) [
        | inl t ↦ let e = (==_iff k n).0 t in rw e free
        | inr t ↦ (header_kept k at' (λ e. cc ((==_iff k n).1 e))).free_same
      ]

      low_kept : (k : ℕ) → k < 16 → m' k ≡ m k
      low_kept k lt = let (a, b, c, fits) = hold.nodes.place n at in same k (inl (omega arith))

      pub write-NodesOk : NodesOk m'
      unfolding rb_color read_block_header_bit
      write-NodesOk = record {
        bytes = h';
        place = λ k at'.
            let (a, b, c, fits) = hold.nodes.place k at' in
            (a, b, c, rw (length_kept k at', free_kept k at') fits);
        apart = λ k j at' at'' ne.
            rw (length_kept k at', length_kept j at'') (hold.nodes.apart k j at' at'' ne);
        null_black = ap (λ k. k % 2) (low_kept (rbnull + 6) (omega arith)) ∙ hold.nodes.null_black;
        low_heap = hold.nodes.low_heap;
      }

      pub root_kept : rbroot lo m' ≡ rbroot lo m
      unfolding rbroot
      root_kept = ap (λ k. k - lo) (get_le_cong 8 m' m 0 (λ k g lt. low_kept k (omega arith)))

  pub node_small : (m : Buffer) (v : ℕ) → NodesOk m → Address v → (v % 4 ≡ 0) × (v < 2 ^ 25)
  node_small m v ok (inl e) = ground arith
  node_small m v ok (inr n) = let (a, b, c, d) = ok.place v n in (c, b)

  module _ (m : Buffer) (l : Links) (hold : Holds m l) (n v : ℕ) (at : N n) where
    pub not_null : (n == rbnull) ≡ false
    not_null = let (a, b, c, fits) = hold.nodes.place n at in ground arith

    field_write :
        (f : Field)
        → Address v
        → Stores m (write_block_header_integer m n (index_of f) v) n (index_of f) v
    field_write f to =
        let (a, b, c, fits) = hold.nodes.place n at in
        let (d, e) = node_small m v hold.nodes to in
        write_block_header_integer-Stores m n v hold.nodes.bytes d e f fits

    abbrev written : Field → Buffer
    written f = write_block_header_integer m n (index_of f) v

    written_outside :
        (f : Field)
        → Address v
        → (k : ℕ) → (k < n) ⊎ (n + get_block_length m n ≤ k)
        → written f k ≡ m k
    written_outside f to k out =
        let (a, b, c, fits) = hold.nodes.place n at in
        let (d, e) = node_small m v hold.nodes to in
        write_inside m n hold.nodes.bytes fits f v k e out

    -- What is read of the nodes after a field of one of them is written.
    read_field :
        (f : Field)
        → Address v
        → (j k : ℕ) → N k
        → read_block_header_integer (written f) k j ≡ (
            if k == n
            then if j == index_of f then v else read_block_header_integer m k j
            else read_block_header_integer m k j)
    read_field f to j k at' =
        let st = field_write f to in
        elim (node_cases k n) [
          | inl (e, t) ↦
              rw (t, e)
                (elim (node_cases j (index_of f)) [
                  | inl (q, u) ↦ rw (u, q) st.stored
                  | inr (q, u) ↦ rw u (st.fields_kept j q)
                ])
          | inr (e, t) ↦ rw t (
              (header_kept m l hold (written f) n at st.bytes_kept (written_outside f to)
                  st.length_kept st.free_kept k at' e).fields_same
                j)
        ]

    rest_kept :
        (f : Field)
        → Address v
        → NodesOk (written f)
          × ((k : ℕ) → N k → rb_color (written f) k ≡ l.color k)
          × ((k : ℕ) → N k → rb_value (written f) k ≡ V k)
          × (rbroot lo (written f) ≡ l.root)
    unfolding rb_color rb_value
    rest_kept f to =
        let st = field_write f to in
        let out = written_outside f to in
        (
          write-NodesOk m l hold (written f) n at st.bytes_kept out st.length_kept st.free_kept,
          (λ k at'. elim (node_cases k n) [
            | inl (e, t) ↦ rw e (st.bits_kept 2) ∙ hold.color_is n at ∙ ap l.color (sym e)
            | inr (e, t) ↦
                (header_kept m l hold (written f) n at st.bytes_kept out st.length_kept st.free_kept
                    k at' e).bits_equal
                  2
                ∙ hold.color_is k at'
          ]),
          (λ k at'.
              length_kept m l hold (written f) n at st.bytes_kept out st.length_kept st.free_kept k
                at'
              ∙ hold.value_is k at'),
          root_kept m l hold (written f) n at st.bytes_kept out st.length_kept st.free_kept
              ∙ hold.root_is,
        )

    pub parent-Holds : Address v → Holds (rb_set_parent m n v) (put_parent l n v)
    unfolding rb_set_parent rb_set_parent_unchecked rb_parent rb_child
    parent-Holds to =
        let (ok, colors, values, root) = rest_kept parent_field to in
        rw not_null (record {
          nodes = ok;
          parent_is =
              λ k at'. read_field parent_field to 1 k at' ∙ same_else k (hold.parent_is k at');
          child_is = λ w k at'. child_back w k at';
          color_is = colors;
          value_is = values;
          root_is = root;
        })
      where
        same_else :
            (k : ℕ)
            → read_block_header_integer m k 1 ≡ l.parent k
            → (if k == n then v else read_block_header_integer m k 1)
              ≡ (if k == n then v else l.parent k)
        same_else k e = rw e refl

        child_back :
            (w : Which) (k : ℕ)
            → N k
            → read_block_header_integer (write_block_header_integer m n 1 v) k (child_index w)
              ≡ l.child w k
        child_back rb_left k at' =
            read_field parent_field to 2 k at' ∙ ground (arith, hold.child_is rb_left k at')
        child_back rb_right k at' =
            read_field parent_field to 3 k at' ∙ ground (arith, hold.child_is rb_right k at')

    pub child-Holds : (w : Which) → Address v → Holds (rb_set_child m n w v) (put_child l n w v)
    unfolding rb_set_child rb_set_child_unchecked rb_parent rb_child
    child-Holds rb_left to =
        let (ok, colors, values, root) = rest_kept left_field to in
        rw not_null (record {
          nodes = ok;
          parent_is =
              λ k at'. read_field left_field to 1 k at' ∙ ground (arith, hold.parent_is k at');
          child_is = back;
          color_is = colors;
          value_is = values;
          root_is = root;
        })
      where
        back :
            (w : Which) (k : ℕ)
            → N k
            → read_block_header_integer (write_block_header_integer m n 2 v) k (child_index w)
              ≡ (put_child l n rb_left v).child w k
        back rb_left k at' =
            read_field left_field to 2 k at' ∙ ground (arith, hold.child_is rb_left k at')
        back rb_right k at' =
            read_field left_field to 3 k at' ∙ ground (arith, hold.child_is rb_right k at')
    child-Holds rb_right to =
        let (ok, colors, values, root) = rest_kept right_field to in
        rw not_null (record {
          nodes = ok;
          parent_is =
              λ k at'. read_field right_field to 1 k at' ∙ ground (arith, hold.parent_is k at');
          child_is = back;
          color_is = colors;
          value_is = values;
          root_is = root;
        })
      where
        back :
            (w : Which) (k : ℕ)
            → N k
            → read_block_header_integer (write_block_header_integer m n 3 v) k (child_index w)
              ≡ (put_child l n rb_right v).child w k
        back rb_left k at' =
            read_field right_field to 2 k at' ∙ ground (arith, hold.child_is rb_left k at')
        back rb_right k at' =
            read_field right_field to 3 k at' ∙ ground (arith, hold.child_is rb_right k at')
