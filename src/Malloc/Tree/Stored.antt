-- ===== src/Malloc/Tree/Stored.antt =====
-- The writes of malloclab/mm.c to a node that may be the null node, and `rb_rotate`, in memory.
use ics.Common.{
  ℕ, ◌<◌, ◌≡◌, refl, sym, ◌∙◌, ◌≢◌, inl, inr, false, arith, ◌==◌, if◌then◌else◌, ==_iff, Bool-cases,
}
use ics.Bytes.{Buffer}
use ics.Malloc.Tree.{
  other, rbnull, rb_child, rb_set_parent, rb_set_child, rb_set_color, set_rbroot, Which,
}
use ics.Malloc.Tree.Insert.{rb_rotate}
use ics.Malloc.Tree.Links.{put_parent, put_child, put_color, put_root, Links}
use ics.Malloc.Tree.Nodes.{Address, parent-Holds, child-Holds, Holds}
use ics.Malloc.Tree.Marks.{color-Holds, root-Holds}
use ics.Malloc.Tree.Rotate.{rotate_links}

module _ (N : ℕ → Type 0) (V : ℕ → ℕ) (lo : ℕ) where
  -- Memory holds any links that agree on the nodes.
  Holds-agree :
      (m : Buffer) (l l' : Links)
      → Holds N V lo m l
      → ((k : ℕ) → N k → l'.parent k ≡ l.parent k)
      → ((w : Which) (k : ℕ) → N k → l'.child w k ≡ l.child w k)
      → ((k : ℕ) → N k → l'.color k ≡ l.color k)
      → l'.root ≡ l.root
      → Holds N V lo m l'
  Holds-agree m l l' hold p c o r = record {
    nodes = hold.nodes;
    parent_is = λ k at. hold.parent_is k at ∙ sym (p k at);
    child_is = λ w k at. hold.child_is w k at ∙ sym (c w k at);
    color_is = λ k at. hold.color_is k at ∙ sym (o k at);
    value_is = hold.value_is;
    root_is = hold.root_is ∙ sym r;
  }

  module _ (m : Buffer) (l : Links) (hold : Holds N V lo m l) where
    pub real_node : (k : ℕ) → N k → k ≢ rbnull
    real_node k at e = let (a, b, c, fits) = hold.nodes.place k at in omega arith

    pub set_parent-Holds :
        (n v : ℕ)
        → Address N V lo n
        → Address N V lo v
        → Holds N V lo (rb_set_parent m n v) (put_parent l n v)
    unfolding rb_set_parent
    set_parent-Holds n v (inr at) to = parent-Holds N V lo m l hold n v at to
    set_parent-Holds n v (inl e) to = rw ((==_iff n rbnull).1 e) (
        Holds-agree m l (put_parent l n v) hold (λ k at. let r = real_node k at in ground arith)
          (λ w k at. refl) (λ k at. refl) refl)

    pub set_child-Holds :
        (n : ℕ) (w : Which) (v : ℕ)
        → Address N V lo n
        → Address N V lo v
        → Holds N V lo (rb_set_child m n w v) (put_child l n w v)
    unfolding rb_set_child
    set_child-Holds n w v (inr at) to = child-Holds N V lo m l hold n v at w to
    set_child-Holds n w v (inl e) to = rw ((==_iff n rbnull).1 e) (
        Holds-agree m l (put_child l n w v) hold (λ k at. refl)
          (λ w' k at. let r = real_node k at in ground arith) (λ k at. refl) refl)

    pub set_color-Holds :
        (n v : ℕ) → Address N V lo n → v < 2 → Holds N V lo (rb_set_color m n v) (put_color l n v)
    unfolding rb_set_color
    set_color-Holds n v (inr at) lt = color-Holds N V lo m l hold n v at lt
    set_color-Holds n v (inl e) lt = rw ((==_iff n rbnull).1 e) (
        Holds-agree m l (put_color l n v) hold (λ k at. refl) (λ w k at. refl)
          (λ k at. let r = real_node k at in ground arith) refl)

  skip_parent :
      (m : Buffer) (n v : ℕ)
      → (if n == rbnull then m else rb_set_parent m n v) ≡ rb_set_parent m n v
  unfolding rb_set_parent
  skip_parent m n v = elim (Bool-cases (n == rbnull)) [ inl t ↦ rw t refl | inr t ↦ rw t refl ]

  skip_child :
      (m : Buffer) (n : ℕ) (w : Which) (v : ℕ)
      → (if n == rbnull then m else rb_set_child m n w v) ≡ rb_set_child m n w v
  unfolding rb_set_child
  skip_child m n w v = elim (Bool-cases (n == rbnull)) [ inl t ↦ rw t refl | inr t ↦ rw t refl ]

  pub nodes_differ : (n k : ℕ) → n ≢ k → (n == k) ≡ false
  nodes_differ n k ne = ground arith

  root_if :
      (m : Buffer) (l : Links)
      → Holds N V lo m l
      → (n g : ℕ) → N n
      → Holds N V lo
          (if g == rbnull then set_rbroot lo m n else m)
          (put_root l (if g == rbnull then n else l.root))
  root_if m l h n g at = elim (Bool-cases (g == rbnull)) [
    | inl t ↦ rw t (root-Holds N V lo m l h n (inr at))
    | inr t ↦ rw t h
  ]

  -- From the write of the child that changes sides.
  turn-Holds :
      (m : Buffer) (l : Links)
      → Holds N V lo m l
      → (n : ℕ) (w : Which) (p g : ℕ) → N n
      → N p
      → Address N V lo (l.child (other w) n)
      → Holds N V lo
          (let child = rb_child m n (other w) in
            let m3 = if child == rbnull then m else rb_set_parent m child p in
            let m4 = rb_set_child m3 p w child in
            let m5 = rb_set_parent m4 p n in
            let m6 = rb_set_child m5 n (other w) p in
            if g == rbnull then set_rbroot lo m6 n else m6)
          (let c = l.child (other w) n in
            let l3 = put_parent l c p in
            let l4 = put_child l3 p w c in
            let l5 = put_parent l4 p n in
            let l6 = put_child l5 n (other w) p in put_root l6 (if g == rbnull then n else l6.root))
  turn-Holds m l h n w p g at_n at_p at_c =
      let c = l.child (other w) n in
      let h3 : Holds N V lo (if c == rbnull then m else rb_set_parent m c p) (put_parent l c p) =
        rw (skip_parent m c p) (set_parent-Holds m l h c p at_c (inr at_p)) in
      let h4 = set_child-Holds _ _ h3 p w c (inr at_p) at_c in
      let h5 = set_parent-Holds _ _ h4 p n (inr at_p) (inr at_n) in
      let h6 = set_child-Holds _ _ h5 n (other w) p (inr at_n) (inr at_p) in
      rw (h.child_is (other w) n at_n) (root_if _ _ h6 n g at_n)

  -- `rb_rotate` leaves memory that holds the rotated links.
  pub rb_rotate-Holds :
      (m : Buffer) (l : Links)
      → Holds N V lo m l
      → (n : ℕ) (w : Which) (p : ℕ) (pw : Which) (g : ℕ) → N n
      → N p
      → Address N V lo g
      → n ≢ g
      → Address N V lo (l.child (other w) n)
      → Holds N V lo (rb_rotate lo m n w p pw g) (rotate_links l n w p pw g)
  unfolding rb_rotate rotate_links
  rb_rotate-Holds m l h0 n w p pw g at_n at_p at_g ne at_c =
      let h1 = set_parent-Holds m l h0 n g (inr at_n) at_g in
      let h2 : Holds N V lo
          (if g == rbnull then rb_set_parent m n g else rb_set_child (rb_set_parent m n g) g pw n)
          (put_child (put_parent l n g) g pw n) =
        rw (skip_child (rb_set_parent m n g) g pw n)
          (set_child-Holds _ _ h1 g pw n at_g (inr at_n)) in
      let at' : Address N V lo ((put_child (put_parent l n g) g pw n).child (other w) n) =
        rw (nodes_differ n g ne) at_c in
      turn-Holds _ _ h2 n w p g at_n at_p at'
