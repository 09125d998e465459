-- ===== src/Fs/File/Assign.antt =====
-- The block ids that `fs_write` fills in for the blocks that a file does not have yet.
use ics.Common.{
  ℕ, zero, suc, ◌-◌, ◌*◌, ◌^◌, ◌≤◌, ◌<◌, ◌≡◌, refl, sym, ◌∙◌, ◌≢◌, ◌⊎◌, inl, inr, true, List, [],
  ◌∷◌, arith, ◌==◌, if◌then◌else◌, ==_iff, Bool-cases, All,
}
use ics.Bytes.{Buffer}
use ics.Bytes.Laws.{get_le-put_le, get_le-put_le_other}
use ics.Fs.Disk.{pointer_block_item_count}
use ics.Fs.Inode.{id_at, put_id}
use ics.Fs.File.{in_pointer_block, count_missing, nth_id, Piece}

pub id_at-put_id :
    (ptr : Buffer) (i j v : ℕ)
    → v < 2 ^ 16
    → id_at (put_id ptr i v) j ≡ (if i == j then v else id_at ptr j)
id_at-put_id ptr i j v lt = elim (Bool-cases (i == j)) [
  | inl e ↦
      let same : i ≡ j = (==_iff i j).0 e in
      rw (e, ← same) (get_le-put_le 2 ptr (2 * i) v (omega arith))
  | inr e ↦
      let ne : i ≢ j = λ q. cc ((==_iff i j).1 q) in
      rw e (get_le-put_le_other 2 2 ptr (2 * i) (2 * j) v (grind arith))
]

-- The pointer block after one round with `needed` new ids left, and after all of them.
abbrev pub left_after : Buffer → ℕ → ℕ → ℕ
left_after ptr needed i = if id_at ptr i == 0 then needed - 1 else needed

abbrev pub assign_one : Buffer → List ℕ → ℕ → ℕ → Buffer
assign_one ptr ids needed i =
    if id_at ptr i == 0 then put_id ptr i (nth_id ids (left_after ptr needed i)) else ptr

unfoldable pub assign : Buffer → List ℕ → ℕ → List Piece → Buffer
assign ptr ids needed [] = ptr
assign ptr ids needed (p ∷ ps) =
    assign (assign_one ptr ids needed p.index) ids (left_after ptr needed p.index) ps

-- The first `n` new ids are block ids, all different, and none is in the pointer block, whose ids
-- are different too.
pub record Assignable (ptr : Buffer) (ids : List ℕ) (n : ℕ) : Type 0 where
  pub ids_fit : (k : ℕ) → k < n → nth_id ids k < 2 ^ 16
  pub ids_not_zero : (k : ℕ) → k < n → nth_id ids k ≢ 0
  pub ids_apart : (k l : ℕ) → k < n → l < n → nth_id ids k ≡ nth_id ids l → k ≡ l
  pub ids_new : (k i : ℕ) → k < n → i < pointer_block_item_count → nth_id ids k ≢ id_at ptr i
  pub blocks_apart :
      (i j : ℕ)
      → i < pointer_block_item_count
      → j < pointer_block_item_count
      → id_at ptr i ≢ 0
      → id_at ptr i ≡ id_at ptr j
      → i ≡ j

module _ (ptr : Buffer) (ids : List ℕ) (n i : ℕ) (a : Assignable ptr ids (suc n))
    (lt : i < pointer_block_item_count) where
  abbrev next : Buffer
  next = put_id ptr i (nth_id ids n)

  next_id : (j : ℕ) → id_at next j ≡ (if i == j then nth_id ids n else id_at ptr j)
  next_id j = id_at-put_id ptr i j (nth_id ids n) (a.ids_fit n (omega arith))

  Assignable-put : Assignable next ids n
  Assignable-put = record {
    ids_fit = λ k h. a.ids_fit k (omega arith);
    ids_not_zero = λ k h. a.ids_not_zero k (omega arith);
    ids_apart = λ k l h g. a.ids_apart k l (omega arith) (omega arith);
    ids_new = λ k j h g e.
        let apart = a.ids_apart k n (omega arith) (omega arith) in
        let new = a.ids_new k j (omega arith) g in ground (arith, next_id j, apart, new);
    blocks_apart = λ j k hj hk ne e. ground (
      arith,
      next_id j,
      next_id k,
      a.ids_new n j (omega arith) hj,
      a.ids_new n k (omega arith) hk,
      a.blocks_apart j k hj hk,
    );
  }

count_missing_mono :
    (ptr ptr' : Buffer) (ps : List Piece)
    → ((j : ℕ) → id_at ptr j ≢ 0 → id_at ptr' j ≢ 0)
    → count_missing ptr' ps ≤ count_missing ptr ps
unfolding count_missing
count_missing_mono ptr ptr' [] h = omega arith
count_missing_mono ptr ptr' (p ∷ ps) h = ground (arith, count_missing_mono ptr ptr' ps h, h p.index)

-- What `assign` does to the ids: old ones stay, the pieces have their blocks, each id is an old one or
-- one of the first `n` new ones, and the ids are different.
pub record Assigned (ptr ptr' : Buffer) (ids : List ℕ) (n : ℕ) (ps : List Piece) : Type 0 where
  pub old_kept : (j : ℕ) → id_at ptr j ≢ 0 → id_at ptr' j ≡ id_at ptr j
  pub filled : All (λ p. id_at ptr' p.index ≢ 0) ps
  pub from_ids :
      (j : ℕ) → (id_at ptr' j ≡ id_at ptr j) ⊎ ((k : ℕ) × (k < n) × (id_at ptr' j ≡ nth_id ids k))
  pub all_apart :
      (i j : ℕ)
      → i < pointer_block_item_count
      → j < pointer_block_item_count
      → id_at ptr' i ≢ 0
      → id_at ptr' i ≡ id_at ptr' j
      → i ≡ j

after_missing :
    (ptr ptr' : Buffer) (ids : List ℕ) (n : ℕ) (p : Piece) (ps : List Piece)
    → Assignable ptr ids (suc n)
    → id_at ptr p.index ≡ 0
    → Assigned (put_id ptr p.index (nth_id ids n)) ptr' ids n ps
    → Assigned ptr ptr' ids (suc n) (p ∷ ps)
after_missing ptr ptr' ids n p ps a zero_before r =
    let after : (j : ℕ)
        → id_at (put_id ptr p.index (nth_id ids n)) j
          ≡ (if p.index == j then nth_id ids n else id_at ptr j) =
      λ j. id_at-put_id ptr p.index j (nth_id ids n) (a.ids_fit n (omega arith)) in
    let not_zero = a.ids_not_zero n (omega arith) in
    record {
      old_kept = λ j ne. ground (arith, after j, r.old_kept j);
      filled = (ground (arith, after p.index, r.old_kept p.index), r.filled);
      from_ids = λ j. pick j (after j) (r.from_ids j);
      all_apart = r.all_apart;
    }
  where
    pick :
        (j : ℕ)
        → id_at (put_id ptr p.index (nth_id ids n)) j
          ≡ (if p.index == j then nth_id ids n else id_at ptr j)
        → (id_at ptr' j ≡ id_at (put_id ptr p.index (nth_id ids n)) j)
          ⊎ ((k : ℕ) × (k < n) × (id_at ptr' j ≡ nth_id ids k))
        → (id_at ptr' j ≡ id_at ptr j) ⊎ ((k : ℕ) × (k < suc n) × (id_at ptr' j ≡ nth_id ids k))
    pick j e (inr (k, lt, q)) = inr (k, omega arith, q)
    pick j e (inl q) = elim (Bool-cases (p.index == j)) [
      | inl t ↦ inr (n, omega arith, q ∙ e ∙ rw t)
      | inr t ↦ inl (q ∙ e ∙ rw t)
    ]

after_there :
    (ptr ptr' : Buffer) (ids : List ℕ) (n : ℕ) (p : Piece) (ps : List Piece)
    → id_at ptr p.index ≢ 0
    → Assigned ptr ptr' ids n ps
    → Assigned ptr ptr' ids n (p ∷ ps)
after_there ptr ptr' ids n p ps ne r = record {
  old_kept = r.old_kept;
  filled = (λ z. ne (sym (r.old_kept p.index ne) ∙ z), r.filled);
  from_ids = r.from_ids;
  all_apart = r.all_apart;
}

-- After a round, the rest of the pieces still has enough new ids, and the piece has its block.
pub one_round :
    (ptr : Buffer) (ids : List ℕ) (n : ℕ) (p : Piece) (ps : List Piece)
    → Assignable ptr ids n
    → count_missing ptr (p ∷ ps) ≤ n
    → in_pointer_block (p ∷ ps) ≡ true
    → Assignable (assign_one ptr ids n p.index) ids (left_after ptr n p.index)
      × (count_missing (assign_one ptr ids n p.index) ps ≤ left_after ptr n p.index)
      × (in_pointer_block ps ≡ true)
      × (id_at (assign_one ptr ids n p.index) p.index ≢ 0)
unfolding count_missing in_pointer_block
one_round ptr ids zero p ps a enough inside = elim (Bool-cases (id_at ptr p.index == 0)) [
  | inl missing ↦ absurd (ground arith)
  | inr there ↦
      rw there (a, ground arith, ground arith, λ z. cc ((==_iff (id_at ptr p.index) 0).1 z))
]
one_round ptr ids (suc n) p ps a enough inside = elim (Bool-cases (id_at ptr p.index == 0)) [
  | inl missing ↦
      let lt : p.index < pointer_block_item_count = ground arith in
      let next = put_id ptr p.index (nth_id ids n) in
      let after : (j : ℕ) → id_at next j ≡ (if p.index == j then nth_id ids n else id_at ptr j) =
        λ j. id_at-put_id ptr p.index j (nth_id ids n) (a.ids_fit n (omega arith)) in
      let fewer : count_missing next ps ≤ count_missing ptr ps =
        count_missing_mono ptr next ps (λ j ne. ground (arith, after j)) in
      let e : suc n - 1 ≡ n = omega arith in
      rw (missing, e)
        (
          Assignable-put ptr ids n p.index a lt,
          ground arith,
          ground arith,
          ground (arith, after p.index, a.ids_not_zero n (omega arith)),
        )
  | inr there ↦
      rw there (a, ground arith, ground arith, λ z. cc ((==_iff (id_at ptr p.index) 0).1 z))
]

pub assign-Assigned :
    (ptr : Buffer) (ids : List ℕ) (n : ℕ) (ps : List Piece)
    → Assignable ptr ids n
    → count_missing ptr ps ≤ n
    → in_pointer_block ps ≡ true
    → Assigned ptr (assign ptr ids n ps) ids n ps
unfolding assign count_missing in_pointer_block
assign-Assigned ptr ids n [] a enough inside = record {
  old_kept = λ j ne. refl;
  filled = tt;
  from_ids = λ j. inl refl;
  all_apart = a.blocks_apart;
}
assign-Assigned ptr ids zero (p ∷ ps) a enough inside =
    let (a', enough', inside', known) = one_round ptr ids zero p ps a enough inside in
    let r =
      assign-Assigned (assign_one ptr ids 0 p.index) ids (left_after ptr 0 p.index) ps a' enough'
        inside' in
    elim (Bool-cases (id_at ptr p.index == 0)) [
      | inl missing ↦ absurd (ground arith)
      | inr there ↦ rw there (
          after_there ptr _ ids 0 p ps (λ z. cc ((==_iff (id_at ptr p.index) 0).1 z))
            (rw there at r))
    ]
assign-Assigned ptr ids (suc n) (p ∷ ps) a enough inside =
    let (a', enough', inside', known) = one_round ptr ids (suc n) p ps a enough inside in
    let r =
      assign-Assigned (assign_one ptr ids (suc n) p.index) ids (left_after ptr (suc n) p.index) ps
        a' enough' inside' in
    elim (Bool-cases (id_at ptr p.index == 0)) [
      | inl missing ↦
          let z : id_at ptr p.index ≡ 0 = (==_iff (id_at ptr p.index) 0).0 missing in
          let e : suc n - 1 ≡ n = omega arith in
          rw (missing, e) (after_missing ptr _ ids n p ps a z (rw (missing, e) at r))
      | inr there ↦ rw there (
          after_there ptr _ ids (suc n) p ps (λ z. cc ((==_iff (id_at ptr p.index) 0).1 z))
            (rw there at r))
    ]
