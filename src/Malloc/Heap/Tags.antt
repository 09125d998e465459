-- ===== src/Malloc/Heap/Tags.antt =====
-- The boundary tags: what `set_block_is_free` leaves in a block and in the next one.
use ics.Common.{
  ℕ, ◌+◌, ◌-◌, ◌*◌, ◌/◌, ◌%◌, ◌^◌, ◌≤◌, ◌<◌, ◌≡◌, sym, ap, ◌∙◌, ◌≢◌, ◌⊎◌, inl, Bool, true, false,
  none, some, arith, ◌==◌, if◌then◌else◌,
}
use ics.Bytes.{Buffer, update, copy, IsBytes}
use ics.Bytes.Laws.{copy-IsBytes}
use ics.Malloc.Block.{
  read_24_transformed, write_24_preserve_low_bit, write_bit, get_block_length, get_block_is_free,
  transformed, set_block_length_footer, set_block_is_free_flag_only, read_block_header_bit,
  write_block_header_bit,
}
use ics.Malloc.Block.Words.{write_24-IsBytes, read_24_cong, read_24-write_24, write_24_outside}
use ics.Malloc.Tree.{rbnull}
use ics.Malloc.Heap.{
  get_previous_is_free, bit_of, set_previous_is_free, get_previous_block_if_free,
  get_logical_next_block, move_second_part, set_block_is_free, lo,
}

-- A block of whole words behind `rbnull`, long enough for its header and footer, that fits its field.
pub record BlockFits (m : Buffer) (block : ℕ) : Type 0 where
  pub behind_null : 16 ≤ block
  pub enough : 16 ≤ get_block_length m block
  pub fits : get_block_length m block < 2 ^ 25

module _ (m : Buffer) (block : ℕ) (v : Bool) (fit : BlockFits m block) where
  -- The second part moves within the bytes behind the first five.
  pub move_keeps :
      (k : ℕ)
      → (k < block + 5) ⊎ (block + get_block_length m block ≤ k)
      → move_second_part m block v k ≡ m k
  unfolding move_second_part copy
  move_keeps k out = let enough = fit.enough in ground arith

  move-IsBytes : IsBytes m → IsBytes (move_second_part m block v)
  unfolding move_second_part
  move-IsBytes h = copy-IsBytes _ m _ m _ h h

  -- With the flag of the block and the bit at `q`, outside the block, set.
  abbrev pub flagged : ℕ → Buffer
  flagged q =
      write_bit (set_block_is_free_flag_only (move_second_part m block v) block v) q (bit_of v)

  module _ (h : IsBytes m) (q : ℕ)
      (out : (q < block) ⊎ (block + get_block_length m block ≤ q)) where
    pub flagged_byte :
        (k : ℕ)
        → flagged q k ≡ (
            if k == q
            then m k / 2 * 2 + bit_of v
            else if k == block
            then m k / 2 * 2 + bit_of v
            else move_second_part m block v k)
    unfolding write_bit set_block_is_free_flag_only
    flagged_byte k =
        let enough = fit.enough in
        ground (arith, move_keeps block (inl (omega arith)), move_keeps q (ground arith))

    flagged-IsBytes : IsBytes (flagged q)
    flagged-IsBytes k = rw (flagged_byte k) (ground (arith, h k, move-IsBytes h k))

    flagged_keeps : (k : ℕ) → block < k → k < block + 5 → flagged q k ≡ m k
    flagged_keeps k lo hi =
        let enough = fit.enough in rw (flagged_byte k) (ground (arith, move_keeps k (inl hi)))

    flagged_length : get_block_length (flagged q) block ≡ get_block_length m block
    unfolding get_block_length
    flagged_length =
        let enough = fit.enough in
        let first : flagged q block / 2 ≡ m block / 2 = rw (flagged_byte block) (ground arith) in
        read_24_cong (flagged q) m block flagged-IsBytes h first
          (flagged_keeps (block + 1) (omega arith) (omega arith))
          (flagged_keeps (block + 2) (omega arith) (omega arith))

    flagged_flag : flagged q block % 2 ≡ bit_of v
    flagged_flag = let enough = fit.enough in rw (flagged_byte block) (ground arith)

    flagged_bit : flagged q q % 2 ≡ bit_of v
    flagged_bit = rw (flagged_byte q) (ground arith)

-- What the tags say after the block's flag is set to `v`: the block keeps its length, its own bit on
-- the previous block stays, the next block knows, and it finds the block if that is free.
pub record Tagged (m m' : Buffer) (size block : ℕ) (v : Bool) : Type 0 where
  pub length_kept : get_block_length m' block ≡ get_block_length m block
  pub flag_set : get_block_is_free m' block ≡ v
  pub previous_kept : get_previous_is_free m' block ≡ get_previous_is_free m block
  pub next_knows : get_previous_is_free m' (get_logical_next_block m size block) ≡ v
  pub next_finds :
      get_logical_next_block m size block ≢ rbnull
      → get_previous_block_if_free m' (block + get_block_length m block)
        ≡ (if v then some block else none)

-- The place of the next block's bit.
pub next_outside :
    (m : Buffer) (size block : ℕ)
    → BlockFits m block
    → (get_logical_next_block m size block + 3 < block)
      ⊎ (block + get_block_length m block ≤ get_logical_next_block m size block + 3)
unfolding get_logical_next_block
next_outside m size block fit = let far = fit.behind_null in ground arith

next_behind :
    (m : Buffer) (size block : ℕ)
    → get_logical_next_block m size block ≢ rbnull
    → get_logical_next_block m size block ≡ block + get_block_length m block
unfolding get_logical_next_block
next_behind m size block ne = ground arith

length_same_bytes :
    (block : ℕ) (a b : Buffer)
    → IsBytes a
    → IsBytes b
    → b block / 2 ≡ a block / 2
    → b (block + 1) ≡ a (block + 1)
    → b (block + 2) ≡ a (block + 2)
    → get_block_length b block ≡ get_block_length a block
unfolding get_block_length
length_same_bytes block a b ha hb e e1 e2 = read_24_cong b a block hb ha e e1 e2

pub next_same :
    (m : Buffer) (size block : ℕ) (v : Bool)
    → BlockFits m block
    → IsBytes m
    → get_logical_next_block
        (set_block_is_free_flag_only (move_second_part m block v) block v)
        size
        block
      ≡ get_logical_next_block m size block
unfolding get_logical_next_block set_block_is_free_flag_only write_bit
next_same m size block v fit h =
    let m1 =
      update (move_second_part m block v) block
        (move_second_part m block v block / 2 * 2 + bit_of v) in
    let kept : (k : ℕ) → k < block + 5 → move_second_part m block v k ≡ m k =
      λ k lt. move_keeps m block v fit k (inl lt) in
    let first : m1 block / 2 ≡ m block / 2 = ground (arith, kept block (omega arith)) in
    let bytes : IsBytes m1 =
      λ k. ground (arith, move-IsBytes m block v fit h k, move-IsBytes m block v fit h block) in
    let e : get_block_length m1 block ≡ get_block_length m block =
      length_same_bytes block m m1 h bytes first (ground (arith, kept (block + 1) (omega arith)))
        (ground (arith, kept (block + 2) (omega arith))) in
    rw e

module _ (m : Buffer) (size block : ℕ) (fit : BlockFits m block) (h : IsBytes m)
    (whole : get_block_length m block % 4 ≡ 0) where
  abbrev next : ℕ
  next = get_logical_next_block m size block

  abbrev out_of_block : (next + 3 < block) ⊎ (block + get_block_length m block ≤ next + 3)
  out_of_block = next_outside m size block fit

  allocated_tags : Tagged m (flagged m block false fit (next + 3)) size block false
  unfolding get_block_is_free get_previous_is_free read_block_header_bit get_previous_block_if_free
  allocated_tags =
      let m2 = flagged m block false fit (next + 3) in
      let told : (m2 (next + 3) % 2 == 1) ≡ false =
        ap (λ k. k == 1) (flagged_bit m block false fit h (next + 3) out_of_block) in
      record {
        length_kept = flagged_length m block false fit h (next + 3) out_of_block;
        flag_set = ap (λ k. k == 1) (flagged_flag m block false fit h (next + 3) out_of_block);
        previous_kept =
            ap (λ k. k % 2 == 1)
              (flagged_keeps m block false fit h (next + 3) out_of_block (block + 3) (omega arith)
                (omega arith));
        next_knows = told;
        next_finds = λ ne.
            let e = next_behind m size block ne in
            let told' : (m2 (block + get_block_length m block + 3) % 2 == 1) ≡ false =
              ap (λ k. m2 (k + 3) % 2 == 1) (sym e) ∙ told in
            rw told';
      }

  freed_tags :
      Tagged m
        (set_block_length_footer
          (flagged m block true fit (next + 3))
          block
          (get_block_length m block))
        size
        block
        true
  unfolding set_block_length_footer get_block_is_free get_previous_is_free read_block_header_bit
      get_previous_block_if_free
  freed_tags =
      let m2 = flagged m block true fit (next + 3) in
      let b2 = flagged-IsBytes m block true fit h (next + 3) out_of_block in
      let len = get_block_length m block in
      let fits = fit.fits in
      let enough = fit.enough in
      let far = fit.behind_null in
      let p = block + len - 3 in
      let w = transformed len in
      let small : w < 2 ^ 23 = omega arith in
      let m3 = write_24_preserve_low_bit m2 p w in
      let same : (k : ℕ) → (k < p) ⊎ (p + 3 ≤ k) → m3 k ≡ m2 k =
        λ k o. write_24_outside m2 p w k b2 small o in
      let s0 = same block (inl (omega arith)) in
      let length_same : get_block_length m3 block ≡ get_block_length m2 block =
        length_same_bytes block m2 m3 b2 (write_24-IsBytes m2 p w b2 small) (ap (λ k. k / 2) s0)
          (same (block + 1) (inl (omega arith))) (same (block + 2) (inl (omega arith))) in
      let at_next : m3 (next + 3) ≡ m2 (next + 3) = same (next + 3) (aside out_of_block) in
      let told : (m3 (next + 3) % 2 == 1) ≡ true =
        ap (λ k. k % 2 == 1) at_next
        ∙ ap (λ k. k == 1) (flagged_bit m block true fit h (next + 3) out_of_block) in
      let footer : read_24_transformed m3 p ≡ len = read_24-write_24 m2 p w b2 small ∙ multiple in
      record {
        length_kept = length_same ∙ flagged_length m block true fit h (next + 3) out_of_block;
        flag_set =
            ap (λ k. k % 2 == 1) s0
            ∙ ap (λ k. k == 1) (flagged_flag m block true fit h (next + 3) out_of_block);
        previous_kept =
            ap (λ k. k % 2 == 1) (same (block + 3) (inl (omega arith)))
            ∙ ap (λ k. k % 2 == 1)
                (flagged_keeps m block true fit h (next + 3) out_of_block (block + 3) (omega arith)
                  (omega arith));
        next_knows = told;
        next_finds = λ ne. finds m3 (next_behind m size block ne) told footer;
      }
    where
      aside :
          (next + 3 < block) ⊎ (block + get_block_length m block ≤ next + 3)
          → (next + 3 < block + get_block_length m block - 3)
            ⊎ (block + get_block_length m block - 3 + 3 ≤ next + 3)
      aside o = let enough = fit.enough in ground arith

      multiple : transformed (get_block_length m block) * 4 ≡ get_block_length m block
      multiple = let fits = fit.fits in omega arith

      finds :
          (b : Buffer)
          → next ≡ block + get_block_length m block
          → (b (next + 3) % 2 == 1) ≡ true
          → read_24_transformed b (block + get_block_length m block - 3) ≡ get_block_length m block
          → get_previous_block_if_free b (block + get_block_length m block) ≡ some block
      finds b e told footer =
          let told' : (b (block + get_block_length m block + 3) % 2 == 1) ≡ true =
            ap (λ k. b (k + 3) % 2 == 1) (sym e) ∙ told in
          let back : block + get_block_length m block - get_block_length m block ≡ block =
            omega arith in
          rw (told', footer, back)

  -- After `set_block_is_free` of a block whose length is a multiple of 4 from 16 to below 2^25, in a
  -- memory of bytes: the block has its length and the new flag, its bit on the previous block is
  -- kept, the next block, or `rbnull` behind the last, holds the new flag, and the next block finds
  -- this one as its free neighbour exactly where it is free.
  pub set_block_is_free-Tagged :
      (v : Bool) → Tagged m (set_block_is_free m size block v) size block v
  unfolding set_block_is_free set_previous_is_free write_block_header_bit
  set_block_is_free-Tagged false = rw (next_same m size block false fit h) allocated_tags
  set_block_is_free-Tagged true = rw (next_same m size block true fit h) freed_tags
