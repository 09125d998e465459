-- ===== src/Malloc/Heap/Init.antt =====
-- What `init_block` leaves.
use ics.Common.{
  ℕ, ◌+◌, ◌-◌, ◌*◌, ◌/◌, ◌%◌, ◌^◌, ◌≤◌, ◌<◌, ◌≡◌, refl, ap, ◌∙◌, ◌≢◌, ◌⊎◌, inl, inr, Bool, true,
  false, ◌&&◌, arith, ◌==◌, if◌then◌else◌,
}
use ics.Bytes.{Buffer, IsBytes}
use ics.Malloc.Block.{
  read_24_transformed, write_24_preserve_low_bit, write_bit, get_block_length, get_block_is_free,
  transformed, set_block_length, set_block_is_free_flag_only, init_block_header_type_bit,
  get_block_payload, read_8_aligned, read_4_aligned, read_block_header_integer,
  read_block_header_bit, write_block_header_bit,
}
use ics.Malloc.Block.Words.{
  write_24-IsBytes, read_24_cong, read_24-write_24, write_24_outside, write_24_low,
}
use ics.Malloc.Tree.{rbnull, rb_parent, rb_init_node}
use ics.Malloc.Block.Length.{set_block_length-HasLength, get_payload_block-init, HasLength}
use ics.Malloc.Heap.{
  get_previous_is_free, bit_of, set_previous_is_free, is_last_block, get_logical_next_block,
  previous_after, init_block, PreviousAction,
}
use ics.Malloc.Heap.Writes.{
  write_bit-IsBytes, init_type-IsBytes, init_node_bytes, set_length-IsBytes, set_length_keeps,
}
use ics.Malloc.Heap.Payload.{FromPayload, payload_cong}

-- Where the block behind a block of this length holds its bit on the previous block.
abbrev pub behind : ℕ → ℕ → ℕ → ℕ
behind size block value = if is_last_block size block value then rbnull else block + value

-- A block of this length, free or not, with its tags.
pub record Initialized (m' : Buffer) (size block value : ℕ) (is_free previous set_next : Bool)
    : Type 0 where
  pub has_length : get_block_length m' block ≡ value
  pub has_flag : get_block_is_free m' block ≡ is_free
  pub has_previous : get_previous_is_free m' block ≡ previous
  pub has_footer : is_free ≡ true → read_24_transformed m' (block + value - 3) ≡ value
  pub next_knows : set_next ≡ true → get_previous_is_free m' (behind size block value) ≡ is_free
  pub from_payload : FromPayload m' block
  pub own_parent : rb_parent m' block ≡ block

module _ (m : Buffer) (size block value : ℕ) (is_free : Bool) (action : PreviousAction)
    (set_next : Bool) (h : IsBytes m) (far : 16 ≤ block) (at : block % 4 ≡ 0)
    (near : block < 2 ^ 25) (enough : 16 ≤ value) (whole : value % 4 ≡ 0)
    (lt : value < 2 ^ 25) where
  abbrev q : ℕ
  q = behind size block value + 3

  abbrev m1 : Buffer
  m1 = set_block_is_free_flag_only (init_block_header_type_bit m block) block is_free

  abbrev m2 : Buffer
  m2 = set_block_length m1 block value

  abbrev m3 : Buffer
  m3 = write_bit m2 (block + 3) (bit_of (previous_after action (get_previous_is_free m block)))

  abbrev m4 : Buffer
  m4 = if set_next then write_bit m3 q (bit_of is_free) else m3

  abbrev m5 : Buffer
  m5 = write_24_preserve_low_bit m4 (block + 3) (transformed block)

  q_outside : (q < block) ⊎ (block + value ≤ q)
  q_outside = ground arith

  b1 : IsBytes m1
  unfolding set_block_is_free_flag_only
  b1 = write_bit-IsBytes _ block is_free (init_type-IsBytes m block h)

  b2 : IsBytes m2
  b2 = set_length-IsBytes m1 block value b1 lt enough

  b3 : IsBytes m3
  b3 = write_bit-IsBytes m2 (block + 3) _ b2

  b4 : IsBytes m4
  b4 = pick set_next
    where
      pick : (t : Bool) → IsBytes (if t then write_bit m3 q (bit_of is_free) else m3)
      pick true = write_bit-IsBytes m3 q is_free b3
      pick false = b3

  small : transformed block < 2 ^ 23
  small = omega arith

  b5 : IsBytes m5
  b5 = write_24-IsBytes m4 (block + 3) (transformed block) b4 small

  -- The last steps write the bit at `q` and the bytes from 3 to 5.
  m4_byte : (k : ℕ) → m4 k ≡ (if set_next && (k == q) then m2 k / 2 * 2 + bit_of is_free else m3 k)
  unfolding write_bit
  m4_byte k = let out = q_outside in ground arith

  m3_keeps : (k : ℕ) → k ≢ block + 3 → m3 k ≡ m2 k
  unfolding write_bit
  m3_keeps k ne = ground arith

  m5_keeps : (k : ℕ) → (k < block + 3) ⊎ (block + 6 ≤ k) → k ≢ q → m5 k ≡ m2 k
  m5_keeps k o ne =
      write_24_outside m4 (block + 3) (transformed block) k b4 small (ground arith)
      ∙ m4_byte k
      ∙ ground (arith, m3_keeps k)

  lengths : HasLength m1 m2 block value
  lengths = set_block_length-HasLength m1 block value b1 whole lt (omega arith)

  length_at :
      (n : Buffer)
      → IsBytes n
      → n block ≡ m2 block
      → n (block + 1) ≡ m2 (block + 1)
      → n (block + 2) ≡ m2 (block + 2)
      → get_block_length n block ≡ value
  unfolding get_block_length
  length_at n b e e1 e2 =
      read_24_cong n m2 block b b2 (ap (λ k. k / 2) e) e1 e2 ∙ lengths.length_stored

  length_3 : get_block_length m3 block ≡ value
  length_3 =
      length_at m3 b3 (m3_keeps block (λ e. omega arith)) (m3_keeps (block + 1) (λ e. omega arith))
        (m3_keeps (block + 2) (λ e. omega arith))

  m4_of_code :
      (if set_next
        then set_previous_is_free m3 (get_logical_next_block m3 size block) is_free
        else m3)
      ≡ m4
  unfolding get_logical_next_block set_previous_is_free write_block_header_bit
  m4_of_code = rw length_3

  m5_of_code : init_block m size block value is_free action set_next ≡ m5
  unfolding init_block set_previous_is_free write_block_header_bit
  m5_of_code = ap (λ (n : Buffer). rb_init_node n block) m4_of_code ∙ init_node_bytes m4 block far

  flag_1 : m1 block % 2 ≡ bit_of is_free
  unfolding set_block_is_free_flag_only write_bit
  flag_1 = ground arith

  keeps_5 : (k : ℕ) → block ≤ k → k < block + 3 → m5 k ≡ m2 k
  keeps_5 k ge hi = let out = q_outside in m5_keeps k (inl hi) (λ e. grind arith)

  flag_5 : get_block_is_free m5 block ≡ is_free
  unfolding get_block_is_free
  flag_5 =
      ap (λ k. k % 2 == 1) (keeps_5 block (omega arith) (omega arith))
      ∙ flag_kept
      ∙ ap (λ k. k == 1) flag_1
      ∙ bit_of_back is_free
    where
      flag_kept : (m2 block % 2 == 1) ≡ (m1 block % 2 == 1)
      flag_kept = lengths.free_kept

      bit_of_back : (v : Bool) → (bit_of v == 1) ≡ v
      bit_of_back true = refl
      bit_of_back false = refl

  bit_back : (v : Bool) → (bit_of v == 1) ≡ v
  bit_back true = refl
  bit_back false = refl

  previous_5 : get_previous_is_free m5 block ≡ previous_after action (get_previous_is_free m block)
  unfolding get_previous_is_free read_block_header_bit write_bit
  previous_5 =
      let p : Bool = previous_after action (get_previous_is_free m block) in
      let out = q_outside in
      let low : m5 (block + 3) % 2 ≡ m4 (block + 3) % 2 =
        write_24_low m4 (block + 3) (transformed block) b4 small in
      let same : m4 (block + 3) ≡ m3 (block + 3) = m4_byte (block + 3) ∙ ground arith in
      let bit : m3 (block + 3) % 2 ≡ bit_of p = ground arith in
      ap (λ k. k == 1) (low ∙ ap (λ k. k % 2) same ∙ bit) ∙ bit_back p

  footer_5 : is_free ≡ true → read_24_transformed m5 (block + value - 3) ≡ value
  footer_5 free =
      let out = q_outside in
      let keep : (k : ℕ) → block + 6 ≤ k → k < block + value → m5 k ≡ m2 k =
        λ k ge hi. m5_keeps k (inr ge) (λ e. grind arith) in
      let at_1 : get_block_is_free m1 block ≡ true = flag_of_1 ∙ free in
      read_24_cong m5 m2 (block + value - 3) b5 b2
        (ap (λ k. k / 2) (keep (block + value - 3) (omega arith) (omega arith)))
        (keep (block + value - 3 + 1) (omega arith) (omega arith))
        (keep (block + value - 3 + 2) (omega arith) (omega arith))
      ∙ lengths.footer_stored at_1
    where
      flag_of_1 : get_block_is_free m1 block ≡ is_free
      flag_of_1 = unfold get_block_is_free in (ap (λ k. k == 1) flag_1 ∙ bit_back is_free)

  next_5 : set_next ≡ true → get_previous_is_free m5 (behind size block value) ≡ is_free
  unfolding get_previous_is_free read_block_header_bit
  next_5 on =
      let out = q_outside in
      let same : m5 q ≡ m4 q =
        write_24_outside m4 (block + 3) (transformed block) q b4 small (grind arith) in
      let bit : m4 q % 2 ≡ bit_of is_free = ap (λ k. k % 2) (m4_byte q) ∙ ground arith in
      ap (λ k. k == 1) (ap (λ k. k % 2) same ∙ bit) ∙ bit_back is_free

  flag_aside : (k : ℕ) → block < k → m1 k ≡ init_block_header_type_bit m block k
  unfolding set_block_is_free_flag_only write_bit
  flag_aside k gt = ground arith

  type_5 : FromPayload m5 block
  type_5 =
      payload_cong (init_block_header_type_bit m block) m5 block type_byte
        (get_payload_block-init m block at).0
    where
      place : (block + 6 ≤ get_block_payload block - 1) × (get_block_payload block - 1 < block + 12)
      place = unfold get_block_payload in (ground arith, ground arith)

      type_byte :
          m5 (get_block_payload block - 1)
          ≡ init_block_header_type_bit m block (get_block_payload block - 1)
      type_byte =
          let out = q_outside in
          let (ge, hi) = place in
          m5_keeps (get_block_payload block - 1) (inr ge) (λ e. grind arith)
          ∙ set_length_keeps m1 block value b1 lt enough (get_block_payload block - 1) (omega arith)
              (omega arith)
          ∙ flag_aside (get_block_payload block - 1) (omega arith)

  parent_5 : rb_parent m5 block ≡ block
  unfolding rb_parent read_block_header_integer read_8_aligned read_4_aligned
  parent_5 =
      let back : read_24_transformed m5 (block + 3) ≡ block =
        read_24-write_24 m4 (block + 3) (transformed block) b4 small ∙ omega arith in
      ground arith

  -- In a memory of bytes, `init_block` of a block at a multiple of 4 behind `rbnull`, with a length
  -- that is a multiple of 4 from 16 to below 2^25, sets the length, the flag and, as it is told, the
  -- bit on the previous block; it writes the footer of a free block, tells the next block where it is
  -- asked to, and leaves a block that is found from its payload and is its own parent.
  pub init_block-Initialized :
      Initialized
        (init_block m size block value is_free action set_next)
        size
        block
        value
        is_free
        (previous_after action (get_previous_is_free m block))
        set_next
  init_block-Initialized = rw m5_of_code (record {
    has_length =
        length_at m5 b5 (keeps_5 block (omega arith) (omega arith))
          (keeps_5 (block + 1) (omega arith) (omega arith))
          (keeps_5 (block + 2) (omega arith) (omega arith));
    has_flag = flag_5;
    has_previous = previous_5;
    has_footer = footer_5;
    next_knows = next_5;
    from_payload = type_5;
    own_parent = parent_5;
  })
