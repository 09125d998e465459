-- ===== src/Malloc/Block/Four.antt =====
-- The fields of a 4-aligned block: its header is in one piece.
use ics.Common.{
  ℕ, ◌+◌, ◌*◌, ◌/◌, ◌%◌, ◌^◌, ◌≤◌, ◌<◌, ◌≡◌, ◌⊎◌, inl, inr, arith, ◌==◌, if◌then◌else◌,
}
use ics.Bytes.{Buffer, IsBytes}
use ics.Malloc.Block.{write_24_preserve_low_bit, read_4_aligned, write_with_type}
use ics.Malloc.Block.Words.{write_24-IsBytes, read_24_cong, write_24_outside, write_24_low}
use ics.Malloc.Block.Fields.{read_4, KeepsFields}

module _ (m : Buffer) (block v : ℕ) (h : IsBytes m) (lt : v < 2 ^ 23) where
  pub first_4 : KeepsFields (read_4 block) m (write_24_preserve_low_bit m (block + 3) v) block 1
  unfolding read_4_aligned
  first_4 =
      let m' = write_24_preserve_low_bit m (block + 3) v in
      let same : (k : ℕ) → (k < block + 3) ⊎ (block + 6 ≤ k) → m' k ≡ m k =
        λ k o. write_24_outside m (block + 3) v k h lt (ground arith) in
      let g : IsBytes m' = write_24-IsBytes m (block + 3) v h lt in
      let s0 = same block (inl (omega arith)) in
      let s1 = same (block + 1) (inl (omega arith)) in
      let s2 = same (block + 2) (inl (omega arith)) in
      let s6 = same (block + 6) (inr (omega arith)) in
      let s7 = same (block + 6 + 1) (inr (omega arith)) in
      let s8 = same (block + 6 + 2) (inr (omega arith)) in
      let s9 = same (block + 9) (inr (omega arith)) in
      let s10 = same (block + 10) (inr (omega arith)) in
      let s11 = same (block + 11) (inr (omega arith)) in
      let second = read_24_cong m' m (block + 6) g h (rw s6) s7 s8 in
      record {
        bytes = g;
        field_0 = read_24_cong m' m block g h (rw s0) s1 s2;
        flag_0 = rw s0;
        flag_1 = write_24_low m (block + 3) v h lt;
        flag_2 = rw s6;
        others = λ j ne. rw (second, s9, s10, s11) (ground arith);
      }

  pub second_4 : KeepsFields (read_4 block) m (write_24_preserve_low_bit m (block + 6) v) block 2
  unfolding read_4_aligned
  second_4 =
      let m' = write_24_preserve_low_bit m (block + 6) v in
      let same : (k : ℕ) → (k < block + 6) ⊎ (block + 9 ≤ k) → m' k ≡ m k =
        λ k o. write_24_outside m (block + 6) v k h lt (ground arith) in
      let g : IsBytes m' = write_24-IsBytes m (block + 6) v h lt in
      let s0 = same block (inl (omega arith)) in
      let s1 = same (block + 1) (inl (omega arith)) in
      let s2 = same (block + 2) (inl (omega arith)) in
      let s3 = same (block + 3) (inl (omega arith)) in
      let s4 = same (block + 3 + 1) (inl (omega arith)) in
      let s5 = same (block + 3 + 2) (inl (omega arith)) in
      let s9 = same (block + 9) (inr (omega arith)) in
      let s10 = same (block + 10) (inr (omega arith)) in
      let s11 = same (block + 11) (inr (omega arith)) in
      let first = read_24_cong m' m (block + 3) g h (rw s3) s4 s5 in
      record {
        bytes = g;
        field_0 = read_24_cong m' m block g h (rw s0) s1 s2;
        flag_0 = rw s0;
        flag_1 = rw s3;
        flag_2 = write_24_low m (block + 6) v h lt;
        others = λ j ne. rw (first, s9, s10, s11) (ground arith);
      }

  pub typed_byte :
      (k : ℕ)
      → write_with_type m block v k ≡ (
          if k == block + 9
          then v * 2 % 256 / 2 * 2 + v * 2 / 2 ^ 16 % 2
          else if k == block + 10
          then v * 2 / 2 ^ 8 % 256
          else if k == block + 11
          then v * 2 / 2 ^ 16 / 2 * 2 + 1
          else m k)
  unfolding write_with_type
  typed_byte k =
      let small : v * 2 / 2 ^ 16 % 256 ≡ v * 2 / 2 ^ 16 = omega arith in rw small (ground arith)

  pub third_4 : KeepsFields (read_4 block) m (write_with_type m block v) block 3
  unfolding read_4_aligned
  third_4 =
      let m' = write_with_type m block v in
      let g : IsBytes m' = λ k. rw (typed_byte k) (ground (arith, h k)) in
      let same : (k : ℕ) → k < block + 9 → m' k ≡ m k = λ k o. rw (typed_byte k) (ground arith) in
      let s0 = same block (omega arith) in
      let s1 = same (block + 1) (omega arith) in
      let s2 = same (block + 2) (omega arith) in
      let s3 = same (block + 3) (omega arith) in
      let s4 = same (block + 3 + 1) (omega arith) in
      let s5 = same (block + 3 + 2) (omega arith) in
      let s6 = same (block + 6) (omega arith) in
      let s7 = same (block + 6 + 1) (omega arith) in
      let s8 = same (block + 6 + 2) (omega arith) in
      let first = read_24_cong m' m (block + 3) g h (rw s3) s4 s5 in
      let second = read_24_cong m' m (block + 6) g h (rw s6) s7 s8 in
      record {
        bytes = g;
        field_0 = read_24_cong m' m block g h (rw s0) s1 s2;
        flag_0 = rw s0;
        flag_1 = rw s3;
        flag_2 = rw s6;
        others = λ j ne. rw (first, second) (ground arith);
      }

  pub typed_back : read_4_aligned (write_with_type m block v) block 3 ≡ v * 4
  unfolding read_4_aligned
  typed_back =
      let m' = write_with_type m block v in
      let a : m' (block + 9) ≡ v * 2 % 256 / 2 * 2 + v * 2 / 2 ^ 16 % 2 =
        rw (typed_byte (block + 9)) (ground arith) in
      let b : m' (block + 10) ≡ v * 2 / 2 ^ 8 % 256 = rw (typed_byte (block + 10)) (ground arith) in
      let c : m' (block + 11) ≡ v * 2 / 2 ^ 16 / 2 * 2 + 1 =
        rw (typed_byte (block + 11)) (ground arith) in
      rw (a, b, c) (omega arith)
