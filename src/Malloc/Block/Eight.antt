-- ===== src/Malloc/Block/Eight.antt =====
-- The fields of an 8-aligned block: its second part lies behind the payload.
use ics.Common.{
  ℕ, ◌+◌, ◌*◌, ◌/◌, ◌%◌, ◌^◌, ◌≤◌, ◌<◌, ◌≡◌, ◌⊎◌, inl, inr, arith, ◌==◌, if◌then◌else◌,
}
use ics.Bytes.{Buffer, IsBytes}
use ics.Malloc.Block.{write_24_preserve_low_bit, write_bit, read_8_aligned, write_split}
use ics.Malloc.Block.Words.{write_24-IsBytes, read_24_cong, write_24_outside, write_24_low}
use ics.Malloc.Block.Fields.{read_8, KeepsFields}

module _ (m : Buffer) (block second_part v : ℕ) (h : IsBytes m) (lt : v < 2 ^ 23)
    (le : block ≤ second_part) where
  pub first_8 :
      KeepsFields (read_8 block second_part) m (write_24_preserve_low_bit m (block + 3) v) block 1
  unfolding read_8_aligned
  first_8 =
      let m' = write_24_preserve_low_bit m (block + 3) v in
      let same : (k : ℕ) → (k < block + 3) ⊎ (block + 6 ≤ k) → m' k ≡ m k =
        λ k o. write_24_outside m (block + 3) v k h lt (ground arith) in
      let g : IsBytes m' = write_24-IsBytes m (block + 3) v h lt in
      let s0 = same block (inl (omega arith)) in
      let s1 = same (block + 1) (inl (omega arith)) in
      let s2 = same (block + 2) (inl (omega arith)) in
      let s6 = same (block + 6) (inr (omega arith)) in
      let s7 = same (block + 7) (inr (omega arith)) in
      let t8 = same (second_part + 8) (inr (omega arith)) in
      let t9 = same (second_part + 9) (inr (omega arith)) in
      let t10 = same (second_part + 9 + 1) (inr (omega arith)) in
      let t11 = same (second_part + 9 + 2) (inr (omega arith)) in
      let third = read_24_cong m' m (second_part + 9) g h (rw t9) t10 t11 in
      record {
        bytes = g;
        field_0 = read_24_cong m' m block g h (rw s0) s1 s2;
        flag_0 = rw s0;
        flag_1 = write_24_low m (block + 3) v h lt;
        flag_2 = rw s6;
        others = λ j ne. rw (third, s6, s7, t8, t9) (ground arith);
      }

  pub third_8 :
      KeepsFields
        (read_8 block second_part)
        m
        (write_24_preserve_low_bit m (second_part + 9) v)
        block
        3
  unfolding read_8_aligned
  third_8 =
      let p = second_part + 9 in
      let m' = write_24_preserve_low_bit m p v in
      let same : (k : ℕ) → k < p → m' k ≡ m k = λ k o. write_24_outside m p v k h lt (inl o) in
      let g : IsBytes m' = write_24-IsBytes m p v h lt in
      let s0 = same block (omega arith) in
      let s1 = same (block + 1) (omega arith) in
      let s2 = same (block + 2) (omega arith) in
      let s3 = same (block + 3) (omega arith) in
      let s4 = same (block + 3 + 1) (omega arith) in
      let s5 = same (block + 3 + 2) (omega arith) in
      let s6 = same (block + 6) (omega arith) in
      let s7 = same (block + 7) (omega arith) in
      let t8 = same (second_part + 8) (omega arith) in
      let low = write_24_low m p v h lt in
      let first = read_24_cong m' m (block + 3) g h (rw s3) s4 s5 in
      record {
        bytes = g;
        field_0 = read_24_cong m' m block g h (rw s0) s1 s2;
        flag_0 = rw s0;
        flag_1 = rw s3;
        flag_2 = rw s6;
        others = λ j ne. rw (first, s6, s7, t8, low) (ground arith);
      }

  pub split_byte :
      (k : ℕ)
      → write_split m block second_part v k ≡ (
          if k == block + 6
          then (v * 2 + m (block + 6) % 2) % 256
          else if k == block + 7
          then (v * 2 + m (block + 6) % 2) / 2 ^ 8 % 256 / 2 * 2
          else if k == second_part + 8
          then (v * 2 + m (block + 6) % 2) / 2 ^ 16
          else if k == second_part + 9
          then m k / 2 * 2 + (v * 2 + m (block + 6) % 2) / 2 ^ 8 % 256 % 2
          else m k)
  unfolding write_split write_bit
  split_byte k =
      let small : (v * 2 + m (block + 6) % 2) / 2 ^ 16 % 256
          ≡ (v * 2 + m (block + 6) % 2) / 2 ^ 16 =
        omega arith in
      rw small (ground arith)

  pub split_8 : KeepsFields (read_8 block second_part) m (write_split m block second_part v) block 2
  unfolding read_8_aligned
  split_8 =
      let m' = write_split m block second_part v in
      let g : IsBytes m' = λ k. rw (split_byte k) (ground (arith, h k, h (block + 6))) in
      let same : (k : ℕ) → k < block + 6 → m' k ≡ m k = λ k o. rw (split_byte k) (ground arith) in
      let behind : (k : ℕ) → second_part + 9 < k → m' k ≡ m k =
        λ k o. rw (split_byte k) (ground arith) in
      let s0 = same block (omega arith) in
      let s1 = same (block + 1) (omega arith) in
      let s2 = same (block + 2) (omega arith) in
      let s3 = same (block + 3) (omega arith) in
      let s4 = same (block + 3 + 1) (omega arith) in
      let s5 = same (block + 3 + 2) (omega arith) in
      let low : m' (block + 6) % 2 ≡ m (block + 6) % 2 =
        rw (split_byte (block + 6)) (ground arith) in
      let t9 : m' (second_part + 9) / 2 ≡ m (second_part + 9) / 2 =
        rw (split_byte (second_part + 9)) (ground arith) in
      let first = read_24_cong m' m (block + 3) g h (rw s3) s4 s5 in
      let third =
        read_24_cong m' m (second_part + 9) g h t9 (behind _ (omega arith))
          (behind _ (omega arith)) in
      record {
        bytes = g;
        field_0 = read_24_cong m' m block g h (rw s0) s1 s2;
        flag_0 = rw s0;
        flag_1 = rw s3;
        flag_2 = low;
        others = λ j ne. rw (first, third) (ground arith);
      }

  pub split_back : read_8_aligned (write_split m block second_part v) block second_part 2 ≡ v * 4
  unfolding read_8_aligned
  split_back =
      let m' = write_split m block second_part v in
      let word = v * 2 + m (block + 6) % 2 in
      let a : m' (block + 6) ≡ word % 256 = rw (split_byte (block + 6)) (ground arith) in
      let b : m' (block + 7) ≡ word / 2 ^ 8 % 256 / 2 * 2 =
        rw (split_byte (block + 7)) (ground arith) in
      let c : m' (second_part + 8) ≡ word / 2 ^ 16 =
        rw (split_byte (second_part + 8)) (ground arith) in
      let t : m' (second_part + 9) % 2 ≡ word / 2 ^ 8 % 256 % 2 =
        rw (split_byte (second_part + 9)) (ground arith) in
      rw (a, b, c, t) (omega arith)
