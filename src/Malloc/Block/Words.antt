-- ===== src/Malloc/Block/Words.antt =====
-- The 24-bit words of a block header: what a write of one leaves to be read.
use ics.Common.{ℕ, ◌+◌, ◌*◌, ◌/◌, ◌%◌, ◌^◌, ◌≤◌, ◌<◌, ◌≡◌, ◌⊎◌, arith, ◌==◌, if◌then◌else◌}
use ics.Bytes.{Buffer, get_le, IsBytes}
use ics.Malloc.Block.{read_24, read_24_transformed, or_bits, write_24_preserve_low_bit, join_24}

or_bits_zero : (y : ℕ) → y < 256 → or_bits 8 0 y ≡ y
unfolding or_bits
or_bits_zero y lt = ground arith

pub read_24_bytes :
    (m : Buffer) (p : ℕ)
    → IsBytes m
    → read_24_transformed m p ≡ join_24 (m p) (m (p + 1)) (m (p + 2))
unfolding read_24_transformed read_24 get_le
read_24_bytes m p h =
    let e : p + 1 + 1 ≡ p + 2 = omega arith in rw e (omega (arith, h p, h (p + 1), h (p + 2)))

pub write_24_byte :
    (m : Buffer) (p v k : ℕ)
    → IsBytes m
    → v < 2 ^ 23
    → write_24_preserve_low_bit m p v k ≡ (
        if k == p
        then 2 * v % 256 + m p % 2
        else if k == p + 1
        then 2 * v / 2 ^ 8 % 256
        else if k == p + 2
        then 2 * v / 2 ^ 16
        else m k)
unfolding write_24_preserve_low_bit
write_24_byte m p v k h lt =
    let top : 2 * v / 2 ^ 24 % 256 ≡ 0 = omega arith in
    let kept = or_bits_zero (m (p + 3)) (h (p + 3)) in rw (top, kept) (ground arith)

pub write_24-IsBytes :
    (m : Buffer) (p v : ℕ) → IsBytes m → v < 2 ^ 23 → IsBytes (write_24_preserve_low_bit m p v)
write_24-IsBytes m p v h lt = λ k. rw (write_24_byte m p v k h lt) (ground (arith, h k, h p))

-- Two bytes that agree but for the lowest bit, and two that agree, are read as one number.
pub read_24_cong :
    (m n : Buffer) (p : ℕ)
    → IsBytes m
    → IsBytes n
    → m p / 2 ≡ n p / 2
    → m (p + 1) ≡ n (p + 1)
    → m (p + 2) ≡ n (p + 2)
    → read_24_transformed m p ≡ read_24_transformed n p
read_24_cong m n p h g e e1 e2 =
    rw (read_24_bytes m p h, read_24_bytes n p g, e1, e2) (omega (arith, e))

pub read_24-write_24 :
    (m : Buffer) (p v : ℕ)
    → IsBytes m
    → v < 2 ^ 23
    → read_24_transformed (write_24_preserve_low_bit m p v) p ≡ v * 4
read_24-write_24 m p v h lt =
    let a : write_24_preserve_low_bit m p v p ≡ 2 * v % 256 + m p % 2 =
      rw (write_24_byte m p v p h lt) (ground arith) in
    let b : write_24_preserve_low_bit m p v (p + 1) ≡ 2 * v / 2 ^ 8 % 256 =
      rw (write_24_byte m p v (p + 1) h lt) (ground arith) in
    let c : write_24_preserve_low_bit m p v (p + 2) ≡ 2 * v / 2 ^ 16 =
      rw (write_24_byte m p v (p + 2) h lt) (ground arith) in
    rw (read_24_bytes _ p (write_24-IsBytes m p v h lt), a, b, c) (omega arith)

-- A byte outside the three is as before, and so is the lowest bit of the first of them.
pub write_24_outside :
    (m : Buffer) (p v k : ℕ)
    → IsBytes m
    → v < 2 ^ 23
    → (k < p) ⊎ (p + 3 ≤ k)
    → write_24_preserve_low_bit m p v k ≡ m k
write_24_outside m p v k h lt out = rw (write_24_byte m p v k h lt) (ground arith)

pub write_24_low :
    (m : Buffer) (p v : ℕ)
    → IsBytes m
    → v < 2 ^ 23
    → write_24_preserve_low_bit m p v p % 2 ≡ m p % 2
write_24_low m p v h lt = rw (write_24_byte m p v p h lt) (ground arith)
