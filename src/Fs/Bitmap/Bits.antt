-- ===== src/Fs/Bitmap/Bits.antt =====
-- Single bits of a word.
use ics.Common.{ℕ, zero, suc, ◌+◌, ◌*◌, ◌/◌, ◌%◌, ◌<◌, ◌≡◌, refl, ap, ◌≢◌, Bool, true, false, arith}
use ics.Bytes.{Fits}
use ics.Fs.Bitmap.{bit, bit_value, set_bit}

pub bit-set_bit_self : (w k : ℕ) (v : Bool) → bit (set_bit w k v) k ≡ v
unfolding bit set_bit
bit-set_bit_self w zero true = ground arith
bit-set_bit_self w zero false = ground arith
bit-set_bit_self w (suc k) v =
    let half : (set_bit (w / 2) k v * 2 + w % 2) / 2 ≡ set_bit (w / 2) k v = omega arith in
    rw half (bit-set_bit_self (w / 2) k v)

pub bit-set_bit_other : (w k j : ℕ) (v : Bool) → k ≢ j → bit (set_bit w k v) j ≡ bit w j
unfolding bit set_bit
bit-set_bit_other w zero zero v h = absurd (h refl)
bit-set_bit_other w zero (suc j) v h =
    let half : (w / 2 * 2 + bit_value v) / 2 ≡ w / 2 = ground arith in rw half
bit-set_bit_other w (suc k) zero v h =
    let low : (set_bit (w / 2) k v * 2 + w % 2) % 2 ≡ w % 2 = omega arith in rw low
bit-set_bit_other w (suc k) (suc j) v h =
    let half : (set_bit (w / 2) k v * 2 + w % 2) / 2 ≡ set_bit (w / 2) k v = omega arith in
    rw half (bit-set_bit_other (w / 2) k j v (λ e. h (ap suc e)))

-- 2 to the power `n`, by its digits.
unfoldable pub pow2 : ℕ → ℕ
pow2 zero = 1
pow2 (suc n) = 2 * pow2 n

-- A word stays a word of as many bits.
pub set_bit-lt : (n w k : ℕ) (v : Bool) → w < pow2 n → k < n → set_bit w k v < pow2 n
unfolding set_bit pow2
set_bit-lt zero w k v h lt = absurd (omega arith)
set_bit-lt (suc n) w zero v h lt = ground arith
set_bit-lt (suc n) w (suc k) v h lt =
    let inner = set_bit-lt n (w / 2) k v (omega arith) (omega arith) in omega (arith, inner)

pub set_bit-Fits : (w k : ℕ) (v : Bool) → Fits 8 w → k < 64 → Fits 8 (set_bit w k v)
unfolding pow2
set_bit-Fits w k v h lt =
    let bound : w < pow2 64 = omega arith in omega (arith, set_bit-lt 64 w k v bound lt)
