-- ===== src/Fs/Bitmap/Member.antt =====
-- A member that is set is read back, and the other members are as before.
use native.Mathlib.Decide.{ℕ_discrete}
use ics.Common.{
  ℕ, zero, suc, ◌+◌, ◌*◌, ◌/◌, ◌%◌, ◌≡◌, refl, sym, ap, ◌∙◌, ◌≢◌, inl, inr, Bool, true, false,
  arith, ◌==◌, if◌then◌else◌, ==_iff, Bool-cases,
}
use ics.Bytes.{Buffer, get_le, put_le, Fits, IsBytes}
use ics.Bytes.Laws.{get_le-put_le, get_le-put_le_other}
use ics.Fs.Bitmap.{bit, set_bit, word, bitmap_get_member, bitmap_set_member}
use ics.Fs.Bitmap.Bits.{bit-set_bit_self, bit-set_bit_other, set_bit-Fits}

pub get_le-Fits : (n : ℕ) (b : Buffer) (off : ℕ) → IsBytes b → Fits n (get_le n b off)
unfolding get_le
get_le-Fits zero b off h = refl
get_le-Fits (suc n) b off h =
    let top : (b off + 256 * get_le n b (off + 1)) / 256 ≡ get_le n b (off + 1) =
      omega (arith, h off) in
    rw top (get_le-Fits n b (off + 1) h)

pub put_le-IsBytes : (n : ℕ) (b : Buffer) (off v : ℕ) → IsBytes b → IsBytes (put_le n b off v)
unfolding put_le
put_le-IsBytes zero b off v h = h
put_le-IsBytes (suc n) b off v h = λ k. ground (arith, put_le-IsBytes n b (off + 1) (v / 256) h k)

pub bitmap_set_member-IsBytes :
    (b : Buffer) (i : ℕ) (v : Bool) → IsBytes b → IsBytes (bitmap_set_member b i v)
unfolding bitmap_set_member
bitmap_set_member-IsBytes b i v h = put_le-IsBytes 8 b _ _ h

word-set :
    (b : Buffer) (i : ℕ) (v : Bool)
    → IsBytes b
    → word (bitmap_set_member b i v) (i / 64) ≡ set_bit (word b (i / 64)) (i % 64) v
unfolding bitmap_set_member
word-set b i v h =
    get_le-put_le 8 b (8 * (i / 64)) _
      (set_bit-Fits (word b (i / 64)) (i % 64) v (get_le-Fits 8 b (8 * (i / 64)) h) (omega arith))

word-set_other :
    (b : Buffer) (i k : ℕ) (v : Bool) → i / 64 ≢ k → word (bitmap_set_member b i v) k ≡ word b k
unfolding bitmap_set_member
word-set_other b i k v ne = get_le-put_le_other 8 8 b (8 * (i / 64)) (8 * k) _ (grind arith)

-- In a bitmap of bytes, setting member `i` changes what is read there and nowhere else.
pub bitmap_get_member-set :
    (b : Buffer) (i j : ℕ) (v : Bool)
    → IsBytes b
    → bitmap_get_member (bitmap_set_member b i v) j ≡ (if i == j then v else bitmap_get_member b j)
unfolding bitmap_get_member bitmap_set_member
bitmap_get_member-set b i j v h = elim (ℕ_discrete (i / 64) (j / 64)) [
  | yes e ↦
      let w = set_bit (word b (i / 64)) (i % 64) v in
      let read : word (bitmap_set_member b i v) (j / 64) ≡ w =
        ap (λ k. word (bitmap_set_member b i v) k) (sym e) ∙ word-set b i v h in
      rw read (same_word e)
  | no ne ↦ rw (word-set_other b i (j / 64) v ne) (other_word ne)
]
  where
    same_word :
        i / 64 ≡ j / 64
        → bit (set_bit (word b (i / 64)) (i % 64) v) (j % 64)
          ≡ (if i == j then v else bit (word b (j / 64)) (j % 64))
    same_word e = elim (ℕ_discrete i j) [
      | yes q ↦
          let t : (i == j) ≡ true = (==_iff i j).1 q in
          rw (t, ← q) (bit-set_bit_self (word b (i / 64)) (i % 64) v)
      | no q ↦
          let t : (i == j) ≡ false = ground arith in
          rw (t, ← e)
            (bit-set_bit_other (word b (i / 64)) (i % 64) (j % 64) v (λ z. q (omega arith)))
    ]

    other_word :
        i / 64 ≢ j / 64
        → bit (word b (j / 64)) (j % 64) ≡ (if i == j then v else bit (word b (j / 64)) (j % 64))
    other_word ne =
        let t : (i == j) ≡ false = elim (Bool-cases (i == j)) [
          | inl q ↦ absurd (ne (ap (λ k. k / 64) ((==_iff i j).0 q)))
          | inr q ↦ q
        ] in
        rw t
