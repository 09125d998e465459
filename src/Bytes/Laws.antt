-- ===== src/Bytes/Laws.antt =====
-- A number that is stored is read back, and what lies elsewhere is as before.
use ics.Common.{
  ℕ, zero, suc, ◌+◌, ◌-◌, ◌/◌, ◌%◌, ◌≤◌, ◌<◌, ◌≡◌, refl, sym, ◌⊎◌, Bool, true, false, ◌&&◌, arith,
  ltb, leb, if◌then◌else◌,
}
use ics.Bytes.{Buffer, update, get_le, put_le, copy, Fits, IsBytes}

-- A store changes only its own bytes.
pub put_le_outside :
    (n : ℕ) (b : Buffer) (off v k : ℕ) → (k < off) ⊎ (off + n ≤ k) → put_le n b off v k ≡ b k
unfolding put_le
put_le_outside zero b off v k h = refl
put_le_outside (suc n) b off v k h = ground (arith, put_le_outside n b (off + 1) (v / 256) k)

-- A number is read from its own bytes.
pub get_le_cong :
    (n : ℕ) (b c : Buffer) (off : ℕ)
    → ((k : ℕ) → off ≤ k → k < off + n → b k ≡ c k)
    → get_le n b off ≡ get_le n c off
unfolding get_le
get_le_cong zero b c off h = refl
get_le_cong (suc n) b c off h =
    let rest = get_le_cong n b c (off + 1) (λ k p q. h k (omega arith) (omega arith)) in
    let first = h off (omega arith) (omega arith) in omega (arith, rest, first)

pub get_le-put_le :
    (n : ℕ) (b : Buffer) (off v : ℕ) → Fits n v → get_le n (put_le n b off v) off ≡ v
unfolding get_le put_le
get_le-put_le zero b off v h = sym h
get_le-put_le (suc n) b off v h =
    let inner = put_le n b (off + 1) (v / 256) in
    let same = get_le_cong n (update inner off (v % 256)) inner (off + 1) (λ k p q. ground arith) in
    let rest = get_le-put_le n b (off + 1) (v / 256) h in ground (arith, same, rest)

-- A store of one number leaves another that lies beside it.
pub get_le-put_le_other :
    (n m : ℕ) (b : Buffer) (off at v : ℕ)
    → (at + n ≤ off) ⊎ (off + m ≤ at)
    → get_le n (put_le m b off v) at ≡ get_le n b at
get_le-put_le_other n m b off at v h =
    get_le_cong n (put_le m b off v) b at λ k p q. put_le_outside m b off v k (grind arith)

-- A byte of a copy comes from one of the two buffers.
pub copy-IsBytes :
    (n : ℕ) (b : Buffer) (at : ℕ) (c : Buffer) (off : ℕ)
    → IsBytes b
    → IsBytes c
    → IsBytes (copy n b at c off)
unfolding copy
copy-IsBytes n b at c off h g k = pick (leb at k && ltb k (at + n))
  where
    pick : (t : Bool) → (if t then c (off + (k - at)) else b k) < 256
    pick true = g (off + (k - at))
    pick false = h k

pub put_le-IsBytes : (n : ℕ) (b : Buffer) (off v : ℕ) → IsBytes b → IsBytes (put_le n b off v)
unfolding put_le
put_le-IsBytes zero b off v h k = h k
put_le-IsBytes (suc n) b off v h k = ground (arith, put_le-IsBytes n b (off + 1) (v / 256) h k)
