-- ===== src/Common/Ints.antt =====
-- The integers that `int` and `pid_t` hold; `negsuc n` is -(n + 1).
use Prim.Native.Nat.{ℕ}

pub data ℤ : Type 0 where
  pos : ℕ → ℤ
  negsuc : ℕ → ℤ
