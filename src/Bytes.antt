-- ===== src/Bytes.antt =====
-- Byte buffers, and the little-endian numbers that lie in them. A buffer is a function from an
-- offset to a byte, so a pointer into it is an offset.
pub mod Laws
use ics.Common.{
  ℕ, zero, suc, ◌+◌, ◌-◌, ◌*◌, ◌/◌, ◌%◌, ◌<◌, ◌≡◌, ◌&&◌, ltb, leb, ◌==◌, if◌then◌else◌,
}

abbrev pub Buffer : Type 0
Buffer = ℕ → ℕ

abbrev pub update : Buffer → ℕ → ℕ → Buffer
update b i v k = if k == i then v else b k

-- The `n`-byte number at an offset.
unfoldable pub get_le : ℕ → Buffer → ℕ → ℕ
get_le zero b off = 0
get_le (suc n) b off = b off + 256 * get_le n b (off + 1)

-- The store of an `n`-byte number.
unfoldable pub put_le : ℕ → Buffer → ℕ → ℕ → Buffer
put_le zero b off v = b
put_le (suc n) b off v = update (put_le n b (off + 1) (v / 256)) off (v % 256)

-- `memcpy(dst + d, src + s, n)`, and `memmove` where the two are one buffer.
unfoldable pub copy : ℕ → Buffer → ℕ → Buffer → ℕ → Buffer
copy n dst d src s k = if leb d k && ltb k (d + n) then src (s + (k - d)) else dst k

-- `memset(dst + d, 0, n)`
unfoldable pub clear : ℕ → Buffer → ℕ → Buffer
clear n dst d k = if leb d k && ltb k (d + n) then 0 else dst k

abbrev pub zeros : Buffer
zeros off = 0

-- The number takes at most `n` bytes.
abbrev pub Fits : ℕ → ℕ → Type 0
Fits zero v = v ≡ 0
Fits (suc n) v = Fits n (v / 256)

-- Every entry of a buffer is a byte.
abbrev pub IsBytes : Buffer → Type 0
IsBytes b = (k : ℕ) → b k < 256
