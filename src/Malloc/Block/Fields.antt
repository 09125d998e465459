-- ===== src/Malloc/Block/Fields.antt =====
-- The fields of a block header: what a write of one keeps of the others.
use ics.Common.{ℕ, ◌+◌, ◌%◌, ◌≡◌, ◌≢◌}
use ics.Bytes.{Buffer, IsBytes}
use ics.Malloc.Block.{read_24_transformed, read_8_aligned, read_4_aligned}

-- The bytes that a write of field `index` keeps; `read` reads the fields.
pub record KeepsFields (read : Buffer → ℕ → ℕ) (m m' : Buffer) (block index : ℕ) : Type 0 where
  pub bytes : IsBytes m'
  pub field_0 : read_24_transformed m' block ≡ read_24_transformed m block
  pub flag_0 : m' block % 2 ≡ m block % 2
  pub flag_1 : m' (block + 3) % 2 ≡ m (block + 3) % 2
  pub flag_2 : m' (block + 6) % 2 ≡ m (block + 6) % 2
  pub others : (j : ℕ) → j ≢ index → read m' j ≡ read m j

abbrev pub read_8 : ℕ → ℕ → Buffer → ℕ → ℕ
read_8 block second_part m index = read_8_aligned m block second_part index

abbrev pub read_4 : ℕ → Buffer → ℕ → ℕ
read_4 block m index = read_4_aligned m block index
