-- ===== src/Fs/Disk/Many.antt =====
-- Blocks that are written are read back, alone and in runs.
use ics.Common.{
  ℕ, zero, suc, ◌+◌, ◌-◌, ◌*◌, ◌/◌, ◌%◌, ◌≤◌, ◌<◌, ◌≡◌, refl, sym, ap, ◌∙◌, ◌≢◌, ◌⊎◌, inl, true,
  arith, ltb, leb, ◌==◌,
}
use ics.Bytes.{Buffer, copy, zeros}
use ics.Fs.Disk.{
  block_size, block_num, Disk, disk_read, disk_write, block_read, block_write, block_read_many,
  from, block_write_many,
}

pub block_read-write_self :
    (d : Disk) (id : ℕ) (b : Buffer) → id < block_num → block_read (block_write d id b) id ≡ b
unfolding block_read block_write disk_read disk_write
block_read-write_self d id b h = let same : (id == id) ≡ true = ground arith in ground arith

pub block_read-write_other :
    (d : Disk) (id k : ℕ) (b : Buffer) → id ≢ k → block_read (block_write d id b) k ≡ block_read d k
unfolding block_read block_write disk_read disk_write
block_read-write_other d id k b ne = ground arith

copy_inside :
    (n : ℕ) (dst : Buffer) (at : ℕ) (src : Buffer) (s o : ℕ)
    → o < n
    → copy n dst at src s (at + o) ≡ src (s + o)
unfolding copy
copy_inside n dst at src s o h =
    let e : at + o - at ≡ o = omega arith in
    let lo : leb at (at + o) ≡ true = ground arith in
    let hi : ltb (at + o) (at + n) ≡ true = ground arith in rw (lo, hi, e)

copy_outside :
    (n : ℕ) (dst : Buffer) (at : ℕ) (src : Buffer) (s k : ℕ)
    → (k < at) ⊎ (at + n ≤ k)
    → copy n dst at src s k ≡ dst k
unfolding copy
copy_outside n dst at src s k h = ground arith

pub block_read_many_outside :
    (n : ℕ) (d : Disk) (i : ℕ) (buffer : Buffer) (at k : ℕ)
    → (k < at) ⊎ (at + n * block_size ≤ k)
    → block_read_many n d i buffer at k ≡ buffer k
unfolding block_read_many
block_read_many_outside zero d i buffer at k h = refl
block_read_many_outside (suc n) d i buffer at k h =
    block_read_many_outside n d (i + 1) _ (at + block_size) k (grind arith)
    ∙ copy_outside block_size buffer at (block_read d i) 0 k (grind arith)

pub block_read_many_inside :
    (n : ℕ) (d : Disk) (i : ℕ) (buffer : Buffer) (at k o : ℕ)
    → k < n
    → o < block_size
    → block_read_many n d i buffer at (at + k * block_size + o) ≡ block_read d (i + k) o
unfolding block_read_many
block_read_many_inside zero d i buffer at k o h lt = absurd (omega arith)
block_read_many_inside (suc n) d i buffer at zero o h lt =
    let e : at + 0 * block_size + o ≡ at + o = omega arith in
    let e' : i + 0 ≡ i = omega arith in
    let e'' : 0 + o ≡ o = omega arith in
    rw (e, e')
      (block_read_many_outside n d (i + 1) _ (at + block_size) (at + o) (inl (omega arith))
        ∙ copy_inside block_size buffer at (block_read d i) 0 o lt
        ∙ ap (block_read d i) e'')
block_read_many_inside (suc n) d i buffer at (suc k) o h lt =
    let e : at + suc k * block_size + o ≡ at + block_size + k * block_size + o = omega arith in
    let e' : i + suc k ≡ i + 1 + k = omega arith in
    rw (e, e') (block_read_many_inside n d (i + 1) _ (at + block_size) k o (omega arith) lt)

pub block_write_many_outside :
    (n : ℕ) (d : Disk) (i : ℕ) (buffer : Buffer) (at id : ℕ)
    → (id < i) ⊎ (i + n ≤ id)
    → block_read (block_write_many n d i buffer at) id ≡ block_read d id
unfolding block_write_many
block_write_many_outside zero d i buffer at id h = refl
block_write_many_outside (suc n) d i buffer at id h =
    block_write_many_outside n _ (i + 1) buffer (at + block_size) id (grind arith)
    ∙ block_read-write_other d i id _ (grind arith)

pub block_write_many_inside :
    (n : ℕ) (d : Disk) (i : ℕ) (buffer : Buffer) (at k o : ℕ)
    → k < n
    → i + n ≤ block_num
    → block_read (block_write_many n d i buffer at) (i + k) o ≡ buffer (at + k * block_size + o)
unfolding block_write_many
block_write_many_inside zero d i buffer at k o h fit = absurd (omega arith)
block_write_many_inside (suc n) d i buffer at zero o h fit =
    let e : at + 0 * block_size + o ≡ at + o = omega arith in
    let e' : i + 0 ≡ i = omega arith in
    rw (e, e')
      (ap (λ (b : Buffer). b o)
        (block_write_many_outside n _ (i + 1) buffer (at + block_size) i (inl (omega arith))
          ∙ block_read-write_self d i (from buffer at) (omega arith)))
block_write_many_inside (suc n) d i buffer at (suc k) o h fit =
    let e : at + suc k * block_size + o ≡ at + block_size + k * block_size + o = omega arith in
    let e' : i + suc k ≡ i + 1 + k = omega arith in
    rw (e, e')
      (block_write_many_inside n _ (i + 1) buffer (at + block_size) k o (omega arith) (omega arith))

-- A run of blocks within the disk that is written is read back, byte for byte.
pub block_read_many-write_many :
    (n : ℕ) (d : Disk) (i : ℕ) (buffer : Buffer) (off : ℕ)
    → i + n ≤ block_num
    → off < n * block_size
    → block_read_many n (block_write_many n d i buffer 0) i zeros 0 off ≡ buffer off
block_read_many-write_many n d i buffer off fit lt =
    let k = off / block_size in
    let o = off % block_size in
    let e : off ≡ 0 + k * block_size + o = omega arith in
    let kn : k < n = omega arith in
    let on : o < block_size = omega arith in
    let there = block_write_many n d i buffer 0 in
    ap (block_read_many n there i zeros 0) e
    ∙ block_read_many_inside n there i zeros 0 k o kn on
    ∙ block_write_many_inside n d i buffer 0 k o kn fit
    ∙ ap buffer (sym e)
