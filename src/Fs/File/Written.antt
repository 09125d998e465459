-- ===== src/Fs/File/Written.antt =====
-- The disk after all rounds of `fs_write`, and the new block ids that it takes.
use ics.Common.{
  ℕ, zero, suc, ◌+◌, ◌-◌, ◌*◌, ◌≤◌, ◌<◌, ◌≡◌, refl, ap, ◌∙◌, ◌≢◌, ◌⊎◌, inl, inr, Bool, true, false,
  ◌&&◌, List, [], ◌∷◌, arith, ltb, leb, if◌then◌else◌, Bool-cases, length, All,
}
use ics.Bytes.{Buffer, copy}
use ics.Fs.Disk.{block_size, Disk, block_read, block_write, pointer_block_item_count}
use ics.Fs.Disk.Many.{block_read-write_other}
use ics.Fs.Alloc.Search.{FreeIds}
use ics.Fs.Inode.{id_at}
use ics.Fs.File.{in_pointer_block, nth_id, Piece}
use ics.Fs.File.Blocks.{Covers, file_byte}
use ics.Fs.File.Write.{write_all, one_write, Writable}

abbrev pub file_limit : ℕ
file_limit = pointer_block_item_count * block_size

abbrev pub within : ℕ → ℕ → ℕ → Bool
within origin size at = leb origin at && ltb at (origin + size)

pub write_all-byte :
    (d : Disk) (ptr : Buffer) (ps : List Piece) (buffer : Buffer) (from' origin size at : ℕ)
    → Covers ps origin size
    → in_pointer_block ps ≡ true
    → Writable ptr ps
    → at < file_limit
    → file_byte (write_all d ptr ps buffer from') ptr at
      ≡ (if within origin size at then buffer (from' + (at - origin)) else file_byte d ptr at)
unfolding write_all in_pointer_block
write_all-byte d ptr [] buffer from' origin size at c inside w lt = ground arith
write_all-byte d ptr (p ∷ ps) buffer from' origin size at (e, some', fit, le, c) inside w lt =
    let lt' : p.index < pointer_block_item_count = ground arith in
    let rest : in_pointer_block ps ≡ true = ground arith in
    let w' : Writable ptr ps = record { there = w.there.1; apart = w.apart } in
    let one = one_write d ptr p ps buffer from' origin at w e fit lt' lt in
    write_all-byte
      (block_write d (id_at ptr p.index)
        (copy p.bytes (block_read d (id_at ptr p.index)) p.start buffer from'))
      ptr ps buffer (from' + p.bytes) (origin + p.bytes) (size - p.bytes) at c rest w' lt
    ∙ ap
        (λ k.
          if within (origin + p.bytes) (size - p.bytes) at
          then buffer (from' + p.bytes + (at - (origin + p.bytes)))
          else k)
        one
    ∙ join (Bool-cases (within origin p.bytes at))
  where
    join :
        (within origin p.bytes at ≡ true) ⊎ (within origin p.bytes at ≡ false)
        → (if within (origin + p.bytes) (size - p.bytes) at
            then buffer (from' + p.bytes + (at - (origin + p.bytes)))
            else if within origin p.bytes at
            then buffer (from' + (at - origin))
            else file_byte d ptr at)
          ≡ (if within origin size at then buffer (from' + (at - origin)) else file_byte d ptr at)
    join (inl t) =
        let a : within (origin + p.bytes) (size - p.bytes) at ≡ false = ground arith in
        let b : within origin size at ≡ true = ground arith in rw (a, b, t)
    join (inr t) =
        let a : within (origin + p.bytes) (size - p.bytes) at ≡ within origin size at =
          ground arith in
        rw (t, a)
          (elim (Bool-cases (within origin size at)) [
            | inl u ↦
                let q : from' + p.bytes + (at - (origin + p.bytes)) ≡ from' + (at - origin) =
                  ground arith in
                rw (u, q)
            | inr u ↦ rw u
          ])

pub write_all_outside :
    (d : Disk) (ptr : Buffer) (ps : List Piece) (buffer : Buffer) (at id : ℕ)
    → All (λ p. id_at ptr p.index ≢ id) ps
    → block_read (write_all d ptr ps buffer at) id ≡ block_read d id
unfolding write_all
write_all_outside d ptr [] buffer at id h = refl
write_all_outside d ptr (p ∷ ps) buffer at id h =
    write_all_outside
      (block_write d (id_at ptr p.index)
        (copy p.bytes (block_read d (id_at ptr p.index)) p.start buffer at))
      ptr ps buffer (at + p.bytes) id h.1
    ∙ block_read-write_other d (id_at ptr p.index) id _ h.0

-- The free ids that `block_new_many` returns are in ascending order.
pub nth_id-free :
    (used : ℕ → Bool) (lo hi : ℕ) (ids : List ℕ) (k : ℕ)
    → FreeIds used lo hi ids
    → k < length ids
    → (lo ≤ nth_id ids k) × (nth_id ids k < hi) × (used (nth_id ids k) ≡ false)
unfolding nth_id
nth_id-free used lo hi [] k f h = absurd (omega arith)
nth_id-free used lo hi (x ∷ xs) zero (a, b, u, f) h = (a, b, u)
nth_id-free used lo hi (x ∷ xs) (suc k) (a, b, u, f) h =
    let (p, q, r) = nth_id-free used (x + 1) hi xs k f (omega arith) in (omega arith, q, r)

pub nth_id_ascends :
    (used : ℕ → Bool) (lo hi : ℕ) (ids : List ℕ) (k l : ℕ)
    → FreeIds used lo hi ids
    → k < l
    → l < length ids
    → nth_id ids k < nth_id ids l
unfolding nth_id
nth_id_ascends used lo hi [] k l f h g = absurd (omega arith)
nth_id_ascends used lo hi (x ∷ xs) k zero f h g = absurd (omega arith)
nth_id_ascends used lo hi (x ∷ xs) zero (suc l) (a, b, u, f) h g =
    let (p, q, r) = nth_id-free used (x + 1) hi xs l f (omega arith) in omega arith
nth_id_ascends used lo hi (x ∷ xs) (suc k) (suc l) (a, b, u, f) h g =
    nth_id_ascends used (x + 1) hi xs k l f (omega arith) (omega arith)
