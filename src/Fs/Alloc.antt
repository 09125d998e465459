-- ===== src/Fs/Alloc.antt =====
-- Allocation of blocks and inodes in fslab/fs.c. `longjmp(jmp_error, -E)` is the result `failed E`,
-- which keeps what the disk holds by then.
pub mod Search
pub mod Blocks
pub mod Inodes
use ics.Common.{
  ℕ, zero, suc, ◌+◌, ◌-◌, Bool, true, false, Option, none, some, List, [], ◌∷◌, ltb, ◌==◌,
  if◌then◌else◌, length,
}
use ics.Bytes.{Buffer}
use ics.Fs.Disk.{Disk, block_empty, inode_num, data_start, data_num}
use ics.Fs.Bitmap.{
  bitmap_get_member, bitmap_set_member, block_bitmap_read, block_bitmap_write, inode_bitmap_read,
  inode_bitmap_write,
}

pub data Errno : Type 0 where
  enospc enotdir enoent eisdir eexist : Errno

-- `faulted` is an access outside an array, or a read of a variable that was never set.
pub data Out {ℓ} (A : Type ℓ) : Type ℓ where
  done : A → Disk → Out A
  failed : Errno → Disk → Out A
  faulted : Out A

infixl 5 ◌>>=◌
abbrev pub ◌>>=◌ {ℓ κ} : {A : Type ℓ} {B : Type κ} → Out A → (A → Disk → Out B) → Out B
done a d >>= f = f a d
failed e d >>= f = failed e d
faulted >>= f = faulted

-- `for (i = …; n rounds; i++) if (!used(i)) return i;`
unfoldable pub first_free : (ℕ → Bool) → ℕ → ℕ → Option ℕ
first_free used zero i = none
first_free used (suc n) i = let rest = first_free used n (i + 1) in if used i then rest else some i

-- The loop of `block_new_many`: the first `want` numbers that are free, or all of them.
unfoldable pub take_free : (ℕ → Bool) → ℕ → ℕ → ℕ → List ℕ
take_free used zero n i = []
take_free used (suc want) zero i = []
take_free used (suc want) (suc n) i =
    let skip = take_free used (suc want) n (i + 1) in
    let keep = take_free used want n (i + 1) in if used i then skip else i ∷ keep

-- The loop of `block_seek` and `inode_seek`: `!used(i) && --want == 0`.
unfoldable pub seek_free : (ℕ → Bool) → ℕ → ℕ → ℕ → Bool
seek_free used want zero i = false
seek_free used want (suc n) i =
    let skip = seek_free used want n (i + 1) in
    let rest = seek_free used (want - 1) n (i + 1) in
    if used i then skip else if want - 1 == 0 then true else rest

unfoldable pub set_members : Buffer → List ℕ → Bool → Buffer
set_members bitmap [] value = bitmap
set_members bitmap (id ∷ ids) value = set_members (bitmap_set_member bitmap id value) ids value

unfoldable pub block_new : Disk → Out ℕ
block_new d =
    let bitmap = block_bitmap_read d in
    elim (first_free (bitmap_get_member bitmap) data_num data_start) [
      | none ↦ failed enospc d
      | some i ↦ done i (block_bitmap_write d (bitmap_set_member bitmap i true))
    ]

unfoldable pub block_new_many : ℕ → Disk → Out (List ℕ)
block_new_many n d =
    let bitmap = block_bitmap_read d in
    let ids = take_free (bitmap_get_member bitmap) n data_num data_start in
    if n == 0
    then done [] d
    else if ltb (length ids) n
    then failed enospc d
    else done ids (block_bitmap_write d (set_members bitmap ids true))

unfoldable pub block_seek : ℕ → Disk → Bool
block_seek n d =
    if n == 0
    then true
    else seek_free (bitmap_get_member (block_bitmap_read d)) n data_num data_start

-- The loop of `block_delete`: the bitmap in memory and the disk. The callers clear the entries of
-- the array, with `clear`.
unfoldable pub delete_loop : Buffer → Disk → List ℕ → Buffer × Disk
delete_loop bitmap d [] = (bitmap, d)
delete_loop bitmap d (id ∷ ids) =
    delete_loop (bitmap_set_member bitmap id false) (block_empty d id) ids

unfoldable pub block_delete : Disk → List ℕ → Disk
block_delete d [] = d
block_delete d (id ∷ ids) =
    let (bitmap, d') = delete_loop (block_bitmap_read d) d (id ∷ ids) in
    block_bitmap_write d' bitmap

unfoldable pub inode_new : Disk → Out ℕ
inode_new d =
    let bitmap = inode_bitmap_read d in
    elim (first_free (bitmap_get_member bitmap) (inode_num - 1) 1) [
      | none ↦ failed enospc d
      | some i ↦ done i (inode_bitmap_write d (bitmap_set_member bitmap i true))
    ]

unfoldable pub inode_seek : ℕ → Disk → Bool
inode_seek n d =
    if n == 0 then true else seek_free (bitmap_get_member (inode_bitmap_read d)) n (inode_num - 1) 1

unfoldable pub inode_delete : Disk → ℕ → Disk
inode_delete d inode_id =
    inode_bitmap_write d (bitmap_set_member (inode_bitmap_read d) inode_id false)
