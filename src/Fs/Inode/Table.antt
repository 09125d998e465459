-- ===== src/Fs/Inode/Table.antt =====
-- Inodes that are written are read back.
use native.Mathlib.Decide.{ℕ_discrete}
use ics.Common.{
  ℕ, ◌+◌, ◌≤◌, ◌<◌, ◌≡◌, refl, sym, ap, ◌∙◌, ◌≢◌, ◌⊎◌, inl, Bool, true, false, not, arith, ◌==◌,
  if◌then◌else◌,
}
use ics.Bytes.{Buffer, get_le, put_le, Fits}
use ics.Bytes.Laws.{put_le_outside, get_le_cong, get_le-put_le, get_le-put_le_other}
use ics.Fs.Disk.{
  block_size, Disk, block_read, block_write, inode_num, inode_size, inode_block_start, data_start,
}
use ics.Fs.Disk.Many.{block_read-write_self, block_read-write_other}
use ics.Fs.Inode.{
  load_inode, store_inode, inode_block, inode_offset, inode_read, inode_write, Inode,
}

-- Every field fits its place.
pub record InodeFits (x : Inode) : Type 0 where
  pub atime_fits : Fits 8 x.atime
  pub mtime_fits : Fits 8 x.mtime
  pub ctime_fits : Fits 8 x.ctime
  pub size_fits : Fits 4 x.size
  pub pointer_fits : Fits 2 x.pointer_block

flag-Fits : (v : Bool) → Fits 1 (if v then 1 else 0)
flag-Fits true = omega arith
flag-Fits false = omega arith

flag_back : (v : Bool) → not ((if v then 1 else 0) == 0) ≡ v
flag_back true = refl
flag_back false = refl

-- A number below the place of a store is as before.
below :
    (n m : ℕ) (b : Buffer) (at off v : ℕ)
    → at + n ≤ off
    → get_le n (put_le m b off v) at ≡ get_le n b at
below n m b at off v h = get_le-put_le_other n m b off at v (inl h)

-- An inode that is stored is loaded back.
load-store_inode :
    (b : Buffer) (off : ℕ) (x : Inode) → InodeFits x → load_inode (store_inode b off x) off ≡ x
unfolding load_inode store_inode
load-store_inode b off x f =
    let b1 = put_le 8 b off x.atime in
    let b2 = put_le 8 b1 (off + 8) x.mtime in
    let b3 = put_le 8 b2 (off + 16) x.ctime in
    let b4 = put_le 4 b3 (off + 24) x.size in
    let flag : ℕ = if x.is_directory then 1 else 0 in
    let b5 = put_le 1 b4 (off + 28) flag in
    let b6 = put_le 2 b5 (off + 30) x.pointer_block in
    let p = get_le-put_le 2 b5 (off + 30) x.pointer_block f.pointer_fits in
    let g : get_le 1 b6 (off + 28) ≡ flag =
      below 1 2 b5 (off + 28) (off + 30) _ (omega arith)
      ∙ get_le-put_le 1 b4 (off + 28) flag (flag-Fits x.is_directory) in
    let s : get_le 4 b6 (off + 24) ≡ x.size =
      below 4 2 b5 (off + 24) (off + 30) _ (omega arith)
      ∙ below 4 1 b4 (off + 24) (off + 28) _ (omega arith)
      ∙ get_le-put_le 4 b3 (off + 24) x.size f.size_fits in
    let c : get_le 8 b6 (off + 16) ≡ x.ctime =
      below 8 2 b5 (off + 16) (off + 30) _ (omega arith)
      ∙ below 8 1 b4 (off + 16) (off + 28) _ (omega arith)
      ∙ below 8 4 b3 (off + 16) (off + 24) _ (omega arith)
      ∙ get_le-put_le 8 b2 (off + 16) x.ctime f.ctime_fits in
    let m : get_le 8 b6 (off + 8) ≡ x.mtime =
      below 8 2 b5 (off + 8) (off + 30) _ (omega arith)
      ∙ below 8 1 b4 (off + 8) (off + 28) _ (omega arith)
      ∙ below 8 4 b3 (off + 8) (off + 24) _ (omega arith)
      ∙ below 8 8 b2 (off + 8) (off + 16) _ (omega arith)
      ∙ get_le-put_le 8 b1 (off + 8) x.mtime f.mtime_fits in
    let a : get_le 8 b6 off ≡ x.atime =
      below 8 2 b5 off (off + 30) _ (omega arith)
      ∙ below 8 1 b4 off (off + 28) _ (omega arith)
      ∙ below 8 4 b3 off (off + 24) _ (omega arith)
      ∙ below 8 8 b2 off (off + 16) _ (omega arith)
      ∙ below 8 8 b1 off (off + 8) _ (omega arith)
      ∙ get_le-put_le 8 b off x.atime f.atime_fits in
    let d : not (get_le 1 b6 (off + 28) == 0) ≡ x.is_directory =
      ap (λ (n : ℕ). not (n == 0)) g ∙ flag_back x.is_directory in
    λ i. record {
      atime = a i;
      mtime = m i;
      ctime = c i;
      size = s i;
      is_directory = d i;
      pointer_block = p i;
    }

-- A store touches the 32 bytes of its inode.
store_inode_outside :
    (b : Buffer) (off : ℕ) (x : Inode) (k : ℕ)
    → (k < off) ⊎ (off + inode_size ≤ k)
    → store_inode b off x k ≡ b k
unfolding store_inode
store_inode_outside b off x k h =
    put_le_outside 2 _ (off + 30) _ k (grind arith)
    ∙ put_le_outside 1 _ (off + 28) _ k (grind arith)
    ∙ put_le_outside 4 _ (off + 24) _ k (grind arith)
    ∙ put_le_outside 8 _ (off + 16) _ k (grind arith)
    ∙ put_le_outside 8 _ (off + 8) _ k (grind arith)
    ∙ put_le_outside 8 _ off _ k (grind arith)

-- Two buffers that agree on an inode's bytes hold the same inode there.
load_inode_cong :
    (b c : Buffer) (off : ℕ)
    → ((k : ℕ) → off ≤ k → k < off + inode_size → b k ≡ c k)
    → load_inode b off ≡ load_inode c off
unfolding load_inode
load_inode_cong b c off h =
    let at : (n p : ℕ) → p + n ≤ inode_size → get_le n b (off + p) ≡ get_le n c (off + p) =
      λ n p fit. get_le_cong n b c (off + p) (λ k lo hi. h k (omega arith) (omega arith)) in
    let first : get_le 8 b off ≡ get_le 8 c off =
      get_le_cong 8 b c off (λ k lo hi. h k lo (omega arith)) in
    λ i. record {
      atime = first i;
      mtime = at 8 8 (omega arith) i;
      ctime = at 8 16 (omega arith) i;
      size = at 4 24 (omega arith) i;
      is_directory = not (at 1 28 (omega arith) i == 0);
      pointer_block = at 2 30 (omega arith) i;
    }

-- Every inode with an id below INODE_NUM lies within one block of the inode table.
pub inode_resolve_bounds :
    (i : ℕ)
    → i < inode_num
    → (inode_block_start ≤ inode_block i)
      × (inode_block i < data_start)
      × (inode_offset i + inode_size ≤ block_size)
inode_resolve_bounds i h = omega arith

-- Two inodes of one block do not overlap there.
inode_offset_apart :
    (i j : ℕ)
    → i ≢ j
    → inode_block i ≡ inode_block j
    → (inode_offset j + inode_size ≤ inode_offset i)
      ⊎ (inode_offset i + inode_size ≤ inode_offset j)
inode_offset_apart i j ne e = grind arith

inode_read_same :
    (d : Disk) (i : ℕ) (x : Inode)
    → i < inode_num
    → InodeFits x
    → inode_read (inode_write d i x) i ≡ x
unfolding inode_read inode_write
inode_read_same d i x lt f =
    ap (λ (b : Buffer). load_inode b (inode_offset i))
      (block_read-write_self d (inode_block i) _ (omega arith))
    ∙ load-store_inode (block_read d (inode_block i)) (inode_offset i) x f

inode_read_other :
    (d : Disk) (i j : ℕ) (x : Inode)
    → i < inode_num
    → i ≢ j
    → inode_read (inode_write d i x) j ≡ inode_read d j
unfolding inode_read inode_write
inode_read_other d i j x lt ne = elim (ℕ_discrete (inode_block i) (inode_block j)) [
  | no apart ↦
      ap (λ (b : Buffer). load_inode b (inode_offset j))
        (block_read-write_other d (inode_block i) (inode_block j) _ apart)
  | yes e ↦
      let old = block_read d (inode_block i) in
      let stored = store_inode old (inode_offset i) x in
      let gap = inode_offset_apart i j ne e in
      ap (λ k. load_inode (block_read (block_write d (inode_block i) stored) k) (inode_offset j))
        (sym e)
      ∙ ap (λ (b : Buffer). load_inode b (inode_offset j))
          (block_read-write_self d (inode_block i) stored (omega arith))
      ∙ load_inode_cong stored old (inode_offset j)
          (λ k lo hi. store_inode_outside old (inode_offset i) x k (grind arith))
      ∙ ap (λ k. load_inode (block_read d k) (inode_offset j)) e
]

-- For an inode id below INODE_NUM and an inode whose fields fit their places: after `inode_write`,
-- `inode_read` of the id returns the inode, `inode_read` of every other id returns what it returned
-- before, and no block outside the inode table has changed.
pub inode_read-write :
    (d : Disk) (i : ℕ) (x : Inode)
    → i < inode_num
    → InodeFits x
    → (inode_read (inode_write d i x) i ≡ x)
      × ((j : ℕ) → i ≢ j → inode_read (inode_write d i x) j ≡ inode_read d j)
      × ((id : ℕ)
          → (id < inode_block_start) ⊎ (data_start ≤ id)
          → block_read (inode_write d i x) id ≡ block_read d id)
unfolding inode_write
inode_read-write d i x lt f = (
  inode_read_same d i x lt f,
  λ j ne. inode_read_other d i j x lt ne,
  λ id h. block_read-write_other d (inode_block i) id _ (inode_block_ne id h),
)
  where
    inode_block_ne : (id : ℕ) → (id < inode_block_start) ⊎ (data_start ≤ id) → inode_block i ≢ id
    inode_block_ne id h e = let b = inode_resolve_bounds i lt in grind arith
