-- ===== src/Fs/File/Truncate.antt =====
-- What `fs_truncate` in fslab/fs.c leaves of a file that gets shorter.
use ics.Common.{
  ℕ, zero, suc, ◌+◌, ◌-◌, ◌*◌, ◌/◌, ◌%◌, ◌≤◌, ◌<◌, ◌≡◌, refl, sym, ap, ◌∙◌, ◌≢◌, ◌⊎◌, inl, inr,
  Bool, true, false, not, ◌&&◌, List, arith, ltb, leb, ◌==◌, if◌then◌else◌, ==_iff, Bool-cases,
}
use ics.Bytes.{Buffer, get_le, clear, zeros}
use ics.Fs.Disk.{
  block_size, Disk, block_read, block_write, inode_num, data_start, data_end,
  pointer_block_item_count,
}
use ics.Fs.Disk.Many.{block_read-write_self, block_read-write_other}
use ics.Fs.Alloc.{◌>>=◌, block_delete, Out, done}
use ics.Fs.Alloc.Blocks.{BytesOnDisk, has_id}
use ics.Fs.Alloc.Blocks.Delete.{block_delete-Frees}
use ics.Fs.Inode.{inode_read, inode_write, block_count_from_size, id_at, ids_from, Inode}
use ics.Fs.Inode.Table.{inode_read-write, InodeFits}
use ics.Fs.Dir.{Name}
use ics.Fs.Dir.RoundTrip.{not_listed, bitmap_cong}
use ics.Fs.Names.{resolve_path}
use ics.Fs.File.{shrink, fs_truncate}
use ics.Fs.File.Blocks.{file_byte}
use ics.Fs.File.Whole.{FileOk}

-- The file of `inode` on `d` and on `d'`, which is as long as `size` says.
pub record Truncated (d d' : Disk) (inode : Inode) (inode_id now size : ℕ) : Type 0 where
  pub new_inode : inode_read d' inode_id ≡ record inode { size = size; ctime = now }
  pub bytes_kept :
      (at : ℕ)
      → at < size
      → file_byte d' (block_read d' inode.pointer_block) at
        ≡ file_byte d (block_read d inode.pointer_block) at
  pub tail_cleared :
      (at : ℕ)
      → size ≤ at
      → at < block_count_from_size size * block_size
      → file_byte d' (block_read d' inode.pointer_block) at ≡ 0
  pub ids_cleared :
      (j : ℕ)
      → block_count_from_size size ≤ j
      → j < block_count_from_size inode.size
      → id_at (block_read d' inode.pointer_block) j ≡ 0
  pub blocks_emptied :
      (j : ℕ)
      → block_count_from_size size ≤ j
      → j < block_count_from_size inode.size
      → block_read d' (id_at (block_read d inode.pointer_block) j) ≡ zeros

listed_id :
    (n : ℕ) (pointers : Buffer) (i j : ℕ)
    → i ≤ j
    → j < i + n
    → has_id (id_at pointers j) (ids_from n pointers i) ≡ true
unfolding has_id ids_from
listed_id zero pointers i j ge lt = absurd (omega arith)
listed_id (suc n) pointers i j ge lt = elim (Bool-cases (i == j)) [
  | inl t ↦
      let here : (id_at pointers i == id_at pointers j) ≡ true =
        (==_iff (id_at pointers i) (id_at pointers j)).1
          (ap (λ k. id_at pointers k) ((==_iff i j).0 t)) in
      rw here refl
  | inr t ↦
      let ne : i ≢ j = λ q. cc ((==_iff i j).1 q) in
      let rest = listed_id n pointers (i + 1) j (omega arith) (omega arith) in
      rw rest (ground arith)
]

past_guard :
    (directory larger : Bool) (a : Out (Unit {0})) (b c : Out Buffer)
    → (f : Buffer → Disk → Out (Unit {0})) → directory ≡ false
    → larger ≡ false
    → (if directory then a else ((if larger then b else c) >>= f)) ≡ c >>= f
past_guard directory larger a b c f e g = rw (e, g) refl

module _ (d : Disk) (inode : Inode) (inode_id now size : ℕ) (ok : FileOk d inode.pointer_block)
    (bytes : BytesOnDisk d) (lt : inode_id < inode_num)
    (fits : InodeFits (record inode { size = size; ctime = now })) (le : size ≤ inode.size)
    (few : block_count_from_size inode.size ≤ pointer_block_item_count)
    (there : (i : ℕ)
      → i < block_count_from_size inode.size
      → id_at (block_read d inode.pointer_block) i ≢ 0) where
  abbrev pb : ℕ
  pb = inode.pointer_block

  abbrev ptr : Buffer
  ptr = block_read d pb

  abbrev old_count : ℕ
  old_count = block_count_from_size inode.size

  abbrev new_count : ℕ
  new_count = block_count_from_size size

  abbrev tail : ℕ
  tail = size % block_size

  abbrev last : ℕ
  last = id_at ptr (new_count - 1)

  abbrev d1 : Disk
  d1 =
      if tail == 0
      then d
      else block_write d last (clear (block_size - tail) (block_read d last) tail)

  counts :
      (new_count ≤ old_count)
      × (size ≤ new_count * block_size)
      × (new_count * block_size < size + block_size)
  unfolding block_count_from_size
  counts = (ground arith, ground arith, ground arith)

  place :
      (j : ℕ)
      → j < old_count
      → (data_start ≤ id_at ptr j) × (id_at ptr j < data_end) × (id_at ptr j ≢ pb)
  place j h = let (a, b, c, e) = ok.ids_place j (omega arith) (there j h) in (a, b, e)

  other_1 : (id : ℕ) → (tail ≢ 0 → last ≢ id) → block_read d1 id ≡ block_read d id
  other_1 id ne = elim (Bool-cases (tail == 0)) [
    | inl t ↦ rw t refl
    | inr t ↦ rw t (block_read-write_other d last id _ (ne (λ z. cc ((==_iff tail 0).1 z))))
  ]

  last_there : tail ≢ 0 → new_count - 1 < old_count
  last_there ne = let (a, b, c) = counts in omega arith

  bytes_1 : BytesOnDisk d1
  bytes_1 k =
      rw
        (bitmap_cong d d1 (λ id h.
          other_1 id
            (λ ne e. let (a, b, c) = place (new_count - 1) (last_there ne) in omega arith)))
        (bytes k)

  byte_1 :
      (at : ℕ)
      → at < new_count * block_size
      → block_read d1 (id_at ptr (at / block_size)) (at % block_size)
        ≡ (if ltb at size then file_byte d ptr at else 0)
  byte_1 at h =
      let (a, b, c) = counts in
      elim (Bool-cases (tail == 0)) [
        | inl t ↦
            let z : tail ≡ 0 = (==_iff tail 0).0 t in
            let short : ltb at size ≡ true = ground arith in rw (t, short) refl
        | inr t ↦
            let ne : tail ≢ 0 = λ z. cc ((==_iff tail 0).1 z) in
            rw t (in_block ne (Bool-cases (new_count - 1 == at / block_size)))
      ]
    where
      cut :
          tail ≢ 0
          → new_count - 1 ≡ at / block_size
          → clear (block_size - tail) (block_read d last) tail (at % block_size)
            ≡ (if ltb at size then block_read d last (at % block_size) else 0)
      cut ne same =
          unfold clear in
          let (a, b, c) = counts in
          let e : leb tail (at % block_size) && ltb (at % block_size) (tail + (block_size - tail))
              ≡ not (ltb at size) =
            ground arith in
          rw e (flip (ltb at size))
        where
          flip :
              (t : Bool)
              → (if not t then 0 else block_read d last (at % block_size))
                ≡ (if t then block_read d last (at % block_size) else 0)
          flip true = refl
          flip false = refl

      in_block :
          tail ≢ 0
          → (new_count - 1 == at / block_size ≡ true) ⊎ (new_count - 1 == at / block_size ≡ false)
          → block_read
              (block_write d last (clear (block_size - tail) (block_read d last) tail))
              (id_at ptr (at / block_size))
              (at % block_size)
            ≡ (if ltb at size then file_byte d ptr at else 0)
      in_block ne (inl t) =
          let same : new_count - 1 ≡ at / block_size =
            (==_iff (new_count - 1) (at / block_size)).0 t in
          let (x, y, z) = place (new_count - 1) (last_there ne) in
          rw (← same) (
            ap (λ (b : Buffer). b (at % block_size))
              (block_read-write_self d last (clear (block_size - tail) (block_read d last) tail)
                (omega arith))
            ∙ cut ne same)
      in_block ne (inr t) =
          let (a, b, c) = counts in
          let apart : new_count - 1 ≢ at / block_size =
            λ q. cc ((==_iff (new_count - 1) (at / block_size)).1 q) in
          let short : ltb at size ≡ true = ground arith in
          let other : last ≢ id_at ptr (at / block_size) = λ q. apart (
            ok.ids_apart (new_count - 1) (at / block_size) (omega arith) (omega arith)
              (there (new_count - 1) (last_there ne)) q) in
          rw short (
            ap (λ (b : Buffer). b (at % block_size))
              (block_read-write_other d last (id_at ptr (at / block_size)) _ other))

  abbrev gone : List ℕ
  gone = ids_from (old_count - new_count) ptr new_count

  abbrev d2 : Disk
  d2 = block_delete d1 gone

  abbrev ptr' : Buffer
  ptr' = clear (2 * (old_count - new_count)) ptr (2 * new_count)

  abbrev d3 : Disk
  d3 = block_write d2 pb ptr'

  abbrev after : Inode
  after = record inode { size = size; ctime = now }

  abbrev d4 : Disk
  d4 = inode_write d3 inode_id after

  -- A data block other than the pointer block is as the deletion left it.
  block_4 : (id : ℕ) → data_start ≤ id → id ≢ pb → block_read d4 id ≡ block_read d2 id
  block_4 id ge ne =
      (inode_read-write d3 inode_id after lt fits).2 id (inr ge)
      ∙ block_read-write_other d2 pb id ptr' (λ q. ne (sym q))

  pointers_4 : block_read d4 pb ≡ ptr'
  pointers_4 =
      let (a, b, c) = ok.own_place in
      (inode_read-write d3 inode_id after lt fits).2 pb (inr a)
      ∙ block_read-write_self d2 pb ptr' (omega arith)

  id_kept : (j : ℕ) → j < new_count → id_at ptr' j ≡ id_at ptr j
  unfolding get_le clear
  id_kept j h = ground arith

  id_cleared : (j : ℕ) → new_count ≤ j → j < old_count → id_at ptr' j ≡ 0
  unfolding get_le clear
  id_cleared j ge h = ground arith

  byte_4 :
      (at : ℕ)
      → at < new_count * block_size
      → file_byte d4 (block_read d4 pb) at ≡ (if ltb at size then file_byte d ptr at else 0)
  byte_4 at h =
      let (x, y, z) = counts in
      let (a, b, ne) = place (at / block_size) (omega arith) in
      let kept : has_id (id_at ptr (at / block_size)) gone ≡ false =
        not_listed (old_count - new_count) ptr new_count (id_at ptr (at / block_size)) (λ k g l e.
          let q =
            ok.ids_apart k (at / block_size) (omega arith) (omega arith) (there k (omega arith))
              e in
          omega arith) in
      let block : block_read d4 (id_at ptr (at / block_size))
          ≡ block_read d1 (id_at ptr (at / block_size)) =
        block_4 (id_at ptr (at / block_size)) a ne
        ∙ (block_delete-Frees d1 gone bytes_1).emptied (id_at ptr (at / block_size)) (omega arith)
            (omega arith)
        ∙ rw kept refl in
      ap (λ (p : Buffer). file_byte d4 p at) pointers_4
      ∙ ap (λ i. block_read d4 i (at % block_size)) (id_kept (at / block_size) (omega arith))
      ∙ ap (λ (b : Buffer). b (at % block_size)) block
      ∙ byte_1 at h

  emptied_4 : (j : ℕ) → new_count ≤ j → j < old_count → block_read d4 (id_at ptr j) ≡ zeros
  emptied_4 j ge h =
      let (a, b, ne) = place j h in
      block_4 (id_at ptr j) a ne
      ∙ (block_delete-Frees d1 gone bytes_1).emptied (id_at ptr j) (omega arith) (omega arith)
      ∙ rw (listed_id (old_count - new_count) ptr new_count j ge (omega arith)) refl

  shrink-Truncated : Truncated d d4 inode inode_id now size
  shrink-Truncated = record {
    new_inode = (inode_read-write d3 inode_id after lt fits).0;
    bytes_kept = λ at h.
        let (x, y, z) = counts in
        let short : ltb at size ≡ true = ground arith in byte_4 at (omega arith) ∙ rw short refl;
    tail_cleared =
        λ at ge h. let long : ltb at size ≡ false = ground arith in byte_4 at h ∙ rw long refl;
    ids_cleared = λ j ge h. ap (λ (p : Buffer). id_at p j) pointers_4 ∙ id_cleared j ge h;
    blocks_emptied = emptied_4;
  }

  abbrev finish : Buffer → Disk → Out (Unit {0})
  finish p e = done tt (inode_write (block_write e pb p) inode_id after)

  pub shrink-finish : shrink d inode ptr size >>= finish ≡ done tt d4
  unfolding shrink
  shrink-finish =
      let fine : ltb pointer_block_item_count old_count ≡ false = ground arith in rw fine refl

-- For a file whose blocks are data blocks in use, apart from each other and from its pointer block, and
-- are all there, within the pointer block, on a disk whose block bitmap holds bytes: `fs_truncate` to a
-- size that is not larger succeeds. The inode has the new size and time, the bytes below the new size
-- are as before, those behind it in the last block are zero, and the blocks behind are emptied and
-- their ids cleared.
pub fs_truncate-Truncated :
    (d0 : Disk) (scratch : Buffer) (now : ℕ) (path : Name) (size : ℕ)
    → (inode : Inode) (inode_id : ℕ) (d : Disk)
    → resolve_path d0 scratch path ≡ done (inode, inode_id) d
    → inode.is_directory ≡ false
    → inode_id < inode_num
    → BytesOnDisk d
    → FileOk d inode.pointer_block
    → InodeFits (record inode { size = size; ctime = now })
    → size ≤ inode.size
    → block_count_from_size inode.size ≤ pointer_block_item_count
    → ((i : ℕ)
        → i < block_count_from_size inode.size
        → id_at (block_read d inode.pointer_block) i ≢ 0)
    → (d' : Disk) × (fs_truncate d0 scratch now path size ≡ done tt d')
      × Truncated d d' inode inode_id now size
unfolding fs_truncate
fs_truncate-Truncated d0 scratch now path size inode inode_id d found file lt bytes ok fits le few
      there =
    (
      _,
      rw found (
          past_guard inode.is_directory (ltb inode.size size) _ _ _ _ file (ground arith)
          ∙ shrink-finish d inode inode_id now size ok bytes lt fits le few there),
      shrink-Truncated d inode inode_id now size ok bytes lt fits le few there,
    )
