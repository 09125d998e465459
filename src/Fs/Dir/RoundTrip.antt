-- ===== src/Fs/Dir/RoundTrip.antt =====
-- The entries of a directory that `entries_write` puts on the disk and `entries_read` gets back.
use mathlib.Core.Option
use ics.Common.{
  ℕ, zero, suc, ◌+◌, ◌-◌, ◌*◌, ◌/◌, ◌%◌, ◌≤◌, ◌<◌, ◌≡◌, refl, sym, ap, ◌∙◌, ◌≢◌, inl, inr, true,
  false, some, ◌&&◌, arith, ltb, leb, ◌==◌, ==_iff, Bool-cases,
}
use ics.Bytes.{Buffer, get_le, copy, clear}
use ics.Fs.Disk.{
  block_size, block_num, Disk, block_read, block_write, block_read_many, from, data_start,
  pointer_block_item_count,
}
use ics.Fs.Disk.Many.{block_read-write_self, block_read-write_other}
use ics.Fs.Bitmap.{block_bitmap_read}
use ics.Fs.Alloc.{block_delete}
use ics.Fs.Alloc.Blocks.{BytesOnDisk, has_id}
use ics.Fs.Alloc.Blocks.Delete.{block_delete-Frees}
use ics.Fs.Inode.{block_count_from_size, id_at, ids_from, Inode}
use ics.Fs.Dir.{entries_blocks, read_loop, entries_read, write_loop, count_ids, entries_write}
use ics.Fs.File.Whole.{FileOk}

-- The ids from index `i` on are apart from each other and on the disk.
abbrev ApartFrom : Buffer → ℕ → ℕ → Type 0
ApartFrom pointers i n =
    (j k : ℕ) → i ≤ j → j < i + n → i ≤ k → k < i + n → id_at pointers j ≡ id_at pointers k → j ≡ k

write_loop_other :
    (n : ℕ) (d : Disk) (pointers : Buffer) (i : ℕ) (entries : Buffer) (id : ℕ)
    → ((j : ℕ) → i ≤ j → j < i + n → id_at pointers j ≢ id)
    → block_read (write_loop n d pointers i entries) id ≡ block_read d id
unfolding write_loop
write_loop_other zero d pointers i entries id ne = refl
write_loop_other (suc n) d pointers i entries id ne =
    write_loop_other n _ pointers (i + 1) entries id (λ j ge lt. ne j (omega arith) (omega arith))
    ∙ block_read-write_other d (id_at pointers i) id _ (ne i (omega arith) (omega arith))

write_loop_block :
    (n : ℕ) (d : Disk) (pointers : Buffer) (i : ℕ) (entries : Buffer) (j : ℕ)
    → ApartFrom pointers i n
    → ((k : ℕ) → i ≤ k → k < i + n → id_at pointers k < block_num)
    → i ≤ j
    → j < i + n
    → block_read (write_loop n d pointers i entries) (id_at pointers j)
      ≡ from entries (j * block_size)
unfolding write_loop
write_loop_block zero d pointers i entries j apart on ge lt = absurd (omega arith)
write_loop_block (suc n) d pointers i entries j apart on ge lt = elim (Bool-cases (i == j)) [
  | inl t ↦
      let same : i ≡ j = (==_iff i j).0 t in
      rw (← same) (
        write_loop_other n _ pointers (i + 1) entries (id_at pointers i) (λ k g h e. absurd (
          let q = apart k i (omega arith) (omega arith) (omega arith) (omega arith) e in
          omega arith))
        ∙ block_read-write_self d (id_at pointers i) _ (on i (omega arith) (omega arith)))
  | inr t ↦
      let ne : i ≢ j = λ q. cc ((==_iff i j).1 q) in
      write_loop_block n _ pointers (i + 1) entries j
        (λ k l a b c e. apart k l (omega arith) (omega arith) (omega arith) (omega arith))
        (λ k a b. on k (omega arith) (omega arith)) (omega arith) (omega arith)
]

read_loop_outside :
    (n : ℕ) (d : Disk) (pointers : Buffer) (i : ℕ) (buffer : Buffer) (k : ℕ)
    → k < i * block_size
    → read_loop n d pointers i buffer k ≡ buffer k
unfolding read_loop copy
read_loop_outside zero d pointers i buffer k lt = refl
read_loop_outside (suc n) d pointers i buffer k lt =
    read_loop_outside n d pointers (i + 1) _ k (omega arith) ∙ ground arith

read_loop_byte :
    (n : ℕ) (d : Disk) (pointers : Buffer) (i : ℕ) (buffer : Buffer) (k : ℕ)
    → i * block_size ≤ k
    → k < (i + n) * block_size
    → read_loop n d pointers i buffer k
      ≡ block_read d (id_at pointers (k / block_size)) (k % block_size)
unfolding read_loop copy
read_loop_byte zero d pointers i buffer k ge lt = absurd (omega arith)
read_loop_byte (suc n) d pointers i buffer k ge lt = elim (Bool-cases (i == k / block_size)) [
  | inl t ↦
      let same : i ≡ k / block_size = (==_iff i (k / block_size)).0 t in
      let off : 0 + (k - i * block_size) ≡ k % block_size = omega arith in
      let inside : leb (i * block_size) k && ltb k (i * block_size + block_size) ≡ true =
        ground arith in
      read_loop_outside n d pointers (i + 1) _ k (omega arith) ∙ rw (inside, off, ← same) refl
  | inr t ↦
      let ne : i ≢ k / block_size = λ q. cc ((==_iff i (k / block_size)).1 q) in
      read_loop_byte n d pointers (i + 1) _ k (omega arith) (omega arith)
]

count_ids_bound :
    (n : ℕ) (pointers : Buffer) (i : ℕ)
    → (count_ids n pointers i ≤ n)
      × ((j : ℕ) → i ≤ j → j < i + count_ids n pointers i → id_at pointers j ≢ 0)
unfolding count_ids
count_ids_bound zero pointers i = (omega arith, λ j ge lt z. omega arith)
count_ids_bound (suc n) pointers i =
    let (le, rest) = count_ids_bound n pointers (i + 1) in
    elim (Bool-cases (id_at pointers i == 0)) [
      | inl t ↦ rw t (omega arith, λ j ge lt z. omega arith)
      | inr t ↦
          let ne : id_at pointers i ≢ 0 = λ z. cc ((==_iff (id_at pointers i) 0).1 z) in
          rw t (
            omega arith,
            λ j ge lt. elim (Bool-cases (i == j)) [
              | inl e ↦ rw (← (==_iff i j).0 e) ne
              | inr e ↦
                  let apart : i ≢ j = λ q. cc ((==_iff i j).1 q) in
                  rest j (omega arith) (omega arith)
            ],
          )
    ]

pub not_listed :
    (n : ℕ) (pointers : Buffer) (i id : ℕ)
    → ((j : ℕ) → i ≤ j → j < i + n → id_at pointers j ≢ id)
    → has_id id (ids_from n pointers i) ≡ false
unfolding has_id ids_from
not_listed zero pointers i id ne = refl
not_listed (suc n) pointers i id ne =
    let rest = not_listed n pointers (i + 1) id (λ j ge lt. ne j (omega arith) (omega arith)) in
    let here : (id_at pointers i == id) ≡ false = elim (Bool-cases (id_at pointers i == id)) [
      | inl t ↦ absurd (ne i (omega arith) (omega arith) ((==_iff (id_at pointers i) id).0 t))
      | inr t ↦ t
    ] in
    rw (here, rest) refl

pub bitmap_cong :
    (d d' : Disk)
    → ((id : ℕ) → id < data_start → block_read d' id ≡ block_read d id)
    → block_bitmap_read d' ≡ block_bitmap_read d
unfolding block_bitmap_read block_read_many
bitmap_cong d d' same = rw (same 0 (omega arith), same 1 (omega arith)) refl

-- What writing the entries of a directory leaves on the disk.
pub record EntriesStored (d d' : Disk) (directory : Inode) (entries : Buffer) : Type 0 where
  pub read_back :
      (scratch : Buffer) (k : ℕ)
      → k < block_count_from_size directory.size * block_size
      → Option.map (λ (b : Buffer). b k) (entries_read d' directory scratch) ≡ some (entries k)
  pub others_kept :
      (id : ℕ)
      → data_start ≤ id
      → id < block_num
      → id ≢ directory.pointer_block
      → ((j : ℕ)
          → j < pointer_block_item_count
          → id_at (block_read d directory.pointer_block) j ≢ id)
      → block_read d' id ≡ block_read d id

module _ (d : Disk) (directory : Inode) (entries : Buffer) (ok : FileOk d directory.pointer_block)
    (bytes : BytesOnDisk d) (few : block_count_from_size directory.size ≤ entries_blocks)
    (there : (i : ℕ)
      → i < block_count_from_size directory.size
      → id_at (block_read d directory.pointer_block) i ≢ 0) where
  abbrev pb : ℕ
  pb = directory.pointer_block

  abbrev ptr : Buffer
  ptr = block_read d pb

  abbrev count : ℕ
  count = block_count_from_size directory.size

  abbrev d1 : Disk
  d1 = write_loop count d ptr 0 entries

  abbrev surplus : ℕ
  surplus = count_ids (pointer_block_item_count - count) ptr count

  abbrev d2 : Disk
  d2 = block_delete d1 (ids_from surplus ptr count)

  low_kept : (id : ℕ) → id < data_start → block_read d1 id ≡ block_read d id
  low_kept id lt = write_loop_other count d ptr 0 entries id (λ j ge h e.
      let (a, b, c, f) = ok.ids_place j (omega arith) (there j (omega arith)) in omega arith)

  bytes_1 : BytesOnDisk d1
  bytes_1 k = rw (bitmap_cong d d1 low_kept) (bytes k)

  -- A block outside the bitmap that is not deleted is as the loop of writes left it.
  not_deleted :
      (id : ℕ)
      → data_start ≤ id
      → id < block_num
      → ((j : ℕ) → count ≤ j → j < count + surplus → id_at ptr j ≢ id)
      → block_read d2 id ≡ block_read d1 id
  not_deleted id ge lt ne =
      (block_delete-Frees d1 (ids_from surplus ptr count) bytes_1).emptied id (omega arith) lt
      ∙ rw (not_listed surplus ptr count id ne) refl

  abbrev d' : Disk
  d' = block_write d2 pb (clear (2 * surplus) ptr (2 * count))

  id_kept : (j : ℕ) → j < count → id_at (block_read d' pb) j ≡ id_at ptr j
  unfolding get_le clear
  id_kept j lt =
      let (a, b, c) = ok.own_place in
      rw (block_read-write_self d2 pb (clear (2 * surplus) ptr (2 * count)) (omega arith))
        (ground arith)

  block_back : (j : ℕ) → j < count → block_read d' (id_at ptr j) ≡ from entries (j * block_size)
  block_back j lt =
      let (a, b, c, ne) = ok.ids_place j (omega arith) (there j lt) in
      let (le, filled) = count_ids_bound (pointer_block_item_count - count) ptr count in
      block_read-write_other d2 pb (id_at ptr j) _ (λ q. ne (sym q))
      ∙ not_deleted (id_at ptr j) a (omega arith) (λ k g h e.
        absurd
          (let q = ok.ids_apart k j (omega arith) (omega arith) (filled k g h) e in omega arith))
      ∙ write_loop_block count d ptr 0 entries j
          (λ k l g h g' h' e.
            ok.ids_apart k l (omega arith) (omega arith) (there k (omega arith)) e)
          (λ k g h.
            let (a', b', c', f') = ok.ids_place k (omega arith) (there k (omega arith)) in
            omega arith)
          (omega arith) (omega arith)

  -- On a disk whose block bitmap holds bytes, for a directory whose blocks are data blocks in use,
  -- apart from each other and from the pointer block, and are there for its whole size, within the
  -- array of entries: `entries_read` after `entries_write` gets back every byte of the entries, and no
  -- data block outside the directory changes.
  pub entries_write-EntriesStored :
      EntriesStored d (entries_write d directory entries) directory entries
  unfolding entries_write entries_read
  entries_write-EntriesStored = record {
    read_back = λ scratch k lt.
        let kept = id_kept (k / block_size) (omega arith) in
        let e : k / block_size * block_size + k % block_size ≡ k = omega arith in
        let fits : ltb entries_blocks count ≡ false = ground arith in
        rw fits (
          ap some (
            read_loop_byte count d' (block_read d' pb) 0 scratch k (omega arith) (omega arith)
            ∙ ap (λ i. block_read d' i (k % block_size)) kept
            ∙ ap (λ (b : Buffer). b (k % block_size)) (block_back (k / block_size) (omega arith))
            ∙ ap entries e));
    others_kept = λ id ge lt ne out.
        let (le, filled) = count_ids_bound (pointer_block_item_count - count) ptr count in
        block_read-write_other d2 pb id _ (λ q. ne (sym q))
        ∙ not_deleted id ge lt (λ j g h. out j (omega arith))
        ∙ write_loop_other count d ptr 0 entries id (λ j g h. out j (omega arith));
  }
