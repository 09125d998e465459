-- ===== src/Fs/File/Write.antt =====
-- The bytes that `fs_write` puts into the blocks of a file.
use ics.Common.{
  ℕ, ◌+◌, ◌-◌, ◌*◌, ◌/◌, ◌%◌, ◌≤◌, ◌<◌, ◌≡◌, refl, sym, ap, ◌∙◌, ◌≢◌, inl, inr, true, false, ◌&&◌,
  List, [], ◌∷◌, arith, ltb, leb, ◌==◌, if◌then◌else◌, ==_iff, Bool-cases, All,
}
use ics.Bytes.{Buffer, copy}
use ics.Fs.Disk.{block_size, block_num, Disk, block_read, block_write, pointer_block_item_count}
use ics.Fs.Disk.Many.{block_read-write_self, block_read-write_other}
use ics.Fs.Inode.{id_at}
use ics.Fs.File.{in_pointer_block, count_missing, write_pieces, Piece}
use ics.Fs.File.Blocks.{file_byte}
use ics.Fs.File.Assign.{left_after, assign_one, assign, one_round, assign-Assigned, Assignable}

-- The rounds of the second loop of `fs_write`, once all ids are known.
unfoldable pub write_all : Disk → Buffer → List Piece → Buffer → ℕ → Disk
write_all d ptr [] buffer at = d
write_all d ptr (p ∷ ps) buffer at =
    let id = id_at ptr p.index in
    write_all (block_write d id (copy p.bytes (block_read d id) p.start buffer at)) ptr ps buffer
      (at + p.bytes)

-- Filling in the ids and writing the blocks can be done one after the other.
pub write_pieces-split :
    (d : Disk) (ptr : Buffer) (ids : List ℕ) (n : ℕ) (ps : List Piece) (buffer : Buffer) (at : ℕ)
    → Assignable ptr ids n
    → count_missing ptr ps ≤ n
    → in_pointer_block ps ≡ true
    → write_pieces d ptr ids n ps buffer at
      ≡ (write_all d (assign ptr ids n ps) ps buffer at, assign ptr ids n ps)
unfolding write_pieces write_all assign
write_pieces-split d ptr ids n [] buffer at a enough inside = refl
write_pieces-split d ptr ids n (p ∷ ps) buffer at a enough inside =
    let (a', enough', inside', known) = one_round ptr ids n p ps a enough inside in
    let ptr1 = assign_one ptr ids n p.index in
    let n1 = left_after ptr n p.index in
    let id = id_at ptr1 p.index in
    let same = (assign-Assigned ptr1 ids n1 ps a' enough' inside').old_kept p.index known in
    write_pieces-split (block_write d id (copy p.bytes (block_read d id) p.start buffer at)) ptr1
      ids n1 ps buffer (at + p.bytes) a' enough' inside'
    ∙ ap
        (λ (k : ℕ). (
          write_all (block_write d k (copy p.bytes (block_read d k) p.start buffer at))
              (assign ptr1 ids n1 ps) ps buffer (at + p.bytes),
          assign ptr1 ids n1 ps,
        ))
        (sym same)

-- The file's blocks are apart from each other, on the disk, and there for every piece.
pub record Writable (ptr : Buffer) (ps : List Piece) : Type 0 where
  pub there : All (λ p. (id_at ptr p.index ≢ 0) × (id_at ptr p.index < block_num)) ps
  pub apart :
      (i j : ℕ)
      → i < pointer_block_item_count
      → j < pointer_block_item_count
      → id_at ptr i ≢ 0
      → id_at ptr i ≡ id_at ptr j
      → i ≡ j

pub one_write :
    (d : Disk) (ptr : Buffer) (p : Piece) (ps : List Piece) (buffer : Buffer) (at origin pos' : ℕ)
    → Writable ptr (p ∷ ps)
    → p.index * block_size + p.start ≡ origin
    → p.start + p.bytes ≤ block_size
    → p.index < pointer_block_item_count
    → pos' < pointer_block_item_count * block_size
    → file_byte
        (block_write d
          (id_at ptr p.index)
          (copy p.bytes (block_read d (id_at ptr p.index)) p.start buffer at))
        ptr
        pos'
      ≡ (if leb origin pos' && ltb pos' (origin + p.bytes)
          then buffer (at + (pos' - origin))
          else file_byte d ptr pos')
unfolding copy
one_write d ptr p ps buffer at origin pos' w e inside lt in_file =
    let id = id_at ptr p.index in
    let block = copy p.bytes (block_read d id) p.start buffer at in
    elim (Bool-cases (p.index == pos' / block_size)) [
      | inl t ↦
          let same : p.index ≡ pos' / block_size = (==_iff p.index (pos' / block_size)).0 t in
          let read : block_read (block_write d id block) id ≡ block =
            block_read-write_self d id block w.there.0.1 in
          let here : block (pos' % block_size) ≡ (
              if leb origin pos' && ltb pos' (origin + p.bytes)
              then buffer (at + (pos' - origin))
              else block_read d id (pos' % block_size)) =
            at_offset (pos' % block_size) (omega arith) in
          ap (λ k. block_read (block_write d id block) (id_at ptr k) (pos' % block_size)) (sym same)
          ∙ ap (λ (b : Buffer). b (pos' % block_size)) read
          ∙ here
          ∙ ap
              (λ k.
                if leb origin pos' && ltb pos' (origin + p.bytes)
                then buffer (at + (pos' - origin))
                else block_read d (id_at ptr k) (pos' % block_size))
              same
      | inr t ↦
          let ne : p.index ≢ pos' / block_size =
            λ q. cc ((==_iff p.index (pos' / block_size)).1 q) in
          let other : id ≢ id_at ptr (pos' / block_size) =
            λ q. ne (w.apart p.index (pos' / block_size) lt (omega arith) w.there.0.0 q) in
          let outside : leb origin pos' && ltb pos' (origin + p.bytes) ≡ false = ground arith in
          rw (block_read-write_other d id (id_at ptr (pos' / block_size)) block other, outside)
    ]
  where
    at_offset :
        (o : ℕ)
        → p.index * block_size + o ≡ pos'
        → copy p.bytes (block_read d (id_at ptr p.index)) p.start buffer at o ≡ (
            if leb origin pos' && ltb pos' (origin + p.bytes)
            then buffer (at + (pos' - origin))
            else block_read d (id_at ptr p.index) o)
    at_offset o q =
        let same_test : leb p.start o && ltb o (p.start + p.bytes)
            ≡ leb origin pos' && ltb pos' (origin + p.bytes) =
          ground arith in
        let same_place : o - p.start ≡ pos' - origin = omega arith in rw (same_test, same_place)
