-- ===== src/Fs/Dir/Insert.antt =====
-- A new entry of a directory in fslab/fs.c, and what `entries_find` says afterwards.
use ics.Common.{
  ℕ, zero, suc, ◌+◌, ◌-◌, ◌*◌, ◌^◌, ◌≤◌, ◌<◌, ◌≡◌, refl, ◌∙◌, inl, inr, Bool, true, false, ◌&&◌,
  Option, none, some, arith, ltb, leb, ◌==◌, if◌then◌else◌, ==_iff, Bool-cases, length,
}
use ics.Bytes.{Buffer, copy}
use ics.Bytes.Laws.{put_le_outside, get_le_cong, get_le-put_le}
use ics.Fs.Dir.{
  Name, entry_name_length, entry_size, entry_inode_id, normalized, same_bytes, find_loop, too_long,
  entries_find, put_name, put_entry_id, absent, hit,
}

same_bytes_cong :
    (n : ℕ) (b b' : Buffer) (off : ℕ) (name : Buffer) (at : ℕ)
    → ((k : ℕ) → off ≤ k → k < off + n → b' k ≡ b k)
    → same_bytes n b' off name at ≡ same_bytes n b off name at
unfolding same_bytes
same_bytes_cong zero b b' off name at same = refl
same_bytes_cong (suc n) b b' off name at same =
    rw
      (
        same off (omega arith) (omega arith),
        same_bytes_cong n b b' (off + 1) name (at + 1)
            (λ k g l. same k (omega arith) (omega arith)),
      )
      refl

same_bytes-equal :
    (n : ℕ) (b : Buffer) (off : ℕ) (name : Buffer) (at : ℕ)
    → ((k : ℕ) → k < n → b (off + k) ≡ name (at + k))
    → same_bytes n b off name at ≡ true
unfolding same_bytes
same_bytes-equal zero b off name at same = refl
same_bytes-equal (suc n) b off name at same =
    let a : off + 0 ≡ off = omega arith in
    let c : at + 0 ≡ at = omega arith in
    let first : b off ≡ name at = rw (a, c) at (same 0 (omega arith)) in
    let here : (b off == name at) ≡ true = (==_iff (b off) (name at)).1 first in
    let rest = same_bytes-equal n b (off + 1) name (at + 1) (λ k l.
      let p : off + 1 + k ≡ off + (k + 1) = omega arith in
      let q : at + 1 + k ≡ at + (k + 1) = omega arith in rw (p, q) (same (k + 1) (omega arith))) in
    rw (here, rest) refl

find_loop_cong :
    (n : ℕ) (e e' name : Buffer) (i : ℕ)
    → ((k : ℕ) → k < (i + n) * entry_size → e' k ≡ e k)
    → find_loop n e' name i ≡ find_loop n e name i
unfolding find_loop
find_loop_cong zero e e' name i same = refl
find_loop_cong (suc n) e e' name i same =
    rw
      (
        same_bytes_cong entry_name_length e e' (i * entry_size) name 0
            (λ k g l. same k (omega arith)),
        find_loop_cong n e e' name (i + 1) (λ k l. same k (omega arith)),
      )
      refl

-- One more entry is looked at last.
abbrev or_last : Option ℕ → Bool → ℕ → Option ℕ
or_last (some i) here last = some i
or_last none here last = if here then some last else none

find_loop-suc :
    (n : ℕ) (e name : Buffer) (i : ℕ)
    → find_loop (n + 1) e name i
      ≡ or_last
          (find_loop n e name i)
          (same_bytes entry_name_length e ((i + n) * entry_size) name 0)
          (i + n)
unfolding find_loop
find_loop-suc zero e name i = let z : i + 0 ≡ i = omega arith in rw z refl
find_loop-suc (suc n) e name i =
    let z : i + suc n ≡ i + 1 + n = omega arith in
    let one : suc n + 1 ≡ suc (n + 1) = omega arith in
    rw (one, z)
      (elim (Bool-cases (same_bytes entry_name_length e (i * entry_size) name 0)) [
        | inl t ↦ rw t refl
        | inr t ↦ rw t (find_loop-suc n e name (i + 1))
      ])

-- The loop's own result, where `entries_find` does not overrun its array.
find_loop-absent :
    (entries : Buffer) (count : ℕ) (name : Name)
    → entries_find entries count name ≡ absent
    → (too_long name ≡ false) × (find_loop count entries (normalized name) 0 ≡ none)
unfolding entries_find
find_loop-absent entries count name e = (ground (arith, e), ground (arith, e))

find_loop-hit :
    (entries : Buffer) (count : ℕ) (name : Name) (i : ℕ)
    → entries_find entries count name ≡ hit i
    → (too_long name ≡ false) × (find_loop count entries (normalized name) 0 ≡ some i)
unfolding entries_find
find_loop-hit entries count name i e = (ground (arith, e), ground (arith, e))

entries_find-of :
    (entries : Buffer) (count : ℕ) (name : Name) (i : ℕ)
    → too_long name ≡ false
    → find_loop count entries (normalized name) 0 ≡ some i
    → entries_find entries count name ≡ hit i
unfolding entries_find
entries_find-of entries count name i short e = rw (short, e) refl

module _ (entries : Buffer) (count id : ℕ) (name : Name) (fits : id < 2 ^ 16) where
  abbrev entries' : Buffer
  entries' = put_name (put_entry_id entries count id) count name

  below : (k : ℕ) → k < count * entry_size → entries' k ≡ entries k
  unfolding copy
  below k lt =
      let outside : put_entry_id entries count id k ≡ entries k =
        put_le_outside 2 entries (count * entry_size + entry_name_length) id k (omega arith) in
      ground arith

  id_there : entry_inode_id entries' count ≡ id
  unfolding copy
  id_there =
      get_le_cong 2 entries' (put_entry_id entries count id)
        (count * entry_size + entry_name_length) (λ k g l. ground arith)
      ∙ get_le-put_le 2 entries (count * entry_size + entry_name_length) id (omega arith)

  named_there :
      same_bytes entry_name_length entries' (count * entry_size) (normalized name) 0 ≡ true
  unfolding copy
  named_there =
      same_bytes-equal entry_name_length entries' (count * entry_size) (normalized name) 0 λ k lt.
        let e : 0 + (count * entry_size + k - count * entry_size) ≡ 0 + k = omega arith in
        let inside : leb (count * entry_size) (count * entry_size + k)
              && ltb (count * entry_size + k) (count * entry_size + entry_name_length)
            ≡ true =
          ground arith in
        rw (inside, e) refl

  found_or_last :
      (other : Name)
      → find_loop (count + 1) entries' (normalized other) 0
        ≡ or_last
            (find_loop count entries (normalized other) 0)
            (same_bytes entry_name_length entries' (count * entry_size) (normalized other) 0)
            count
  found_or_last other =
      let z : 0 + count ≡ count = omega arith in
      find_loop-suc count entries' (normalized other) 0
      ∙ rw
          (
            z,
            find_loop_cong count entries entries' (normalized other) 0
                (λ k lt. below k (omega arith)),
          )
          refl

  -- When an entry with an inode id and a name of at most 24 bytes that no entry has is put behind the
  -- last entry of a directory: the entry has the id, the name is found at the new index, and every name
  -- that was found is found at the same index with the same inode id.
  pub put_name-entries_find :
      (other : Name) (i : ℕ)
      → length name ≤ entry_name_length
      → entries_find entries count name ≡ absent
      → entries_find entries count other ≡ hit i
      → i < count
      → (entry_inode_id entries' count ≡ id)
        × (entries_find entries' (count + 1) name ≡ hit count)
        × (entries_find entries' (count + 1) other ≡ hit i)
        × (entry_inode_id entries' i ≡ entry_inode_id entries i)
  put_name-entries_find other i short new e lt = (
    id_there,
    entries_find-of entries' (count + 1) name count (ground arith)
        (found_or_last name ∙ rw ((find_loop-absent entries count name new).1, named_there) refl),
    let (short', e') = find_loop-hit entries count other i e in
        entries_find-of entries' (count + 1) other i short' (found_or_last other ∙ rw e' refl),
    get_le_cong 2 entries' entries (i * entry_size + entry_name_length)
        (λ k g l. below k (omega arith)),
  )
