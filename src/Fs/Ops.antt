-- ===== src/Fs/Ops.antt =====
-- The operations of fslab/fs.c on the tree of directories, and on attributes.
use ics.Common.{
  ℕ, zero, suc, ◌+◌, ◌-◌, ◌*◌, Bool, true, false, not, ◌&&◌, ◌||◌, Option, none, some, List, [],
  ◌∷◌, ltb, ◌==◌, if◌then◌else◌,
}
use ics.Bytes.{Buffer}
use ics.Fs.Disk.{block_size, block_num, Disk, inode_num, data_num}
use ics.Fs.Bitmap.{bitmap_count, block_bitmap_read, inode_bitmap_read}
use ics.Fs.Alloc.{
  ◌>>=◌, block_seek, inode_new, inode_seek, Out, enospc, enotdir, enoent, eexist, done, failed,
  faulted,
}
use ics.Fs.Inode.{inode_write, inode_initialize, inode_finalize}
use ics.Fs.Dir.{
  Name, entry_name_length, entry_size, entries_count, entry_inode_id, entries_read, entries_extend,
  entries_write, entries_find, put_name, put_entry_id, drop_entry, overrun, absent, hit,
}
use ics.Fs.Names.{resolve_path, resolve_parent_path, Parent}

-- The user and the group are the arguments `uid` and `gid`, from `getuid` and `getgid`.
pub record Stat : Type 0 where
  pub st_mode : ℕ
  pub st_nlink : ℕ
  pub st_uid : ℕ
  pub st_gid : ℕ
  pub st_size : ℕ
  pub st_atime : ℕ
  pub st_mtime : ℕ
  pub st_ctime : ℕ

abbrev pub dirmode : ℕ
dirmode = 0o40000 + 0o755

abbrev pub regmode : ℕ
regmode = 0o100000 + 0o644

unfoldable pub fs_getattr : Disk → Buffer → ℕ → ℕ → Name → Out Stat
fs_getattr d scratch uid gid path = resolve_path d scratch path >>= λ found d.
    let inode = found.0 in
    done
      (record {
        st_mode = if inode.is_directory then dirmode else regmode;
        st_nlink = 1;
        st_uid = uid;
        st_gid = gid;
        st_size = inode.size;
        st_atime = inode.atime;
        st_mtime = inode.mtime;
        st_ctime = inode.ctime;
      })
      d

-- The C string in a name of at most `n` bytes.
unfoldable pub name_at : ℕ → Buffer → ℕ → Name
name_at zero b off = []
name_at (suc n) b off = let rest = name_at n b (off + 1) in if b off == 0 then [] else b off ∷ rest

-- The names that `filler` gets, `n` entries being left from `i` on.
unfoldable pub names_from : ℕ → Buffer → ℕ → List Name
names_from zero entries i = []
names_from (suc n) entries i =
    name_at entry_name_length entries (i * entry_size) ∷ names_from n entries (i + 1)

-- An operation on the entries that `entries_read` returns.
abbrev pub with_entries {ℓ} : {A : Type ℓ} → Option Buffer → (Buffer → Out A) → Out A
with_entries none f = faulted
with_entries (some entries) f = f entries

unfoldable pub fs_readdir : Disk → Buffer → ℕ → Name → Out (List Name)
fs_readdir d scratch now path = resolve_path d scratch path >>= λ found d.
    let (inode, inode_id) = found in
    if not inode.is_directory
    then failed enotdir d
    else with_entries (entries_read d inode scratch) λ entries.
      done (names_from (entries_count inode) entries 0)
        (inode_write d inode_id (record inode { atime = now }))

-- The steps of `make_directory_or_file` once the parent is known. `entries_read` comes before
-- `entries_extend`, and `inode_new` before `inode_initialize`; `entries[count]` may lie behind the array.
unfoldable pub make_in : Disk → Buffer → ℕ → Parent → Bool → Out (Unit {0})
make_in d scratch now parent is_directory =
    let directory = parent.directory in
    let count = entries_count directory in
    with_entries (entries_read d directory scratch) λ entries. entries_extend d directory >>= λ _ d.
    inode_new d >>= λ id d.
    if not (ltb count inode_num)
    then faulted
    else let entries' = put_name (put_entry_id entries count id) count parent.basename in
      inode_initialize d id is_directory now >>= λ _ d.
      let directory' = record directory {
        mtime = now;
        ctime = now;
        size = directory.size + entry_size;
      } in
      done tt (entries_write (inode_write d parent.directory_id directory') directory' entries')

unfoldable pub make_directory_or_file : Disk → Buffer → ℕ → Name → Bool → Out (Unit {0})
make_directory_or_file d scratch now path is_directory =
    if not (inode_seek 1 d) || not (block_seek 2 d)
    then failed enospc d
    else resolve_parent_path d scratch path >>= λ parent d.
        make_in d scratch now parent is_directory

unfoldable pub fs_mknod : Disk → Buffer → ℕ → Name → Out (Unit {0})
fs_mknod d scratch now path = make_directory_or_file d scratch now path false

unfoldable pub fs_mkdir : Disk → Buffer → ℕ → Name → Out (Unit {0})
fs_mkdir d scratch now path = make_directory_or_file d scratch now path true

-- The steps of `remove` once the entry at index `i` is found: the entries are written before the
-- directory's inode.
unfoldable pub remove_at : Disk → ℕ → Parent → Buffer → ℕ → Out (Unit {0})
remove_at d now parent entries i =
    let directory = parent.directory in
    let entries' = drop_entry entries i (entries_count directory) in
    inode_finalize d (entry_inode_id entries i) >>= λ _ d.
    let directory' = record directory {
      size = directory.size - entry_size;
      atime = now;
      mtime = now;
    } in
    done tt (inode_write (entries_write d directory' entries') parent.directory_id directory')

-- `remove`, `fs_rmdir` and `fs_unlink` are one function.
unfoldable pub remove : Disk → Buffer → ℕ → Name → Out (Unit {0})
remove d scratch now path = resolve_parent_path d scratch path >>= λ parent d.
    with_entries (entries_read d parent.directory scratch) λ entries.
      elim (entries_find entries (entries_count parent.directory) parent.basename) [
        | overrun ↦ faulted
        | absent ↦ failed enoent d
        | hit i ↦ remove_at d now parent entries i
      ]

unfoldable pub fs_rmdir : Disk → Buffer → ℕ → Name → Out (Unit {0})
fs_rmdir d scratch now path = remove d scratch now path

unfoldable pub fs_unlink : Disk → Buffer → ℕ → Name → Out (Unit {0})
fs_unlink d scratch now path = remove d scratch now path

unfoldable pub fs_utime : Disk → Buffer → ℕ → Name → ℕ → ℕ → Out (Unit {0})
fs_utime d scratch now path actime modtime = resolve_path d scratch path >>= λ found d.
    let (inode, inode_id) = found in
    done tt (inode_write d inode_id (record inode { ctime = now; atime = actime; mtime = modtime }))

pub record Statvfs : Type 0 where
  pub f_bsize : ℕ
  pub f_blocks : ℕ
  pub f_bfree : ℕ
  pub f_files : ℕ
  pub f_ffree : ℕ
  pub f_namemax : ℕ

-- `f_bavail` and `f_favail` are `f_bfree` and `f_ffree`.
unfoldable pub fs_statfs : Disk → Statvfs
fs_statfs d = record {
  f_bsize = block_size;
  f_blocks = data_num;
  f_bfree = data_num - bitmap_count (block_bitmap_read d) block_num;
  f_files = inode_num;
  f_ffree = inode_num - 1 - bitmap_count (inode_bitmap_read d) inode_num;
  f_namemax = entry_name_length;
}

-- The disk when an operation ends, with or without an error.
abbrev pub disk_after {ℓ} : {A : Type ℓ} → Out A → Option Disk
disk_after (done a d) = some d
disk_after (failed e d) = some d
disk_after faulted = none

-- `fs_rename` once both parents are known, within one directory: the entry takes the new name.
unfoldable pub rename_within : Disk → ℕ → Parent → Name → Buffer → ℕ → Out (Unit {0})
rename_within d now src basename entries i =
    let directory = record src.directory { mtime = now; atime = now } in
    done tt (
      inode_write (entries_write d directory (put_name entries i basename)) src.directory_id
        directory)

-- From one directory to another: a new entry there, then the old one is dropped here.
unfoldable pub rename_across : Disk → Buffer → ℕ → Parent → Parent → Buffer → ℕ → Out (Unit {0})
rename_across d dst_scratch now src dst entries i =
    with_entries (entries_read d dst.directory dst_scratch) λ dst_entries.
      let dst_count = entries_count dst.directory in
      elim (entries_find dst_entries dst_count dst.basename) [
        | overrun ↦ faulted
        | hit j ↦ failed eexist d
        | absent ↦ entries_extend d dst.directory >>= λ _ d.
            if not (ltb dst_count inode_num)
            then faulted
            else let dst_entries' =
                put_entry_id (put_name dst_entries dst_count dst.basename) dst_count
                  (entry_inode_id entries i) in
              let dst' = record dst.directory {
                mtime = now;
                atime = now;
                size = dst.directory.size + entry_size;
              } in
              let d1 = inode_write (entries_write d dst' dst_entries') dst.directory_id dst' in
              let src' = record src.directory {
                mtime = now;
                atime = now;
                size = src.directory.size - entry_size;
              } in
              let entries' = drop_entry entries i (entries_count src.directory) in
              done tt (inode_write (entries_write d1 src' entries') src.directory_id src')
      ]

-- The part behind `setjmp`. The arrays `src_entries` and `dst_entries` are static too.
unfoldable pub rename_entry : Disk → Buffer → Buffer → Buffer → ℕ → Name → Name → Out (Unit {0})
rename_entry d scratch src_scratch dst_scratch now oldpath newpath =
    resolve_parent_path d scratch oldpath >>= λ src d.
    resolve_parent_path d scratch newpath >>= λ dst d.
    with_entries (entries_read d src.directory src_scratch) λ entries.
      elim (entries_find entries (entries_count src.directory) src.basename) [
        | overrun ↦ faulted
        | absent ↦ failed enoent d
        | hit i ↦
            if src.directory_id == dst.directory_id
            then rename_within d now src dst.basename entries i
            else rename_across d dst_scratch now src dst entries i
      ]

-- `strcmp(oldpath, newpath) == 0`
unfoldable pub same_path : Name → Name → Bool
same_path [] [] = true
same_path [] (d ∷ ds) = false
same_path (c ∷ cs) [] = false
same_path (c ∷ cs) (d ∷ ds) = c == d && same_path cs ds

-- The result of `fs_unlink` is not looked at: the renaming goes on with the disk that it leaves.
unfoldable pub fs_rename : Disk → Buffer → Buffer → Buffer → ℕ → Name → Name → Out (Unit {0})
fs_rename d scratch src_scratch dst_scratch now oldpath newpath =
    if same_path oldpath newpath
    then done tt d
    else elim (disk_after (fs_unlink d scratch now newpath)) [
      | none ↦ faulted
      | some d' ↦ rename_entry d' scratch src_scratch dst_scratch now oldpath newpath
    ]
