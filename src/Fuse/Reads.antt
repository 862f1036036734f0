-- ===== src/Fuse/Reads.antt =====
-- The reading handlers of crates/pfs3-fuse/src/main.rs: getattr, lookup, readdir, read, readlink, statfs. A
-- name is `none` where `OsStr::to_str` finds that it is not UTF-8.
use pfs.Prelude.{
  ℕ, ◌+◌, List, [], ◌∷◌, ◌++◌, Bool, ◌&&◌, Option, none, some, ◌==◌, if◌then◌else◌, drop,
}
use pfs.Error.{Str, chars}
use pfs.Io.{BlockDevice}
use pfs.Util.Names.{name_eq_ci}
use pfs.Ondisk.DirEntry.{DirEntry}
use pfs.Dir.{find_name}
use pfs.Volume.{list_dir_by_anode, read_file_range, read_file_data, fnsize}
use pfs.Fuse.Maps.{ino_key, name_key, str_eq, get, insert}
use pfs.Fuse.Reply.{
  Handler, enoent, eio, enotdir, answer, fail, gets, some_or, ok_or, modify, ◌>>=◌, ◌>>◌,
}
use pfs.Fuse.Types.{
  FsInner, Pfs3Fs, FileAttr, FileType, directory, regular_file, InodeInfo, DeldirEntry, attr_of,
  blocks_of, fuse_root_ino, trashcan_ino, has_deldir, trashcan_attr, make_attr, calling, vol,
  is_directory,
}

-- One line of a listing: the inode, the offset of the next line, the type and the name.
pub record Dirent : Type 0 where
  pub ino : ℕ
  pub offset : ℕ
  pub kind : FileType
  pub name : Str

-- `statfs`: blocks, free blocks (twice), block size and name length; no file counts.
pub record Statfs : Type 0 where
  pub blocks : ℕ
  pub bfree : ℕ
  pub bavail : ℕ
  pub bsize : ℕ
  pub namelen : ℕ

abbrev pub trashcan_name : Str
trashcan_name = chars ".Trashcan"

-- The lines from `i` on.
unfoldable pub numbered_from : ℕ → List (ℕ × FileType × Str) → List Dirent
numbered_from i [] = []
numbered_from i ((ino, kind, name) ∷ full) =
    record { ino = ino; offset = i + 1; kind = kind; name = name } ∷ numbered_from (i + 1) full

-- `reply.add` until it says that the buffer is full, which `full` decides from the lines before.
unfoldable pub add_all : (List Dirent → Dirent → Bool) → List Dirent → List Dirent → List Dirent
add_all full added [] = added
add_all full added (d ∷ lines) =
    let rest = add_all full (added ++ d ∷ []) lines in if full added d then added else rest

unfoldable pub find_deleted : Str → List DeldirEntry → Option DeldirEntry
unfolding name_eq_ci
find_deleted name [] = none
find_deleted name (de ∷ deldir) =
    if name_eq_ci de.display_name name then some de else find_deleted name deldir

module _ {D : Type 0} (device : BlockDevice D) (fs : Pfs3Fs) where
  unfoldable pub getattr : ℕ → Handler (FsInner D) FileAttr
  unfolding has_deldir trashcan_attr
  getattr ino = do
    inner ← gets (λ s. s)
    if ino == trashcan_ino && has_deldir inner
        then answer (trashcan_attr fs)
        else do info ← some_or (get ino inner.inodes) enoent; answer info.attr

  -- The inode of a deleted file, which cannot be written.
  unfoldable pub deleted_info : DeldirEntry → InodeInfo
  deleted_info de = record {
    attr =
        attr_of fs de.ino de.size (blocks_of de.size 512) de.time regular_file 0o444 1
          fs.block_size;
    anode = de.anode;
    parent_ino = trashcan_ino;
    amiga_protection = 0;
    name = de.display_name;
  }

  -- Remember an inode under a name in its parent.
  abbrev pub remember : ℕ → Str → ℕ → InodeInfo → Handler (FsInner D) FileAttr
  remember parent name ino info = do
    modify (λ s. record s {
      inodes = insert ino info s.inodes;
      name_cache = insert (parent, name) ino s.name_cache;
    })
    answer info.attr

  unfoldable pub enter : ℕ → Str → DirEntry → Handler (FsInner D) FileAttr
  unfolding make_attr
  enter parent name entry =
      let (ino, info) = make_attr fs entry parent in remember parent name ino info

  unfoldable pub lookup_deleted : Str → Handler (FsInner D) FileAttr
  unfolding deleted_info find_deleted
  lookup_deleted name = do
    inner ← gets (λ s. s)
    de ← some_or (find_deleted name inner.deldir) enoent
    remember trashcan_ino name de.ino (deleted_info de)

  unfoldable pub lookup_on_disk : ℕ → Str → Handler (FsInner D) FileAttr
  unfolding list_dir_by_anode find_name enter
  lookup_on_disk parent name = do
    inner ← gets (λ s. s)
    info ← some_or (get parent inner.inodes) enoent
    listed ← calling (list_dir_by_anode device info.anode)
    entries ← ok_or listed eio
    entry ← some_or (find_name name entries) enoent
    enter parent name entry

  -- The inode that the name cache gives, if the inode table still has it.
  abbrev pub cached : ℕ → Str → FsInner D → Option InodeInfo
  cached parent name inner = elim (get (parent, name) inner.name_cache) [
    | none ↦ none
    | some ino ↦ get ino inner.inodes
  ]

  unfoldable pub lookup_cached : ℕ → Str → Option InodeInfo → Handler (FsInner D) FileAttr
  unfolding lookup_on_disk
  lookup_cached parent name (some info) = answer info.attr
  lookup_cached parent name none = lookup_on_disk parent name

  unfoldable pub lookup : ℕ → Option Str → Handler (FsInner D) FileAttr
  unfolding has_deldir trashcan_attr lookup_deleted lookup_cached str_eq
  lookup parent name = do
    name_str ← some_or name enoent
    inner ← gets (λ s. s)
    if parent == fuse_root_ino && str_eq name_str trashcan_name && has_deldir inner
        then answer (trashcan_attr fs)
        else if parent == trashcan_ino && has_deldir inner
        then lookup_deleted name_str
        else lookup_cached parent name_str (cached parent name_str inner)

  abbrev pub deldir_lines : List DeldirEntry → List (ℕ × FileType × Str)
  deldir_lines [] = []
  deldir_lines (de ∷ deldir) = (de.ino, regular_file, de.display_name) ∷ deldir_lines deldir

  -- The lines of the entries, whose inodes are remembered.
  unfoldable pub entry_lines : ℕ → List DirEntry → Handler (FsInner D) (List (ℕ × FileType × Str))
  unfolding make_attr
  entry_lines ino [] = answer []
  entry_lines ino (entry ∷ entries) = do
    let (child_ino, info) = make_attr fs entry ino
    modify (λ s. record s { inodes = insert child_ino info s.inodes })
    rest ← entry_lines ino entries
    answer ((child_ino, info.attr.kind, entry.name) ∷ rest)

  abbrev pub dots : ℕ → ℕ → List (ℕ × FileType × Str)
  dots ino parent_ino = (ino, directory, b'.' ∷ []) ∷ (parent_ino, directory, b'.' ∷ b'.' ∷ []) ∷ []

  unfoldable pub list_directory : ℕ → Handler (FsInner D) (List (ℕ × FileType × Str))
  unfolding list_dir_by_anode entry_lines has_deldir
  list_directory ino = do
    inner ← gets (λ s. s)
    info ← some_or (get ino inner.inodes) enoent
    if is_directory info.attr.kind
        then (do
          listed ← calling (list_dir_by_anode device info.anode)
          entries ← ok_or listed eio
          lines ← entry_lines ino entries
          inner ← gets (λ s. s)
          answer (
              dots ino info.parent_ino
              ++ lines
              ++ (if ino == fuse_root_ino && has_deldir inner
                  then (trashcan_ino, directory, trashcan_name) ∷ []
                  else [])))
        else fail enotdir

  unfoldable pub full_listing : ℕ → Handler (FsInner D) (List (ℕ × FileType × Str))
  unfolding has_deldir list_directory
  full_listing ino = do
    inner ← gets (λ s. s)
    if ino == trashcan_ino && has_deldir inner
        then answer (dots trashcan_ino fuse_root_ino ++ deldir_lines inner.deldir)
        else list_directory ino

  -- `full` is the answer of `reply.add`, and `offset` how many lines the caller has seen.
  unfoldable pub readdir : (List Dirent → Dirent → Bool) → ℕ → ℕ → Handler (FsInner D) (List Dirent)
  unfolding full_listing numbered_from add_all
  readdir full ino offset = do
    listing ← full_listing ino
    answer (add_all full [] (drop offset (numbered_from 0 listing)))

  unfoldable pub read : ℕ → ℕ → ℕ → Handler (FsInner D) (List ℕ)
  unfolding read_file_range
  read ino offset size = do
    inner ← gets (λ s. s)
    info ← some_or (get ino inner.inodes) enoent
    result ← calling (read_file_range device info.anode info.attr.size offset size)
    ok_or result eio

  unfoldable pub readlink : ℕ → Handler (FsInner D) (List ℕ)
  unfolding read_file_data
  readlink ino = do
    inner ← gets (λ s. s)
    info ← some_or (get ino inner.inodes) enoent
    result ← calling (read_file_data device info.anode info.attr.size)
    ok_or result eio

  unfoldable pub statfs : Handler (FsInner D) Statfs
  unfolding vol fnsize
  statfs = do
    inner ← gets (λ s. s)
    let v = vol inner.access
    answer (record {
      blocks = v.rootblock.disksize;
      bfree = v.rootblock.blocksfree;
      bavail = v.rootblock.blocksfree;
      bsize = device.block_size v.env.dev;
      namelen = fnsize device v;
    })
