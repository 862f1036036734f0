-- ===== src/Fuse/Entries.antt =====
-- The handlers of crates/pfs3-fuse/src/main.rs that change directories: mkdir, create, unlink, rmdir, rename.
use pfs.Prelude.{ℕ, List, [], true, false, Option, none, some}
use pfs.Error.{Str}
use pfs.Exec.{Exec}
use pfs.Io.{BlockDevice}
use pfs.Dir.{find_name}
use pfs.Volume.{list_dir_by_anode}
use pfs.Writer.Files.{create_dir_in, write_file_in, delete_in, rename_in}
use pfs.Fuse.Maps.{ino_key, name_key, get, insert, remove, update}
use pfs.Fuse.Reply.{
  Handler, Errno, enoent, eio, eperm, enotempty, answer, gets, some_or, ok_or, modify, require,
  ◌>>=◌, ◌>>◌,
}
use pfs.Fuse.Types.{FsInner, Pfs3Fs, FileAttr, InodeInfo, calling, writing, is_directory}
use pfs.Fuse.Deldir.{rebuild_deldir}
use pfs.Writer.State.{Writer}
use pfs.Fuse.Reads.{enter}

-- The anode of an inode that is a directory.
abbrev pub directory_anode : Option InodeInfo → Option ℕ
directory_anode none = none
directory_anode (some info) = elim (is_directory info.attr.kind) [
  | true ↦ some info.anode
  | false ↦ none
]

abbrev pub drop_inode : Option ℕ → List (ℕ × InodeInfo) → List (ℕ × InodeInfo)
drop_inode none inodes = inodes
drop_inode (some ino) inodes = remove ino inodes

abbrev pub both : Option Str → Option Str → Option (Str × Str)
both (some a) (some b) = some (a, b)
both _ _ = none

module _ {D : Type 0} where
  -- Forget a name and the inode that it stood for.
  abbrev pub forget : ℕ → Str → FsInner D → FsInner D
  forget parent name s = record s {
    inodes = drop_inode (get (parent, name) s.name_cache) s.inodes;
    name_cache = remove (parent, name) s.name_cache;
  }

  abbrev pub move_inode : ℕ → Str → Option ℕ → FsInner D → FsInner D
  move_inode newparent dst_name none s = s
  move_inode newparent dst_name (some ino) s = record s {
    inodes = update ino (λ info. record info { name = dst_name; parent_ino = newparent }) s.inodes;
    name_cache = insert (newparent, dst_name) ino s.name_cache;
  }

  -- The inode gets its new name and parent, and the old name is forgotten.
  abbrev pub move_name : ℕ → Str → ℕ → Str → FsInner D → FsInner D
  move_name parent src_name newparent dst_name s =
      let s = move_inode newparent dst_name (get (parent, src_name) s.name_cache) s in
      record s { name_cache = remove (parent, src_name) s.name_cache }

module _ {D : Type 0} (device : BlockDevice D) (fs : Pfs3Fs) where
  -- A method of the writer, with its error turned into an error number.
  abbrev pub write_or : {A : Type 0} → Exec (Writer D) A → Errno → Handler (FsInner D) A
  write_or m e = do done ← writing m; result ← some_or done eperm; ok_or result e

  -- Read the directory again to find the new entry.
  unfoldable pub find_new : ℕ → ℕ → Str → Handler (FsInner D) FileAttr
  unfolding list_dir_by_anode find_name enter
  find_new parent parent_anode name = do
    listed ← calling (list_dir_by_anode device parent_anode)
    entries ← ok_or listed eio
    entry ← some_or (find_name name entries) eio
    enter device fs parent name entry

  unfoldable pub mkdir : ℕ → Option Str → Handler (FsInner D) FileAttr
  unfolding create_dir_in find_new
  mkdir parent name = do
    require fs.writable eperm
    name_str ← some_or name eio
    inner ← gets (λ s. s)
    parent_anode ← some_or (directory_anode (get parent inner.inodes)) enoent
    write_or (create_dir_in device parent_anode name_str) eio
    find_new parent parent_anode name_str

  abbrev open_empty : ℕ → ℕ → Str → Handler (FsInner D) (Unit {0})
  open_empty ino parent_anode name = modify (λ s. record s {
    write_bufs =
        insert ino (record { parent_anode = parent_anode; file_name = name; content = [] })
          s.write_bufs;
  })

  -- The new file is open for writing, with an empty buffer.
  unfoldable pub create : ℕ → Option Str → Handler (FsInner D) FileAttr
  unfolding write_file_in find_new
  create parent name = do
    require fs.writable eperm
    name_str ← some_or name eio
    inner ← gets (λ s. s)
    parent_anode ← some_or (directory_anode (get parent inner.inodes)) enoent
    write_or (write_file_in device parent_anode name_str []) eio
    attr ← find_new parent parent_anode name_str
    open_empty attr.ino parent_anode name_str
    answer attr

  -- What unlink and rmdir share; they differ in the error number of a failed deletion.
  unfoldable pub delete_entry : Errno → ℕ → Option Str → Handler (FsInner D) (Unit {0})
  unfolding delete_in
  delete_entry failed parent name = do
    require fs.writable eperm
    name_str ← some_or name eio
    inner ← gets (λ s. s)
    info ← some_or (get parent inner.inodes) enoent
    write_or (delete_in device info.anode name_str) failed
    modify (forget parent name_str)

  unfoldable pub unlink : ℕ → Option Str → Handler (FsInner D) (Unit {0})
  unfolding delete_entry rebuild_deldir
  unlink parent name = do delete_entry eio parent name; rebuild_deldir device

  unfoldable pub rmdir : ℕ → Option Str → Handler (FsInner D) (Unit {0})
  unfolding delete_entry
  rmdir parent name = delete_entry enotempty parent name

  unfoldable pub rename : ℕ → Option Str → ℕ → Option Str → Handler (FsInner D) (Unit {0})
  unfolding rename_in
  rename parent name newparent newname = do
    require fs.writable eperm
    (src_name, dst_name) ← some_or (both name newname) eio
    inner ← gets (λ s. s)
    src ← some_or (get parent inner.inodes) enoent
    dst ← some_or (get newparent inner.inodes) enoent
    write_or (rename_in device src.anode src_name dst.anode dst_name) eio
    modify (move_name parent src_name newparent dst_name)
