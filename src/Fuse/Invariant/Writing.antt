-- ===== src/Fuse/Invariant/Writing.antt =====
-- About the inode table under the handlers that change the volume.
use pfs.Prelude.{ℕ, List, [], ◌≡◌, refl, Option, none, some}
use pfs.Error.{Str}
use pfs.Exec.{Exec}
use pfs.Io.{BlockDevice}
use pfs.Dir.{find_name}
use pfs.Volume.{list_dir_by_anode}
use pfs.Writer.State.{Writer}
use pfs.Writer.Files.{create_dir_in, write_file_in, delete_in, rename_in}
use pfs.Fuse.Reply.{Errno, enoent, eio, eperm, enotempty}
use pfs.Fuse.Safe.{Safe, Any, then_any, then_some, then_ok, then_require, ok_or-Safe}
use pfs.Fuse.Maps.{ino_key, name_key, get, remove, update}
use pfs.Fuse.Types.{FsInner, Pfs3Fs, InodeInfo, WriteBuf, calling, writing}
use pfs.Fuse.Entries.{
  directory_anode, write_or, find_new, mkdir, create, drop_inode, delete_entry, unlink, rmdir,
  move_inode, both, rename,
}
use pfs.Fuse.Invariant.{AllOwn, AllOwn-remove, AllOwn-update, FsInvariant}
use pfs.Fuse.Invariant.Reading.{AnyAttr, enter-Safe}

AllOwn-drop_inode :
    (o : Option ℕ) (inodes : List (ℕ × InodeInfo)) → AllOwn inodes → AllOwn (drop_inode o inodes)
AllOwn-drop_inode none inodes h = h
AllOwn-drop_inode (some ino) inodes h = AllOwn-remove ino inodes h

abbrev pub AnyUnit : Unit {0} → Type 0
AnyUnit u = Unit

module _ {D : Type 0} (device : BlockDevice D) (fs : Pfs3Fs) (P : FsInner D → Type 0)
    (inv : FsInvariant device P) where
  -- A change of the inodes that keeps their numbers, with any change of the other tables.
  pub updated :
      (s : FsInner D) (ino : ℕ) (f : InodeInfo → InodeInfo) (cache : List ((ℕ × Str) × ℕ))
      (bufs : List (ℕ × WriteBuf))
      → P s
      → ((info : InodeInfo) → (f info).attr.ino ≡ info.attr.ino)
      → P (record s { inodes = update ino f s.inodes; name_cache = cache; write_bufs = bufs })
  updated s ino f cache bufs p e =
      inv.tables s _ cache bufs p (AllOwn-update ino f s.inodes e (inv.valid s p).own)

  pub same_inodes :
      (s : FsInner D) (cache : List ((ℕ × Str) × ℕ)) (bufs : List (ℕ × WriteBuf))
      → P s
      → P (record s { name_cache = cache; write_bufs = bufs })
  same_inodes s cache bufs p = inv.tables s s.inodes cache bufs p (inv.valid s p).own

  write_or-Safe :
      {A : Type 0} (m : Exec (Writer D) A) (e : Errno) → Safe P Any (write_or device fs m e)
  write_or-Safe m e =
      then_any P Any Any (writing m) _ (inv.written m)
        (λ done _. then_some P Any done eperm _ (λ result _. ok_or-Safe P result e))

  find_new-Safe :
      (parent anode : ℕ) (name : Str) → Safe P AnyAttr (find_new device fs parent anode name)
  unfolding find_new
  find_new-Safe parent anode name =
      then_any P AnyAttr Any (calling (list_dir_by_anode device anode)) _ (inv.listing anode)
        (λ listed _. then_ok P AnyAttr listed eio _ (λ entries.
          then_some P AnyAttr (find_name name entries) eio _
            (λ entry _. enter-Safe device fs P inv parent name entry)))

  pub mkdir-Safe : (parent : ℕ) (name : Option Str) → Safe P AnyAttr (mkdir device fs parent name)
  unfolding mkdir
  mkdir-Safe parent name = then_require P AnyAttr fs.writable eperm _ (
      then_some P AnyAttr name eio _ (λ name_str _. record {
        run = λ s p.
            (then_some P AnyAttr (directory_anode (get parent s.inodes)) enoent _ (λ anode _.
                then_any P AnyAttr AnyUnit
                  (write_or device fs (create_dir_in device anode name_str) eio) _
                  (write_or-Safe _ eio) (λ u _. find_new-Safe parent anode name_str))).run
              s p;
      }))

  pub create-Safe : (parent : ℕ) (name : Option Str) → Safe P AnyAttr (create device fs parent name)
  unfolding create
  create-Safe parent name = then_require P AnyAttr fs.writable eperm _ (
      then_some P AnyAttr name eio _ (λ name_str _. record {
        run = λ s p.
            (then_some P AnyAttr (directory_anode (get parent s.inodes)) enoent _ (λ anode _.
                then_any P AnyAttr AnyUnit
                  (write_or device fs (write_file_in device anode name_str []) eio) _
                  (write_or-Safe _ eio)
                  (λ u _.
                    then_any P AnyAttr AnyAttr (find_new device fs parent anode name_str) _
                      (find_new-Safe parent anode name_str)
                      (λ attr _. record { run = λ t q. (same_inodes t _ _ q, tt) })))).run
              s p;
      }))

  delete_entry-Safe :
      (e : Errno) (parent : ℕ) (name : Option Str)
      → Safe P AnyUnit (delete_entry device fs e parent name)
  unfolding delete_entry
  delete_entry-Safe e parent name = then_require P AnyUnit fs.writable eperm _ (
      then_some P AnyUnit name eio _ (λ name_str _. record {
        run = λ s p.
            (then_some P AnyUnit (get parent s.inodes) enoent _ (λ info _.
                then_any P AnyUnit AnyUnit
                  (write_or device fs (delete_in device info.anode name_str) e) _
                  (write_or-Safe _ e)
                  (λ u _. record {
                    run = λ t q. (
                      inv.tables t _ _ _ q (
                          AllOwn-drop_inode (get (parent, name_str) t.name_cache) t.inodes
                            (inv.valid t q).own),
                      tt,
                    );
                  }))).run
              s p;
      }))

  pub unlink-Safe : (parent : ℕ) (name : Option Str) → Safe P AnyUnit (unlink device fs parent name)
  unfolding unlink
  unlink-Safe parent name =
      then_any P AnyUnit AnyUnit (delete_entry device fs eio parent name) _
        (delete_entry-Safe eio parent name) (λ u _. inv.rebuild)

  pub rmdir-Safe : (parent : ℕ) (name : Option Str) → Safe P AnyUnit (rmdir device fs parent name)
  unfolding rmdir
  rmdir-Safe parent name = delete_entry-Safe enotempty parent name

  move_name-keeps :
      (parent : ℕ) (src_name : Str) (newparent : ℕ) (dst_name : Str) (o : Option ℕ) (s : FsInner D)
      → P s
      → P (record (move_inode newparent dst_name o s) {
        name_cache = remove (parent, src_name) (move_inode newparent dst_name o s).name_cache;
      })
  move_name-keeps parent src_name newparent dst_name none s p = same_inodes s _ _ p
  move_name-keeps parent src_name newparent dst_name (some ino) s p =
      updated s ino _ _ _ p (λ info. refl)

  pub rename-Safe :
      (parent : ℕ) (name : Option Str) (newparent : ℕ) (newname : Option Str)
      → Safe P AnyUnit (rename device fs parent name newparent newname)
  unfolding rename
  rename-Safe parent name newparent newname = then_require P AnyUnit fs.writable eperm _ (
      then_some P AnyUnit (both name newname) eio _ (λ (src_name, dst_name) _. record {
        run = λ s p.
            (then_some P AnyUnit (get parent s.inodes) enoent _ (λ src _.
                then_some P AnyUnit (get newparent s.inodes) enoent _ (λ dst _.
                  then_any P AnyUnit AnyUnit
                    (write_or device fs (rename_in device src.anode src_name dst.anode dst_name)
                      eio)
                    _ (write_or-Safe _ eio)
                    (λ u _. record {
                      run = λ t q. (
                        move_name-keeps parent src_name newparent dst_name
                            (get (parent, src_name) t.name_cache) t q,
                        tt,
                      );
                    })))).run
              s p;
      }))
