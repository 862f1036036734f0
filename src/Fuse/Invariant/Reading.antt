-- ===== src/Fuse/Invariant/Reading.antt =====
-- About the inode table under the reading handlers.
use pfs.Prelude.{
  ℕ, List, [], ◌∷◌, ◌≡◌, ◌≢◌, refl, ap, inl, inr, Bool-cases, Bool, Option, none, some, arith, ◌==◌,
  ◌≤◌, ◌&&◌,
}
use pfs.Error.{Str}
use pfs.Io.{BlockDevice}
use pfs.Ondisk.DirEntry.{DirEntry}
use pfs.Dir.{find_name}
use pfs.Volume.{list_dir_by_anode, read_file_range, read_file_data}
use pfs.Util.Names.{name_eq_ci}
use pfs.Fuse.Reply.{answer, fail, enoent, eio, enotdir}
use pfs.Fuse.Safe.{Safe, Any, then_any, then_some, then_ok, either, ok_or-Safe}
use pfs.Fuse.Maps.{ino_key, name_key, get, insert, str_eq}
use pfs.Fuse.Types.{
  FsInner, Pfs3Fs, FileAttr, FileType, InodeInfo, is_directory, DeldirEntry, trashcan_ino,
  trashcan_attr, deldir_ino_base, fuse_root_ino, has_deldir, make_attr, anode_to_ino, calling,
}
use pfs.Fuse.Reads.{
  Dirent, trashcan_name, getattr, remember, enter, deleted_info, find_deleted, lookup_deleted,
  lookup_on_disk, lookup_cached, cached, lookup, entry_lines, list_directory, full_listing, readdir,
  read, readlink,
}
use pfs.Fuse.Invariant.{IsOwn, AllAbove, AllOwn-insert, FsInvariant}

pub anode_to_ino-ne-trashcan : (anode : ℕ) → anode_to_ino anode ≢ trashcan_ino
unfolding anode_to_ino
anode_to_ino-ne-trashcan anode e = ground (arith, e)

make_attr-IsOwn : (fs : Pfs3Fs) (entry : DirEntry) (parent : ℕ) → IsOwn (make_attr fs entry parent)
unfolding make_attr
make_attr-IsOwn fs entry parent = (refl, anode_to_ino-ne-trashcan entry.anode)

none-some : {de : DeldirEntry} → none ≡ some de → ⊥
none-some e = cc

same_entry : {x de : DeldirEntry} → some x ≡ some de → x ≡ de
same_entry {x} e = ap (λ o. elim o [ none ↦ x | some y ↦ y ]) e

find_deleted-above :
    (name : Str) (deldir : List DeldirEntry) (de : DeldirEntry)
    → AllAbove deldir
    → find_deleted name deldir ≡ some de
    → deldir_ino_base ≤ de.ino
unfolding find_deleted
find_deleted-above name [] de h e = absurd (none-some e)
find_deleted-above name (x ∷ deldir) de h e = elim (Bool-cases (name_eq_ci x.display_name name)) [
  | inl here ↦ rw (same_entry (rw here at e)) at (h.0)
  | inr there ↦ find_deleted-above name deldir de (h.1) (rw there at e)
]

above_trashcan : (ino : ℕ) → deldir_ino_base ≤ ino → ino ≢ trashcan_ino
above_trashcan ino h e = omega arith

abbrev AnyLines : List (ℕ × FileType × Str) → Type 0
AnyLines lines = Unit

abbrev AnyBytes : List ℕ → Type 0
AnyBytes bytes = Unit

abbrev pub AnyAttr : FileAttr → Type 0
AnyAttr attr = Unit

module _ {D : Type 0} (device : BlockDevice D) (fs : Pfs3Fs) (P : FsInner D → Type 0)
    (inv : FsInvariant device P) where
  pub remember-Safe :
      (parent : ℕ) (name : Str) (ino : ℕ) (info : InodeInfo)
      → IsOwn (ino, info)
      → Safe P AnyAttr (remember device fs parent name ino info)
  remember-Safe parent name ino info own = record {
    run =
        λ s p. (inv.tables s _ _ _ p (AllOwn-insert ino info s.inodes own (inv.valid s p).own), tt);
  }

  pub enter-Safe :
      (parent : ℕ) (name : Str) (entry : DirEntry)
      → Safe P AnyAttr (enter device fs parent name entry)
  unfolding enter
  enter-Safe parent name entry =
      remember-Safe parent name (make_attr fs entry parent).0 (make_attr fs entry parent).1
        (make_attr-IsOwn fs entry parent)

  pub getattr-Safe : (ino : ℕ) → Safe P AnyAttr (getattr device fs ino)
  unfolding getattr
  getattr-Safe ino = record {
    run = λ s p.
        (either P AnyAttr (ino == trashcan_ino && has_deldir s) (answer (trashcan_attr fs)) _
            (record { run = λ t q. (q, tt) })
            (then_some P AnyAttr (get ino s.inodes) enoent _
              (λ info _. record { run = λ t q. (q, tt) }))).run
          s p;
  }

  lookup_on_disk-Safe :
      (parent : ℕ) (name : Str) → Safe P AnyAttr (lookup_on_disk device fs parent name)
  unfolding lookup_on_disk
  lookup_on_disk-Safe parent name = record {
    run = λ s p.
        (then_some P AnyAttr (get parent s.inodes) enoent _ (λ info _.
            then_any P AnyAttr Any (calling (list_dir_by_anode device info.anode)) _
              (inv.listing info.anode)
              (λ listed _. then_ok P AnyAttr listed eio _ (λ entries.
                then_some P AnyAttr (find_name name entries) enoent _
                  (λ entry _. enter-Safe parent name entry))))).run
          s p;
  }

  lookup_deleted-Safe : (name : Str) → Safe P AnyAttr (lookup_deleted device fs name)
  unfolding lookup_deleted deleted_info
  lookup_deleted-Safe name = record {
    run = λ s p.
        (then_some P AnyAttr (find_deleted name s.deldir) enoent _ (λ de e.
            remember-Safe trashcan_ino name de.ino (deleted_info device fs de) (
              refl,
              above_trashcan de.ino (find_deleted-above name s.deldir de (inv.valid s p).above e),
            ))).run
          s p;
  }

  lookup_cached-Safe :
      (parent : ℕ) (name : Str) (o : Option InodeInfo)
      → Safe P AnyAttr (lookup_cached device fs parent name o)
  unfolding lookup_cached
  lookup_cached-Safe parent name (some info) = record { run = λ s p. (p, tt) }
  lookup_cached-Safe parent name none = lookup_on_disk-Safe parent name

  pub lookup-Safe : (parent : ℕ) (name : Option Str) → Safe P AnyAttr (lookup device fs parent name)
  unfolding lookup
  lookup-Safe parent name = then_some P AnyAttr name enoent _ (λ name_str _. record {
    run = λ s p.
        (either P AnyAttr (parent == fuse_root_ino && str_eq name_str trashcan_name && has_deldir s)
            (answer (trashcan_attr fs)) _ (record { run = λ t q. (q, tt) })
            (either P AnyAttr (parent == trashcan_ino && has_deldir s)
              (lookup_deleted device fs name_str) _ (lookup_deleted-Safe name_str)
              (lookup_cached-Safe parent name_str (cached device fs parent name_str s)))).run
          s p;
  })

  entry_lines-Safe :
      (ino : ℕ) (entries : List DirEntry) → Safe P AnyLines (entry_lines device fs ino entries)
  unfolding entry_lines
  entry_lines-Safe ino [] = record { run = λ s p. (p, tt) }
  entry_lines-Safe ino (entry ∷ entries) = record {
    run = λ s p.
        let (child_ino, info) = make_attr fs entry ino in
        (then_any P AnyLines Any (entry_lines device fs ino entries) _
            (entry_lines-Safe ino entries) (λ rest _. record { run = λ t q. (q, tt) })).run
          (record s { inodes = insert child_ino info s.inodes })
          (inv.tables s _ _ _ p (
            AllOwn-insert child_ino info s.inodes (make_attr-IsOwn fs entry ino)
              (inv.valid s p).own));
  }

  list_directory-Safe : (ino : ℕ) → Safe P AnyLines (list_directory device fs ino)
  unfolding list_directory
  list_directory-Safe ino = record {
    run = λ s p.
        (then_some P AnyLines (get ino s.inodes) enoent _ (λ info _.
            either P AnyLines (is_directory info.attr.kind) _ (fail enotdir)
              (then_any P AnyLines Any (calling (list_dir_by_anode device info.anode)) _
                (inv.listing info.anode)
                (λ listed _. then_ok P AnyLines listed eio _ (λ entries.
                  then_any P AnyLines Any (entry_lines device fs ino entries) _
                    (entry_lines-Safe ino entries) (λ lines _. record { run = λ t q. (q, tt) }))))
              (record { run = λ t q. (q, tt) }))).run
          s p;
  }

  pub readdir-Safe :
      (full : List Dirent → Dirent → Bool) (ino offset : ℕ)
      → Safe P Any (readdir device fs full ino offset)
  unfolding readdir full_listing
  readdir-Safe full ino offset =
      then_any P (λ (lines : List Dirent). Unit {0}) Any (full_listing device fs ino) _
        (record {
          run = λ s p.
              (either P AnyLines (ino == trashcan_ino && has_deldir s) _
                  (list_directory device fs ino) (record { run = λ t q. (q, tt) })
                  (list_directory-Safe ino)).run
                s p;
        })
        (λ listing _. record { run = λ t q. (q, tt) })

  pub read-Safe : (ino offset size : ℕ) → Safe P AnyBytes (read device fs ino offset size)
  unfolding read
  read-Safe ino offset size = record {
    run = λ s p.
        (then_some P AnyBytes (get ino s.inodes) enoent _ (λ info _.
            then_any P AnyBytes Any
              (calling (read_file_range device info.anode info.attr.size offset size)) _
              (inv.ranged info.anode info.attr.size offset size)
              (λ result _. ok_or-Safe P result eio))).run
          s p;
  }

  pub readlink-Safe : (ino : ℕ) → Safe P AnyBytes (readlink device fs ino)
  unfolding readlink
  readlink-Safe ino = record {
    run = λ s p.
        (then_some P AnyBytes (get ino s.inodes) enoent _ (λ info _.
            then_any P AnyBytes Any (calling (read_file_data device info.anode info.attr.size)) _
              (inv.whole info.anode info.attr.size) (λ result _. ok_or-Safe P result eio))).run
          s p;
  }
