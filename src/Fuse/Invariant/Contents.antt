-- ===== src/Fuse/Invariant/Contents.antt =====
-- About the inode table under the handlers for contents and attributes.
use pfs.Prelude.{ℕ, List, [], refl, Option, none, some, ◌==◌, ◌&&◌, ◌||◌, not}
use pfs.Error.{Str, Result, ok, err, panic}
use pfs.Io.{BlockDevice}
use pfs.Volume.{read_file_data}
use pfs.Writer.Files.{overwrite_file_in}
use pfs.Writer.Entries.{update_dir_entry_protection}
use pfs.Util.Protection.{parse_amiga_protection}
use pfs.Fuse.Reply.{answer, enoent, eio, eisdir, eperm, enotsup}
use pfs.Fuse.Safe.{Safe, Any, then_any, then_some, then_require, either, ok_or-Safe, ok_else-Safe}
use pfs.Fuse.Maps.{ino_key, name_key, get, remove, str_eq}
use pfs.Fuse.Types.{FsInner, Pfs3Fs, InodeInfo, WriteBuf, is_directory, calling, writing}
use pfs.Fuse.Buffers.{
  OpenFlags, load, open_file, write, after_store, store, release_buffer, release, set_length,
  protect, ok_unless_failed, set_mode_of, set_mode, setattr, set_protection, anode_or, is_empty,
}
use pfs.Fuse.Xattrs.{protection_name, trim, protection_of, setxattr}
use pfs.Fuse.Invariant.{FsInvariant}
use pfs.Fuse.Invariant.Reading.{AnyAttr}
use pfs.Fuse.Invariant.Writing.{AnyUnit, updated, same_inodes}

abbrev AnyCount : ℕ → Type 0
AnyCount n = Unit

module _ {D : Type 0} (device : BlockDevice D) (fs : Pfs3Fs) (P : FsInner D → Type 0)
    (inv : FsInvariant device P) where
  load-Safe : (flags : OpenFlags) (info : InodeInfo) → Safe P Any (load device fs flags info)
  unfolding load
  load-Safe flags info =
      either P Any flags.o_trunc (answer []) _ (record { run = λ s p. (p, tt) })
        (then_any P Any Any (calling (read_file_data device info.anode info.attr.size)) _
          (inv.whole info.anode info.attr.size) (λ result _. ok_else-Safe P result []))

  pub open_file-Safe :
      (flags : OpenFlags) (ino : ℕ) → Safe P AnyUnit (open_file device fs flags ino)
  unfolding open_file
  open_file-Safe flags ino = record {
    run = λ s p.
        (then_some P AnyUnit (get ino s.inodes) enoent _ (λ info _.
            then_require P AnyUnit (not (is_directory info.attr.kind)) eisdir _ (
              either P AnyUnit
                (fs.writable && (flags.o_wronly || flags.o_rdwr || flags.o_trunc || flags.o_append))
                _ (answer tt)
                (then_any P AnyUnit Any (load device fs flags info) _ (load-Safe flags info)
                  (λ bytes _. record { run = λ t q. (same_inodes device fs P inv t _ _ q, tt) }))
                (record { run = λ t q. (q, tt) })))).run
          s p;
  }

  pub write-Safe : (ino off : ℕ) (bytes : List ℕ) → Safe P AnyCount (write device fs ino off bytes)
  unfolding write
  write-Safe ino off bytes = then_require P AnyCount fs.writable eperm _ (record {
    run = λ s p.
        (then_some P AnyCount (get ino s.write_bufs) eio _ (λ b _. record {
          run = λ t q. (updated device fs P inv t ino _ _ _ q (λ info. refl), tt);
        })).run
          s p;
  })

  after_store-Safe :
      (ino : ℕ) (b : WriteBuf) (o : Option (Result (Unit {0})))
      → Safe P AnyUnit (after_store device fs ino b o)
  after_store-Safe ino b none = record { run = λ s p. (p, tt) }
  after_store-Safe ino b (some (ok u)) = record {
    run = λ s p. (updated device fs P inv s ino _ _ _ p (λ info. refl), tt);
  }
  after_store-Safe ino b (some (err e)) = record {
    run = λ s p. (same_inodes device fs P inv s _ _ p, tt);
  }
  after_store-Safe ino b (some panic) = record { run = λ s p. (p, tt) }

  store-Safe : (ino : ℕ) (b : WriteBuf) → Safe P AnyUnit (store device fs ino b)
  unfolding store
  store-Safe ino b = record {
    run = λ s p.
        (either P AnyUnit (is_empty b.content || anode_or 0 (get ino s.inodes) == 0) (answer tt) _
            (record { run = λ t q. (q, tt) })
            (then_any P AnyUnit Any
              (writing (
                overwrite_file_in device b.parent_anode b.file_name (anode_or 0 (get ino s.inodes))
                  b.content))
              _ (inv.written _) (λ done _. after_store-Safe ino b done))).run
          s p;
  }

  release_buffer-Safe :
      (ino : ℕ) (o : Option WriteBuf) → Safe P AnyUnit (release_buffer device fs ino o)
  unfolding release_buffer
  release_buffer-Safe ino none = record { run = λ s p. (p, tt) }
  release_buffer-Safe ino (some b) = record {
    run = λ s p.
        (store-Safe ino b).run (record s { write_bufs = remove ino s.write_bufs })
          (same_inodes device fs P inv s _ _ p);
  }

  pub release-Safe : (ino : ℕ) → Safe P AnyUnit (release device fs ino)
  unfolding release
  release-Safe ino = record {
    run = λ s p. (release_buffer-Safe ino (get ino s.write_bufs)).run s p;
  }

  ok_unless_failed-Safe : (o : Option (Result (Unit {0}))) → Safe P AnyUnit (ok_unless_failed o)
  ok_unless_failed-Safe none = record { run = λ s p. (p, tt) }
  ok_unless_failed-Safe (some r) = record { run = λ s p. (ok_or-Safe P r eio).run s p }

  protect-Safe :
      (ino : ℕ) (info : InodeInfo) (prot : ℕ) (o : Option InodeInfo)
      → Safe P AnyUnit (protect device fs ino info prot o)
  unfolding protect set_protection
  protect-Safe ino info prot none = record { run = λ s p. (p, tt) }
  protect-Safe ino info prot (some parent) =
      then_any P AnyUnit Any
        (writing (update_dir_entry_protection device parent.anode info.name prot)) _ (inv.written _)
        (λ done _.
          then_any P AnyUnit AnyUnit (ok_unless_failed done) _ (ok_unless_failed-Safe done) (λ u _.
            record { run = λ t q. (updated device fs P inv t ino _ _ _ q (λ info. refl), tt) }))

  set_mode_of-Safe :
      (ino new_mode : ℕ) (o : Option InodeInfo)
      → Safe P AnyUnit (set_mode_of device fs ino new_mode o)
  unfolding set_mode_of
  set_mode_of-Safe ino new_mode none = record { run = λ s p. (p, tt) }
  set_mode_of-Safe ino new_mode (some info) = record {
    run = λ s p. (protect-Safe ino info _ (get info.parent_ino s.inodes)).run s p;
  }

  set_mode-Safe : (ino : ℕ) (mode : Option ℕ) → Safe P AnyUnit (set_mode device fs ino mode)
  unfolding set_mode
  set_mode-Safe ino none = record { run = λ s p. (p, tt) }
  set_mode-Safe ino (some new_mode) =
      then_require P AnyUnit fs.writable eperm _
        (record { run = λ s p. (set_mode_of-Safe ino new_mode (get ino s.inodes)).run s p })

  set_length-keeps : (ino : ℕ) (size : Option ℕ) (s : FsInner D) → P s → P (set_length ino size s)
  set_length-keeps ino none s p = p
  set_length-keeps ino (some n) s p = updated device fs P inv s ino _ _ _ p (λ info. refl)

  pub setattr-Safe :
      (ino : ℕ) (mode size : Option ℕ) → Safe P AnyAttr (setattr device fs ino mode size)
  unfolding setattr
  setattr-Safe ino mode size = record {
    run = λ s p.
        (then_any P AnyAttr AnyUnit (set_mode device fs ino mode) _ (set_mode-Safe ino mode) (λ u _.
            record {
              run = λ t q.
                  (then_some P AnyAttr (get ino t.inodes) enoent _
                      (λ info _. record { run = λ w r. (r, tt) })).run
                    t q;
            })).run
          (set_length ino size s) (set_length-keeps ino size s p);
  }

  pub setxattr-Safe :
      (ino : ℕ) (name value : Option Str) → Safe P AnyUnit (setxattr device fs ino name value)
  unfolding setxattr
  setxattr-Safe ino name value = then_require P AnyUnit fs.writable eperm _ (
      then_some P AnyUnit name eio _ (λ name_str _.
        then_require P AnyUnit (str_eq name_str protection_name) enotsup _ (
          then_some P AnyUnit value eio _ (λ spec _. record {
            run = λ s p.
                (then_some P AnyUnit
                    (parse_amiga_protection (protection_of (get ino s.inodes)) (trim spec)) eio _
                    (λ prot _.
                      then_some P AnyUnit (get ino s.inodes) enoent _
                        (λ info _. protect-Safe ino info prot (get info.parent_ino s.inodes)))).run
                  s p;
          }))))
