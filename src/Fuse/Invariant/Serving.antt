-- ===== src/Fuse/Invariant/Serving.antt =====
-- About the state of the mounted file system under any requests.
use pfs.Prelude.{
  ℕ, List, [], ◌∷◌, ◌≡◌, refl, Bool, true, Option, none, some, ◌==◌, ◌&&◌, Bool-cases, inl, inr,
  ◌||◌, ◌++◌, ltb, length, arith,
}
use pfs.Io.{BlockDevice}
use pfs.Fuse.Reply.{Reply, some_or, answer, fail, ◌>>=◌, enoent, erange, no_xattr}
use pfs.Fuse.Safe.{Safe, OnReply, then_some, then_require, either}
use pfs.Fuse.Maps.{ino_key, get, str_eq}
use pfs.Fuse.Types.{
  FsInner, Pfs3Fs, FileAttr, InodeInfo, trashcan_ino, trashcan_attr, has_deldir, fuse_root_ino,
}
use pfs.Fuse.Reads.{getattr, statfs}
use pfs.Fuse.Mount.{
  Request, getattr_of, statfs_of, readlink_of, release_of, lookup_of, mkdir_of, create_of,
  unlink_of, rmdir_of, readdir_of, open_of, read_of, write_of, rename_of, setattr_of, getxattr_of,
  setxattr_of, listxattr_of, serve,
}
use pfs.Error.{Str}
use pfs.Util.Names.{as_bytes}
use pfs.Fuse.Xattrs.{
  XattrReply, xattr_size, xattr_data, getxattr, listxattr, protection_name, sized,
}
use pfs.Fuse.Invariant.{IsValid, AllOwn-get, FsInvariant, IsValid-FsInvariant}
use pfs.Fuse.Invariant.Reading.{getattr-Safe, lookup-Safe, readdir-Safe, read-Safe, readlink-Safe}
use pfs.Fuse.Invariant.Writing.{mkdir-Safe, create-Safe, unlink-Safe, rmdir-Safe, rename-Safe}
use pfs.Fuse.Invariant.Contents.{
  open_file-Safe, write-Safe, release-Safe, setattr-Safe, setxattr-Safe,
}

abbrev AnyXattr : XattrReply → Type 0
AnyXattr r = Unit

-- The state after requests, one after the other.
abbrev pub served : {D : Type 0} → BlockDevice D → Pfs3Fs → List Request → FsInner D → FsInner D
served device fs [] s = s
served device fs (r ∷ requests) s = served device fs requests (serve device fs r s)

module _ {D : Type 0} (device : BlockDevice D) (fs : Pfs3Fs) (P : FsInner D → Type 0)
    (inv : FsInvariant device P) where
  sized-Safe : (size : ℕ) (bytes : List ℕ) → Safe P AnyXattr (sized size bytes)
  sized-Safe size bytes =
      either P AnyXattr (size == 0) (answer (xattr_size (length bytes))) _
        (record { run = λ s p. (p, tt) })
        (either P AnyXattr (ltb size (length bytes)) (fail erange) (answer (xattr_data bytes))
          (record { run = λ s p. (p, tt) }) (record { run = λ s p. (p, tt) }))

  getxattr-Safe :
      (ino : ℕ) (name : Option Str) (size : ℕ) → Safe P AnyXattr (getxattr device fs ino name size)
  unfolding getxattr
  getxattr-Safe ino name size =
      either P AnyXattr (ino == fuse_root_ino || ino == trashcan_ino) (fail no_xattr) _
        (record { run = λ s p. (p, tt) })
        (then_some P AnyXattr name enoent _ (λ name_str _.
          then_require P AnyXattr (str_eq name_str protection_name) no_xattr _ (record {
            run = λ s p.
                (then_some P AnyXattr (get ino s.inodes) enoent _ (λ info _. sized-Safe size _)).run
                  s p;
          })))

  listxattr-Safe : (ino size : ℕ) → Safe P AnyXattr (listxattr device fs ino size)
  unfolding listxattr
  listxattr-Safe ino size = record {
    run = λ s p.
        (then_some P AnyXattr (get ino s.inodes) enoent _ (λ info _.
            either P AnyXattr (ino == fuse_root_ino || ino == trashcan_ino) _
              (sized size (as_bytes (protection_name ++ 0 ∷ [])))
              (either P AnyXattr (size == 0) (answer (xattr_size 0)) (answer (xattr_data []))
                (record { run = λ s p. (p, tt) }) (record { run = λ s p. (p, tt) }))
              (sized-Safe size (as_bytes (protection_name ++ 0 ∷ []))))).run
          s p;
  }

  serve-keeps : (r : Request) (s : FsInner D) → P s → P (serve device fs r s)
  unfolding serve statfs
  serve-keeps (getattr_of ino) s p = ((getattr-Safe device fs P inv ino).run s p).0
  serve-keeps (statfs_of ino) s p = p
  serve-keeps (readlink_of ino) s p = ((readlink-Safe device fs P inv ino).run s p).0
  serve-keeps (release_of ino) s p = ((release-Safe device fs P inv ino).run s p).0
  serve-keeps (lookup_of parent name) s p = ((lookup-Safe device fs P inv parent name).run s p).0
  serve-keeps (mkdir_of parent name) s p = ((mkdir-Safe device fs P inv parent name).run s p).0
  serve-keeps (create_of parent name) s p = ((create-Safe device fs P inv parent name).run s p).0
  serve-keeps (unlink_of parent name) s p = ((unlink-Safe device fs P inv parent name).run s p).0
  serve-keeps (rmdir_of parent name) s p = ((rmdir-Safe device fs P inv parent name).run s p).0
  serve-keeps (readdir_of full ino offset) s p =
      ((readdir-Safe device fs P inv full ino offset).run s p).0
  serve-keeps (open_of flags ino) s p = ((open_file-Safe device fs P inv flags ino).run s p).0
  serve-keeps (read_of ino offset size) s p =
      ((read-Safe device fs P inv ino offset size).run s p).0
  serve-keeps (write_of ino off bytes) s p = ((write-Safe device fs P inv ino off bytes).run s p).0
  serve-keeps (rename_of parent name newparent newname) s p =
      ((rename-Safe device fs P inv parent name newparent newname).run s p).0
  serve-keeps (setattr_of ino mode size) s p =
      ((setattr-Safe device fs P inv ino mode size).run s p).0
  serve-keeps (getxattr_of ino name size) s p = ((getxattr-Safe ino name size).run s p).0
  serve-keeps (setxattr_of ino name value) s p =
      ((setxattr-Safe device fs P inv ino name value).run s p).0
  serve-keeps (listxattr_of ino size) s p = ((listxattr-Safe ino size).run s p).0

  pub served-keeps :
      (requests : List Request) (s : FsInner D) → P s → P (served device fs requests s)
  served-keeps [] s p = p
  served-keeps (r ∷ requests) s p = served-keeps requests (serve device fs r s) (serve-keeps r s p)

-- What getattr answers is about the inode asked for.
abbrev pub AnswersOwn : ℕ → Reply FileAttr → Type 0
AnswersOwn ino r = OnReply (λ attr. attr.ino ≡ ino) r

trash_ino : (ino : ℕ) (b : Bool) → (ino == trashcan_ino && b) ≡ true → trashcan_ino ≡ ino
trash_ino ino b h = ground arith

attr_of-own :
    {D : Type 0} (ino : ℕ) (o : Option InodeInfo) (s : FsInner D)
    → ((info : InodeInfo) → o ≡ some info → info.attr.ino ≡ ino)
    → AnswersOwn ino (((some_or o enoent >>= λ info. answer info.attr) s).0)
attr_of-own ino none s h = tt
attr_of-own ino (some info) s h = h info refl

getattr-own :
    {D : Type 0} (device : BlockDevice D) (fs : Pfs3Fs) (ino : ℕ) (s : FsInner D)
    → IsValid s
    → AnswersOwn ino ((getattr device fs ino s).0)
unfolding getattr trashcan_attr
getattr-own device fs ino s v = elim (Bool-cases (ino == trashcan_ino && has_deldir s)) [
  | inl trash ↦ rw trash (trash_ino ino (has_deldir s) trash)
  | inr plain ↦
      rw plain
        (attr_of-own ino (get ino s.inodes) s (λ info e. (AllOwn-get ino s.inodes info v.own e).0))
]

-- A mounted file system that starts in a valid state is in one after any requests, and then getattr
-- only ever answers with the attributes of the inode that it was asked for.
pub served-own :
    {D : Type 0} (device : BlockDevice D) (fs : Pfs3Fs) (requests : List Request) (s : FsInner D)
    (ino : ℕ)
    → IsValid s
    → IsValid (served device fs requests s)
      × AnswersOwn ino ((getattr device fs ino (served device fs requests s)).0)
served-own device fs requests s ino v =
    let w = served-keeps device fs IsValid (IsValid-FsInvariant device) requests s v in
    (w, getattr-own device fs ino (served device fs requests s) w)
