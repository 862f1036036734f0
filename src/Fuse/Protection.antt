-- ===== src/Fuse/Protection.antt =====
-- About the extended attribute that shows the protection.
use pfs.Prelude.{ℕ, ◌≡◌, refl, ap, sym, ◌∙◌, Bool, true, false, ◌||◌, Option, none, some, ◌==◌}
use mathlib.Core.Path.{subst}
use pfs.Error.{Str, Result, ok, err, panic}
use pfs.Exec.{Exec}
use pfs.Io.{BlockDevice}
use pfs.Util.Names.{as_bytes}
use pfs.Util.Protection.{amiga_protection_string, parse_amiga_protection}
use pfs.Writer.State.{Writer}
use pfs.Writer.Entries.{update_dir_entry_protection}
use pfs.Fuse.Maps.{ino_key, str_eq, str_eq_refl, get, update, get-update_self}
use pfs.Fuse.Reply.{
  Reply, reply, error, died, Errno, Handler, require, some_or, modify, enoent, eio, eperm, enotsup,
  ◌>>=◌, ◌>>◌,
}
use pfs.Fuse.Types.{
  FsInner, Pfs3Fs, InodeInfo, VolumeAccess, writing, writing_on, trashcan_ino, fuse_root_ino,
}
use pfs.Fuse.Buffers.{protect, set_protection, ok_unless_failed}
use pfs.Fuse.Xattrs.{getxattr, setxattr, sized, trim, protection_name, protection_of}

module _ {D : Type 0} (device : BlockDevice D) (fs : Pfs3Fs) (ino : ℕ) where
  -- The state shows the letters of `prot`, by the size protocol of getxattr.
  abbrev pub ShowsProtection : ℕ → FsInner D → Type 0
  ShowsProtection prot t =
      (size : ℕ)
      → getxattr device fs ino (some protection_name) size t
        ≡ sized size (as_bytes (amiga_protection_string prot)) t

  shown :
      (t : FsInner D) (info : InodeInfo)
      → (ino == fuse_root_ino || ino == trashcan_ino) ≡ false
      → get ino t.inodes ≡ some info
      → ShowsProtection info.amiga_protection t
  unfolding getxattr
  shown t info plain known size = rw (plain, str_eq_refl protection_name, known) refl

  -- Where setxattr replies, its text was letters for a protection, and the inode shows it.
  abbrev pub SetsProtection : ℕ → Str → Reply (Unit {0}) × FsInner D → Type 0
  SetsProtection old spec (reply u, t) =
      (prot : ℕ) × (parse_amiga_protection old (trim spec) ≡ some prot) × ShowsProtection prot t
  SetsProtection old spec (error e, t) = Unit
  SetsProtection old spec (died, t) = Unit

  Sets-require :
      (old : ℕ) (spec : Str) (b : Bool) (e : Errno) (f : Unit {0} → Handler (FsInner D) (Unit {0}))
      (s : FsInner D)
      → SetsProtection old spec (f tt s)
      → SetsProtection old spec ((require b e >>= f) s)
  Sets-require old spec true e f s h = h
  Sets-require old spec false e f s h = tt

  Sets-some :
      {A : Type 0} (old : ℕ) (spec : Str) (o : Option A) (e : Errno)
      (f : A → Handler (FsInner D) (Unit {0})) (s : FsInner D)
      → ((a : A) → o ≡ some a → SetsProtection old spec (f a s))
      → SetsProtection old spec ((some_or o e >>= f) s)
  Sets-some old spec none e f s h = tt
  Sets-some old spec (some a) e f s h = h a refl

  module _ (s : FsInner D) (info parent : InodeInfo) (spec : Str)
      (plain : (ino == fuse_root_ino || ino == trashcan_ino) ≡ false)
      (known : get ino s.inodes ≡ some info) (prot : ℕ)
      (parsed : parse_amiga_protection info.amiga_protection (trim spec) ≡ some prot) where
    abbrev show_new : Handler (FsInner D) (Unit {0})
    show_new = modify (λ s. record s { inodes = update ino (set_protection prot) s.inodes })

    finished :
        (o : Option (Result (Unit {0}))) (access : VolumeAccess D)
        → SetsProtection info.amiga_protection spec
            ((ok_unless_failed o >> show_new) (record s { access = access }))
    unfolding set_protection
    finished none access = (
      prot,
      parsed,
      shown _ (set_protection prot info) plain
          (get-update_self ino (set_protection prot) s.inodes known),
    )
    finished (some (ok u)) access = (
      prot,
      parsed,
      shown _ (set_protection prot info) plain
          (get-update_self ino (set_protection prot) s.inodes known),
    )
    finished (some (err e)) access = tt
    finished (some panic) access = tt

    written :
        (m : Exec (Writer D) (Unit {0}))
        → SetsProtection info.amiga_protection spec
            ((writing m >>= λ done. ok_unless_failed done >> show_new) s)
    unfolding writing
    written m = let (o, access) = writing_on m s.access in finished o access

    protect-Sets :
        get info.parent_ino s.inodes ≡ some parent
        → SetsProtection info.amiga_protection spec
            (protect device fs ino info prot (get info.parent_ino s.inodes) s)
    unfolding protect
    protect-Sets has_parent =
        subst (λ o. SetsProtection info.amiga_protection spec (protect device fs ino info prot o s))
          (sym has_parent)
          (written (update_dir_entry_protection device parent.anode info.name prot))

  -- Where setting the attribute of an inode other than the root and the trash directory replies, and
  -- its parent directory is known, the text was letters for a protection, and getxattr then shows
  -- the letters of this protection, by its size protocol.
  pub getxattr-setxattr :
      (s : FsInner D) (info parent : InodeInfo) (spec : Str)
      → (ino == fuse_root_ino || ino == trashcan_ino) ≡ false
      → get ino s.inodes ≡ some info
      → get info.parent_ino s.inodes ≡ some parent
      → SetsProtection info.amiga_protection spec
          (setxattr device fs ino (some protection_name) (some spec) s)
  unfolding setxattr
  getxattr-setxattr s info parent spec plain known has_parent =
      let old = info.amiga_protection in
      let read_old : FsInner D → Option ℕ =
        λ s. parse_amiga_protection (protection_of (get ino s.inodes)) (trim spec) in
      let set : FsInner D → ℕ → Handler (FsInner D) (Unit {0}) = λ s p.
        some_or (get ino s.inodes) enoent >>= λ i.
        protect device fs ino i p (get i.parent_ino s.inodes) in
      let parse : Unit {0} → Handler (FsInner D) (Unit {0}) =
        λ _ s. (some_or (read_old s) eio >>= set s) s in
      Sets-require old spec fs.writable eperm
        (λ _. require (str_eq protection_name protection_name) enotsup >>= parse) s
        (Sets-require old spec (str_eq protection_name protection_name) enotsup parse s (
          Sets-some old spec (read_old s) eio (set s) s (λ p h.
            let parsed =
              sym (ap (λ o. parse_amiga_protection (protection_of o) (trim spec)) known) ∙ h in
            subst
              (λ o. SetsProtection old spec (
                (some_or o enoent >>= λ i. protect device fs ino i p (get i.parent_ino s.inodes))
                  s))
              (sym known) (protect-Sets s info parent spec plain known p parsed has_parent))))
