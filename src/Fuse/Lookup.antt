-- ===== src/Fuse/Lookup.antt =====
-- About lookups that are asked for again.
use pfs.Prelude.{
  ℕ, ◌≡◌, refl, ap, sym, ◌∙◌, false, Option, none, some, ◌==◌, Bool-cases, inl, inr, List,
}
use mathlib.Core.Path.{subst}
use pfs.Error.{Str, Result, ok, err, panic}
use pfs.Io.{BlockDevice}
use pfs.Dir.{find_name}
use pfs.Ondisk.DirEntry.{DirEntry}
use pfs.Volume.{list_dir_by_anode}
use pfs.Fuse.Maps.{ino_key, name_key, str_eq, get, get-insert_self}
use pfs.Fuse.Reply.{Reply, reply, error, died, Handler, some_or, ok_or, enoent, eio, ◌>>=◌}
use pfs.Fuse.Types.{
  FsInner, Pfs3Fs, FileAttr, InodeInfo, on_volume, calling, make_attr, trashcan_ino, fuse_root_ino,
}
use pfs.Fuse.Reads.{lookup, lookup_cached, lookup_on_disk, cached, enter, remember, trashcan_name}

module _ {D : Type 0} (device : BlockDevice D) (fs : Pfs3Fs) (parent : ℕ) (name : Str) where
  -- What a lookup replied, the tables now give for the name.
  abbrev Remembers : Reply FileAttr × FsInner D → Type 0
  Remembers (reply attr, t) =
      (info : InodeInfo) × (cached device fs parent name t ≡ some info) × (info.attr ≡ attr)
  Remembers (error e, t) = Unit
  Remembers (died, t) = Unit

  remember-Remembers :
      (ino : ℕ) (info : InodeInfo) (s : FsInner D)
      → Remembers (remember device fs parent name ino info s)
  remember-Remembers ino info s = (
    info,
    rw (cached, get-insert_self (parent, name) ino s.name_cache)
        (get-insert_self ino info s.inodes),
    refl,
  )

  enter-Remembers :
      (entry : DirEntry) (s : FsInner D) → Remembers (enter device fs parent name entry s)
  unfolding enter
  enter-Remembers entry s =
      let (ino, info) = make_attr fs entry parent in remember-Remembers ino info s

  some-Remembers :
      {A : Type 0} (o : Option A) (f : A → Handler (FsInner D) FileAttr) (s : FsInner D)
      → ((a : A) → Remembers (f a s))
      → Remembers ((some_or o enoent >>= f) s)
  some-Remembers none f s h = tt
  some-Remembers (some a) f s h = h a

  listed-Remembers :
      (r : Result (List DirEntry)) (s : FsInner D)
      → Remembers (
          (ok_or r eio >>= λ entries.
          some_or (find_name name entries) enoent >>= enter device fs parent name)
            s)
  listed-Remembers (ok entries) s =
      some-Remembers (find_name name entries) _ s (λ entry. enter-Remembers entry s)
  listed-Remembers (err e) s = tt
  listed-Remembers panic s = tt

  on_disk-Remembers : (s : FsInner D) → Remembers (lookup_on_disk device fs parent name s)
  unfolding lookup_on_disk calling
  on_disk-Remembers s = some-Remembers (get parent s.inodes) _ s (λ info.
      let (r, access) = on_volume (list_dir_by_anode device info.anode) s.access in
      listed-Remembers r (record s { access = access }))

  cached-Remembers :
      (o : Option InodeInfo) (s : FsInner D)
      → cached device fs parent name s ≡ o
      → Remembers (lookup_cached device fs parent name o s)
  unfolding lookup_cached
  cached-Remembers none s h = on_disk-Remembers s
  cached-Remembers (some info) s h = (info, h, refl)

  lookup_plain :
      (s : FsInner D)
      → str_eq name trashcan_name ≡ false
      → (parent == trashcan_ino) ≡ false
      → lookup device fs parent (some name) s
        ≡ lookup_cached device fs parent name (cached device fs parent name s) s
  unfolding lookup
  lookup_plain s other_name other_parent = elim (Bool-cases (parent == fuse_root_ino)) [
    | inl e ↦ rw (e, other_name, other_parent) refl
    | inr e ↦ rw (e, other_parent) refl
  ]

  -- A lookup that replied with attributes, outside the trash directory and of a name other than
  -- .Trashcan, is answered from the tables when it is asked for again: it replies with the same
  -- attributes, and changes nothing.
  pub lookup-again :
      (s t : FsInner D) (attr : FileAttr)
      → str_eq name trashcan_name ≡ false
      → (parent == trashcan_ino) ≡ false
      → lookup device fs parent (some name) s ≡ (reply attr, t)
      → lookup device fs parent (some name) t ≡ (reply attr, t)
  unfolding lookup_cached
  lookup-again s t attr other_name other_parent first =
      let same = lookup_plain s other_name other_parent in
      let remembers = cached-Remembers (cached device fs parent name s) s refl in
      let (info, found, same_attr) = subst Remembers (sym same ∙ first) remembers in
      lookup_plain t other_name other_parent
      ∙ ap (λ o. lookup_cached device fs parent name o t) found
      ∙ ap (λ a. (reply a, t)) same_attr
