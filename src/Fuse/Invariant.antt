-- ===== src/Fuse/Invariant.antt =====
-- About the inode table of the mounted file system.
pub mod Reading
pub mod Serving
pub mod Writing
pub mod Contents
use pfs.Prelude.{
  ℕ, ◌+◌, List, [], ◌∷◌, ◌≡◌, ◌≢◌, refl, ap, sym, ==_iff, ◌∙◌, Bool, true, false, Option, none,
  some, arith, if◌then◌else◌, Bool-cases, inl, inr, ◌==◌, ◌≤◌, not, ◌&&◌, ◌||◌,
}
use pfs.Error.{Str, Result, ok, err, panic}
use pfs.Exec.{Exec}
use pfs.Fuse.Maps.{ino_key, name_key, get, insert, remove, update}
use pfs.Fuse.Types.{
  FsInner, InodeInfo, WriteBuf, DeldirEntry, VolumeAccess, trashcan_ino, deldir_ino_base, calling,
  writing, on_volume,
}
use pfs.Fuse.Deldir.{rebuild_deldir, rebuilt, with_entries, remove_inos, deldir_entries}
use pfs.Io.{BlockDevice}
use pfs.Volume.{Volume, list_deldir, list_dir_by_anode, read_file_range, read_file_data}
use pfs.Writer.State.{Writer}
use pfs.Fuse.Safe.{Safe, Keeps, Any, OnReply}
use pfs.Ondisk.DelDir.{DelDirEntry}

-- An inode stands under its own number, and not under that of the trash directory.
abbrev pub IsOwn : ℕ × InodeInfo → Type 0
IsOwn (ino, info) = (info.attr.ino ≡ ino) × (ino ≢ trashcan_ino)

abbrev pub AllOwn : List (ℕ × InodeInfo) → Type 0
AllOwn [] = Unit
AllOwn (p ∷ inodes) = IsOwn p × AllOwn inodes

abbrev pub AllAbove : List DeldirEntry → Type 0
AllAbove [] = Unit
AllAbove (de ∷ deldir) = (deldir_ino_base ≤ de.ino) × AllAbove deldir

pub AllOwn-get :
    (ino : ℕ) (inodes : List (ℕ × InodeInfo)) (info : InodeInfo)
    → AllOwn inodes
    → get ino inodes ≡ some info
    → IsOwn (ino, info)
AllOwn-get ino [] info h e = cc
AllOwn-get ino ((j, a) ∷ inodes) info h e = elim (Bool-cases (j == ino)) [
  | inl here ↦
      let same_ino : j ≡ ino = (==_iff j ino).0 here in
      let same_info : a ≡ info = ap (λ o. elim o [ none ↦ a | some x ↦ x ]) (rw here at e) in
      rw (sym same_ino, sym same_info) (h.0)
  | inr there ↦ AllOwn-get ino inodes info (h.1) (rw there at e)
]

AllOwn-if :
    (b : Bool) (l m : List (ℕ × InodeInfo)) → AllOwn l → AllOwn m → AllOwn (if b then l else m)
AllOwn-if true l m h k = h
AllOwn-if false l m h k = k

pub AllOwn-remove :
    (ino : ℕ) (inodes : List (ℕ × InodeInfo)) → AllOwn inodes → AllOwn (remove ino inodes)
AllOwn-remove ino [] h = tt
AllOwn-remove ino ((j, a) ∷ inodes) h =
    let rest = AllOwn-remove ino inodes (h.1) in AllOwn-if (j == ino) _ _ rest (h.0, rest)

pub AllOwn-insert :
    (ino : ℕ) (info : InodeInfo) (inodes : List (ℕ × InodeInfo))
    → IsOwn (ino, info)
    → AllOwn inodes
    → AllOwn (insert ino info inodes)
AllOwn-insert ino info inodes own h = (own, AllOwn-remove ino inodes h)

pub AllOwn-update :
    (ino : ℕ) (f : InodeInfo → InodeInfo) (inodes : List (ℕ × InodeInfo))
    → ((info : InodeInfo) → (f info).attr.ino ≡ info.attr.ino)
    → AllOwn inodes
    → AllOwn (update ino f inodes)
AllOwn-update ino f [] e h = tt
AllOwn-update ino f ((j, a) ∷ inodes) e h =
    AllOwn-if (j == ino) _ _ ((e a ∙ h.0.0, h.0.1), h.1) (h.0, AllOwn-update ino f inodes e (h.1))

pub AllOwn-remove_inos :
    (deldir : List DeldirEntry) (inodes : List (ℕ × InodeInfo))
    → AllOwn inodes
    → AllOwn (remove_inos deldir inodes)
AllOwn-remove_inos [] inodes h = h
AllOwn-remove_inos (de ∷ deldir) inodes h =
    AllOwn-remove_inos deldir (remove de.ino inodes) (AllOwn-remove de.ino inodes h)

pub deldir_entries-AllAbove :
    (entries : List DelDirEntry) (i : ℕ) (counts : List (List ℕ × ℕ))
    → AllAbove (deldir_entries entries i counts)
unfolding deldir_entries
deldir_entries-AllAbove [] i counts = tt
deldir_entries-AllAbove (e ∷ entries) i counts =
    (omega arith, deldir_entries-AllAbove entries (i + 1) _)

-- The state between two requests.
pub record IsValid {D : Type 0} (s : FsInner D) : Type 0 where
  pub own : AllOwn s.inodes
  pub above : AllAbove s.deldir

module _ {D : Type 0} where
  pub calling-Safe : {A : Type 0} (m : Exec (Volume D) A) → Safe IsValid Any (calling m)
  unfolding calling
  calling-Safe m = record { run = λ s v. (record { own = v.own; above = v.above }, tt) }

  pub writing-Safe : {A : Type 0} (m : Exec (Writer D) A) → Safe IsValid Any (writing m)
  unfolding writing
  writing-Safe m = record { run = λ s v. (record { own = v.own; above = v.above }, tt) }

  pub rebuild_deldir-Safe : (device : BlockDevice D) → Safe IsValid Any (rebuild_deldir device)
  unfolding rebuild_deldir with_entries
  rebuild_deldir-Safe device = record {
    run = λ s v. go s v (on_volume (list_deldir device) s.access);
  }
    where
      go :
          (s : FsInner D)
          → IsValid s
          → (p : Result (List DelDirEntry) × VolumeAccess D)
          → Keeps IsValid Any (rebuilt (p.0) (record s { access = p.1 }))
      go s v (ok entries, access) = (
        record {
          own = AllOwn-remove_inos s.deldir s.inodes v.own;
          above = deldir_entries-AllAbove entries 0 [];
        },
        tt,
      )
      go s v (err e, access) =
          (record { own = AllOwn-remove_inos s.deldir s.inodes v.own; above = tt }, tt)
      go s v (panic, access) = (record { own = v.own; above = v.above }, tt)

-- What the handlers need of a property of the state to keep it: it implies validity, every call that
-- they make keeps it, and so does a change of the tables that keeps the inodes under their numbers.
pub record FsInvariant {D : Type 0} (device : BlockDevice D) (P : FsInner D → Type 0) : Type 1 where
  pub valid : (s : FsInner D) → P s → IsValid s
  pub listing : (anode : ℕ) → Safe P Any (calling (list_dir_by_anode device anode))
  pub ranged :
      (anode size offset len : ℕ)
      → Safe P Any (calling (read_file_range device anode size offset len))
  pub whole : (anode size : ℕ) → Safe P Any (calling (read_file_data device anode size))
  pub rebuild : Safe P Any (rebuild_deldir device)
  pub written : {A : Type 0} (m : Exec (Writer D) A) → Safe P Any (writing m)
  pub tables :
      (s : FsInner D) (inodes : List (ℕ × InodeInfo)) (cache : List ((ℕ × Str) × ℕ))
      (bufs : List (ℕ × WriteBuf))
      → P s
      → AllOwn inodes
      → P (record s { inodes = inodes; name_cache = cache; write_bufs = bufs })

-- Validity itself.
pub IsValid-FsInvariant : {D : Type 0} (device : BlockDevice D) → FsInvariant device IsValid
IsValid-FsInvariant device = record {
  valid = λ s v. v;
  listing = λ anode. calling-Safe _;
  ranged = λ anode size offset len. calling-Safe _;
  whole = λ anode size. calling-Safe _;
  rebuild = rebuild_deldir-Safe device;
  written = λ m. writing-Safe m;
  tables = λ s inodes cache bufs v own. record { own = own; above = v.above };
}
