-- ===== src/Fuse/Deldir.antt =====
-- `rebuild_deldir` of crates/pfs3-fuse/src/types.rs: the listing of the trash directory.
use pfs.Prelude.{ℕ, zero, suc, ◌+◌, List, [], ◌∷◌, ◌++◌, map, none, some}
use pfs.Error.{Str, Result, ok, err, panic}
use pfs.Io.{BlockDevice}
use pfs.Util.Dates.{amiga_to_systime, decimal}
use pfs.Util.Names.{to_ascii_lowercase}
use pfs.Ondisk.DelDir
use pfs.Ondisk.DelDir.{DelDirEntry}
use pfs.Volume.{list_deldir}
use pfs.Fuse.Maps.{get, insert, remove, ino_key, str_key}
use pfs.Fuse.Reply.{Handler, reply, died}
use pfs.Fuse.Types.{FsInner, DeldirEntry, InodeInfo, deldir_ino_base, on_volume}

-- `*name_counts.entry(name).or_insert(0)`
abbrev count_of : Str → List (Str × ℕ) → ℕ
count_of name counts = elim (get name counts) [ none ↦ 0 | some n ↦ n ]

-- The name, with the number of earlier entries of that name, if there is one.
abbrev numbered : Str → ℕ → Str
numbered base zero = base
numbered base (suc n) = base ++ b'.' ∷ decimal 10 (suc n)

-- The loop over the entries; `i` is the index of the first.
unfoldable pub deldir_entries : List DelDirEntry → ℕ → List (Str × ℕ) → List DeldirEntry
unfolding amiga_to_systime DelDir.file_size
deldir_entries [] i counts = []
deldir_entries (e ∷ entries) i counts =
    let key = map to_ascii_lowercase e.filename in
    let count = count_of key counts in
    record {
      ino = deldir_ino_base + i;
      anode = e.anode;
      size = DelDir.file_size e;
      display_name = numbered e.filename count;
      time = amiga_to_systime e.creation_day e.creation_minute e.creation_tick;
    }
    ∷ deldir_entries entries (i + 1) (insert key (count + 1) counts)

-- The old entries' inodes go away.
abbrev pub remove_inos : List DeldirEntry → List (ℕ × InodeInfo) → List (ℕ × InodeInfo)
remove_inos [] inodes = inodes
remove_inos (old ∷ olds) inodes = remove_inos olds (remove old.ino inodes)

module _ {D : Type 0} where
  unfoldable pub with_entries : FsInner D → List DelDirEntry → FsInner D
  unfolding deldir_entries
  with_entries inner entries = record inner {
    inodes = remove_inos inner.deldir inner.inodes;
    deldir = deldir_entries entries 0 [];
  }

  -- `list_deldir().unwrap_or_default()`
  abbrev pub rebuilt : Result (List DelDirEntry) → Handler (FsInner D) (Unit {0})
  rebuilt (ok entries) inner = (reply tt, with_entries inner entries)
  rebuilt (err e) inner = (reply tt, with_entries inner [])
  rebuilt panic inner = (died, inner)

module _ {D : Type 0} (device : BlockDevice D) where
  unfoldable pub rebuild_deldir : Handler (FsInner D) (Unit {0})
  unfolding list_deldir with_entries
  rebuild_deldir inner =
      let (r, access) = on_volume (list_deldir device) inner.access in
      rebuilt r (record inner { access = access })
