-- ===== src/Examples/Mounting.antt =====
-- The theorems on mounted file systems at concrete inputs.
use pfs.Prelude.{
  ℕ, List, [], ◌∷◌, ◌++◌, ◌≡◌, refl, arith, Bool, true, false, leb, contains, range, some, length,
}
use pfs.Error.{Str, chars}
use pfs.Bytes.{zeros}
use pfs.Cache.{Env, new_cache}
use pfs.Volume.{Volume}
use pfs.Util.Dates.{amiga_to_systime}
use pfs.Fuse.Reply.{reply}
use pfs.Fuse.Maps.{ino_key, get}
use pfs.Fuse.Types.{
  calling, FsInner, Pfs3Fs, InodeInfo, WriteBuf, FileAttr, FileType, directory, regular_file,
  attr_of, unix_epoch, read_only, read_write,
}
use pfs.Fuse.Reads.{Dirent, getattr, lookup, readdir, full_listing}
use pfs.Fuse.Mount.{Request, serve, lookup_of, readdir_of, mkdir_of, write_of}
use pfs.Fuse.Buffers.{write, release}
use pfs.Fuse.Invariant.{IsValid}
use pfs.Fuse.Invariant.Serving.{served, served-own, AnswersOwn}
use pfs.Fuse.Untouched.{IsReadOnly, served-IsReadOnly}
use pfs.Fuse.ReadOnly.{shown}
use pfs.Fuse.Contents.{Overlays, write-Overlays, Released, stored_by_release, release-Released}
use pfs.Fuse.Lookup.{lookup-again}
use pfs.Fuse.Listing.{PagesOf, readdir-Pages}
use pfs.Fuse.Protection.{SetsProtection, getxattr-setxattr}
use pfs.Fuse.Xattrs.{setxattr, protection_name}
use pfs.Fuse.Maps.{str_eq}
use pfs.Examples.Data.{memory, small_anodes, small_volume, small_writer}

-- Anode 1 is a directory of one block, the sectors 5 and 6, with an entry `a` for anode 7.
abbrev pub tree_env : Env (List ℕ)
tree_env = record {
  dev =
      zeros 36
      ++ 0 ∷ 0 ∷ 0 ∷ 3 ∷ zeros 20
      ++ 0x41 ∷ 0x42 ∷ zeros 14
      ++ 0 ∷ 0 ∷ 0 ∷ 1 ∷ 0 ∷ 0 ∷ 0 ∷ 5 ∷ zeros 16
      ++ 0x44 ∷ 0x42 ∷ zeros 18
      ++ 20 ∷ 0xFD ∷ 0 ∷ 0 ∷ 0 ∷ 7 ∷ zeros 11
      ++ 1 ∷ b'a' ∷ 0 ∷ [];
  cache = new_cache;
}

abbrev pub tree_volume : Volume (List ℕ)
tree_volume = record small_volume {
  env = tree_env;
  anodes = small_anodes;
  rootblock = record (small_volume.rootblock) { reserved_blksize = 40 };
}

abbrev reader : Pfs3Fs
reader = record { uid = 1000; gid = 1000; block_size = 20; writable = false }

abbrev root : InodeInfo
root = record {
  attr = attr_of reader 1 0 0 unix_epoch directory 0o755 2 20;
  anode = 1;
  parent_ino = 1;
  amiga_protection = 0;
  name = [];
}

-- A mount of the tree for reading.
abbrev tree_fs : FsInner (List ℕ)
tree_fs = record {
  access = read_only tree_volume;
  inodes = (1, root) ∷ [];
  name_cache = [];
  write_bufs = [];
  deldir = [];
}

-- The attributes of the entry `a`.
abbrev found_attr : FileAttr
unfolding amiga_to_systime
found_attr = attr_of reader 107 0 0 (amiga_to_systime 0 0 0) regular_file 0o777 1 20

tree_fs-IsValid : IsValid tree_fs
tree_fs-IsValid = record { own = ((refl, λ e. omega (arith, e)), tt); above = tt }

-- Look the entry up, list the directory, try to make another, and to write.
abbrev some_requests : List Request
some_requests =
    lookup_of 1 (some (b'a' ∷ []))
    ∷ readdir_of (λ shown d. false) 1 0
    ∷ mkdir_of 1 (some (b'b' ∷ []))
    ∷ write_of 107 0 (1 ∷ 2 ∷ [])
    ∷ []

served-own_example :
    IsValid (served memory reader some_requests tree_fs)
    × AnswersOwn 107 ((getattr memory reader 107 (served memory reader some_requests tree_fs)).0)
served-own_example = served-own memory reader some_requests tree_fs 107 tree_fs-IsValid

-- The same inode from the directory's bytes.
served_run :
    (getattr memory reader 107 (served memory reader some_requests tree_fs)).0 ≡ reply found_attr
unfolding getattr serve calling contains range
served_run = refl

served-IsReadOnly_example : IsReadOnly tree_env.dev (served memory reader some_requests tree_fs)
served-IsReadOnly_example =
    served-IsReadOnly memory tree_env.dev reader some_requests tree_fs
      (record { is_valid = tree_fs-IsValid; reads_from = refl })

abbrev after_lookup : FsInner (List ℕ)
unfolding lookup
after_lookup = (lookup memory reader 1 (some (b'a' ∷ [])) tree_fs).1

lookup_run : lookup memory reader 1 (some (b'a' ∷ [])) tree_fs ≡ (reply found_attr, after_lookup)
unfolding lookup after_lookup calling contains range
lookup_run = refl

lookup-again_example :
    lookup memory reader 1 (some (b'a' ∷ [])) after_lookup ≡ (reply found_attr, after_lookup)
lookup-again_example =
    lookup-again memory reader 1 (b'a' ∷ []) tree_fs after_lookup found_attr (unfold str_eq in refl)
      refl lookup_run

abbrev tree_listing : List (ℕ × FileType × Str)
tree_listing =
    (1, directory, b'.' ∷ [])
    ∷ (1, directory, b'.' ∷ b'.' ∷ [])
    ∷ (107, regular_file, b'a' ∷ [])
    ∷ []

abbrev after_listing : FsInner (List ℕ)
unfolding full_listing
after_listing = (full_listing memory reader 1 tree_fs).1

full_listing_run : full_listing memory reader 1 tree_fs ≡ (reply tree_listing, after_listing)
unfolding full_listing after_listing calling contains range
full_listing_run = refl

-- A buffer for two lines.
abbrev two_lines : List Dirent → Dirent → Bool
two_lines shown d = leb 2 (length shown)

readdir-Pages_example :
    PagesOf two_lines 1 tree_listing (readdir memory reader two_lines 1 1 tree_fs)
readdir-Pages_example =
    readdir-Pages memory reader two_lines 1 1 tree_fs after_listing tree_listing full_listing_run

abbrev editor : Pfs3Fs
editor = record reader { writable = true }

abbrev draft : WriteBuf
draft = record { parent_anode = 1; file_name = b'a' ∷ []; content = 10 ∷ 11 ∷ 12 ∷ [] }

abbrev file : InodeInfo
file = record {
  attr = attr_of editor 107 3 1 unix_epoch regular_file 0o777 1 20;
  anode = 7;
  parent_ino = 1;
  amiga_protection = 0;
  name = b'a' ∷ [];
}

-- A mount for writing, with an open file.
abbrev open_fs : FsInner (List ℕ)
open_fs = record tree_fs {
  access = read_write small_writer;
  inodes = (1, root) ∷ (107, file) ∷ [];
  write_bufs = (107, draft) ∷ [];
}

write-Overlays_example :
    Overlays 107 draft 5 (1 ∷ 2 ∷ []) open_fs (write memory editor 107 5 (1 ∷ 2 ∷ []) open_fs)
write-Overlays_example = write-Overlays memory editor 107 5 (1 ∷ 2 ∷ []) open_fs draft refl refl

-- The gap before the bytes is filled with zeros.
write_run :
    get 107 ((write memory editor 107 5 (1 ∷ 2 ∷ []) open_fs).1).write_bufs
    ≡ some (record draft { content = 10 ∷ 11 ∷ 12 ∷ 0 ∷ 0 ∷ 1 ∷ 2 ∷ [] })
unfolding write
write_run = refl

release-Released_example :
    Released memory editor 107 draft open_fs
      (stored_by_release memory 107 draft open_fs)
      (release memory editor 107 open_fs)
release-Released_example = release-Released memory editor 107 open_fs draft refl

getxattr-setxattr_example :
    SetsProtection memory editor 107 0
      (chars "rwed")
      (setxattr memory editor 107 (some protection_name) (some (chars "rwed")) open_fs)
getxattr-setxattr_example =
    getxattr-setxattr memory editor 107 open_fs file root (chars "rwed") refl refl refl
