-- ===== src/Fuse/Types.antt =====
-- crates/pfs3-fuse/src/types.rs: the state of the mounted file system, and the attributes of entries.
use pfs.Prelude.{
  ℕ, ◌+◌, ◌-◌, ◌/◌, List, Bool, true, false, Option, none, some, bit_and, ◌==◌, if◌then◌else◌,
}
use pfs.Error.{Str, Result}
use pfs.Exec.{Exec}
use pfs.Util.Dates.{SystemTime, amiga_to_systime}
use pfs.Util.Protection.{amiga_protection_to_mode}
use pfs.Ondisk.Constants.{anode_rootdir, mode_deldir}
use pfs.Ondisk.DirEntry.{DirEntry, is_dir, is_softlink, file_size}
use pfs.Ondisk.Rootblock.{has_flag}
use pfs.Volume.{Volume}
use pfs.Writer.State.{Writer}
use pfs.Fuse.Reply.{Handler, reply}
use pfs.Fuse.Maps.{ino_key, name_key}

abbrev pub fuse_root_ino : ℕ
fuse_root_ino = 1

abbrev pub trashcan_ino : ℕ
trashcan_ino = 2

abbrev pub inode_anode_offset : ℕ
inode_anode_offset = 100

abbrev pub deldir_ino_base : ℕ
deldir_ino_base = 0x8000_0000

-- `fuser::FileType`, of which three are used.
pub data FileType : Type 0 where
  directory symlink regular_file : FileType

abbrev pub is_directory : FileType → Bool
is_directory directory = true
is_directory _ = false

-- `fuser::FileAttr`
pub record FileAttr : Type 0 where
  pub ino : ℕ
  pub size : ℕ
  pub blocks : ℕ
  pub atime : SystemTime
  pub mtime : SystemTime
  pub ctime : SystemTime
  pub crtime : SystemTime
  pub kind : FileType
  pub perm : ℕ
  pub nlink : ℕ
  pub uid : ℕ
  pub gid : ℕ
  pub rdev : ℕ
  pub flags : ℕ
  pub blksize : ℕ

pub record InodeInfo : Type 0 where
  pub attr : FileAttr
  pub anode : ℕ
  pub parent_ino : ℕ
  pub amiga_protection : ℕ
  pub name : Str

-- The volume of a read-only mount, or the writer that owns it.
pub data VolumeAccess (D : Type 0) : Type 0 where
  read_only : Volume D → VolumeAccess D
  read_write : Writer D → VolumeAccess D

pub record DeldirEntry : Type 0 where
  pub ino : ℕ
  pub anode : ℕ
  pub size : ℕ
  pub display_name : Str
  pub time : SystemTime

-- A file that is being written: the anode of its directory, its name and its bytes.
pub record WriteBuf : Type 0 where
  pub parent_anode : ℕ
  pub file_name : Str
  pub content : List ℕ

pub record FsInner (D : Type 0) : Type 0 where
  pub access : VolumeAccess D
  pub inodes : List (ℕ × InodeInfo)
  pub name_cache : List ((ℕ × Str) × ℕ)
  pub write_bufs : List (ℕ × WriteBuf)
  pub deldir : List DeldirEntry

-- The fields of `Pfs3Fs` beside the state.
pub record Pfs3Fs : Type 0 where
  pub uid : ℕ
  pub gid : ℕ
  pub block_size : ℕ
  pub writable : Bool

abbrev pub unix_epoch : SystemTime
unix_epoch = record { secs = 0; nanos = 0 }

-- The attributes with one time for all four, owned by the user who mounted.
abbrev pub attr_of : Pfs3Fs → ℕ → ℕ → ℕ → SystemTime → FileType → ℕ → ℕ → ℕ → FileAttr
attr_of fs ino size blocks time kind perm nlink blksize = record {
  ino = ino;
  size = size;
  blocks = blocks;
  atime = time;
  mtime = time;
  ctime = time;
  crtime = time;
  kind = kind;
  perm = perm;
  nlink = nlink;
  uid = fs.uid;
  gid = fs.gid;
  rdev = 0;
  flags = 0;
  blksize = blksize;
}

unfoldable pub trashcan_attr : Pfs3Fs → FileAttr
trashcan_attr fs = attr_of fs trashcan_ino 0 0 unix_epoch directory 0o555 2 512

unfoldable pub anode_to_ino : ℕ → ℕ
anode_to_ino anode = if anode == anode_rootdir then fuse_root_ino else anode + inode_anode_offset

-- `size.div_ceil(bs)`; the sector size of a mounted volume is not zero.
abbrev pub blocks_of : ℕ → ℕ → ℕ
blocks_of size bs = (size + bs - 1) / bs

unfoldable pub kind_of : DirEntry → FileType
unfolding is_dir is_softlink
kind_of entry =
    if is_dir entry then directory else if is_softlink entry then symlink else regular_file

-- The inode number and the inode of a directory entry.
unfoldable pub make_attr : Pfs3Fs → DirEntry → ℕ → ℕ × InodeInfo
unfolding anode_to_ino kind_of is_dir file_size amiga_to_systime amiga_protection_to_mode
make_attr fs entry parent_ino =
    let ino = anode_to_ino entry.anode in
    let size = file_size entry in
    let time = amiga_to_systime entry.creation_day entry.creation_minute entry.creation_tick in
    (
      ino,
      record {
        attr =
            attr_of fs ino size (blocks_of size fs.block_size) time (kind_of entry)
              (bit_and (amiga_protection_to_mode entry.protection (is_dir entry)) 0o777)
              (if is_dir entry then 2 else 1) fs.block_size;
        anode = entry.anode;
        parent_ino = parent_ino;
        amiga_protection = entry.protection;
        name = entry.name;
      },
    )

module _ {D : Type 0} where
  -- `VolumeAccess::vol`
  unfoldable pub vol : VolumeAccess D → Volume D
  vol (read_only v) = v
  vol (read_write w) = w.vol

  abbrev pub with_volume : Writer D → Volume D → VolumeAccess D
  with_volume w v = read_write (record w { vol = v })

  -- A method of the volume through `VolumeAccess::vol_mut`.
  abbrev pub on_volume : {A : Type 0} → Exec (Volume D) A → Exec (VolumeAccess D) A
  on_volume m (read_only v) = let (r, v') = m v in (r, read_only v')
  on_volume m (read_write w) = let (r, v') = m w.vol in (r, with_volume w v')

  unfoldable pub has_deldir : FsInner D → Bool
  unfolding vol has_flag
  has_deldir inner = has_flag (vol inner.access).rootblock mode_deldir

  -- A method of the volume, whose result the handler looks at.
  unfoldable pub calling : {A : Type 0} → Exec (Volume D) A → Handler (FsInner D) (Result A)
  calling m inner =
      let (r, access) = on_volume m inner.access in (reply r, record inner { access = access })

  abbrev pub writing_on :
      {A : Type 0} → Exec (Writer D) A → VolumeAccess D → Option (Result A) × VolumeAccess D
  writing_on m (read_only v) = (none, read_only v)
  writing_on m (read_write w) = let (r, w') = m w in (some r, read_write w')

  -- A method of the writer, if `VolumeAccess::writer` has one.
  unfoldable pub writing :
      {A : Type 0} → Exec (Writer D) A → Handler (FsInner D) (Option (Result A))
  writing m inner =
      let (r, access) = writing_on m inner.access in (reply r, record inner { access = access })
