-- ===== src/Fuse/Mount.antt =====
-- `Pfs3Fs::new` of crates/pfs3-fuse/src/types.rs, and the requests that a mounted file system answers.
use pfs.Prelude.{ℕ, List, [], ◌∷◌, Bool, true, false, Option}
use pfs.Error.{Str}
use pfs.Io.{BlockDevice}
use pfs.Util.Dates.{SystemTime, amiga_to_systime}
use pfs.Ondisk.Constants.{anode_rootdir}
use pfs.Fuse.Reply.{Reply}
use pfs.Fuse.Types.{
  FsInner, Pfs3Fs, InodeInfo, VolumeAccess, read_only, read_write, vol, attr_of, fuse_root_ino,
  directory,
}
use pfs.Fuse.Deldir.{rebuild_deldir}
use pfs.Fuse.Reads.{Dirent, getattr, lookup, readdir, read, readlink, statfs}
use pfs.Fuse.Entries.{mkdir, create, unlink, rmdir, rename}
use pfs.Fuse.Buffers.{OpenFlags, open_file, write, release, setattr}
use pfs.Fuse.Xattrs.{getxattr, setxattr, listxattr}

-- `matches!(access, VolumeAccess::ReadWrite(_))`
abbrev pub is_read_write : {D : Type 0} → VolumeAccess D → Bool
is_read_write (read_only v) = false
is_read_write (read_write w) = true

-- The requests of the kernel.
pub data Request : Type 0 where
  getattr_of statfs_of readlink_of release_of : ℕ → Request
  lookup_of mkdir_of create_of unlink_of rmdir_of : ℕ → Option Str → Request
  readdir_of : (List Dirent → Dirent → Bool) → ℕ → ℕ → Request
  open_of : OpenFlags → ℕ → Request
  read_of : ℕ → ℕ → ℕ → Request
  write_of : ℕ → ℕ → List ℕ → Request
  rename_of : ℕ → Option Str → ℕ → Option Str → Request
  setattr_of : ℕ → Option ℕ → Option ℕ → Request
  getxattr_of : ℕ → Option Str → ℕ → Request
  setxattr_of : ℕ → Option Str → Option Str → Request
  listxattr_of : ℕ → ℕ → Request

module _ {D : Type 0} (device : BlockDevice D) where
  -- The mounted file system before the trash directory is read; `uid` and `gid` are the caller's.
  abbrev pub root_info : Pfs3Fs → SystemTime → InodeInfo
  root_info fs time = record {
    attr = attr_of fs fuse_root_ino 0 0 time directory 0o755 2 fs.block_size;
    anode = anode_rootdir;
    parent_ino = fuse_root_ino;
    amiga_protection = 0;
    name = [];
  }

  unfoldable pub config : ℕ → ℕ → VolumeAccess D → Pfs3Fs
  unfolding vol
  config uid gid access = record {
    uid = uid;
    gid = gid;
    block_size = device.block_size (vol access).env.dev;
    writable = is_read_write access;
  }

  abbrev pub unlisted : ℕ → ℕ → VolumeAccess D → FsInner D
  unfolding vol config amiga_to_systime
  unlisted uid gid access =
      let rb = (vol access).rootblock in
      let time = amiga_to_systime rb.creation_day rb.creation_minute rb.creation_tick in
      record {
        access = access;
        inodes = (fuse_root_ino, root_info (config uid gid access) time) ∷ [];
        name_cache = [];
        write_bufs = [];
        deldir = [];
      }

  unfoldable pub new_fs : ℕ → ℕ → VolumeAccess D → Reply (Unit {0}) × FsInner D
  unfolding vol config amiga_to_systime rebuild_deldir
  new_fs uid gid access = rebuild_deldir device (unlisted uid gid access)

  -- The state after a request.
  unfoldable pub serve : Pfs3Fs → Request → FsInner D → FsInner D
  unfolding getattr lookup readdir read readlink statfs mkdir create unlink rmdir rename open_file
      write release setattr getxattr setxattr listxattr
  serve fs (getattr_of ino) s = (getattr device fs ino s).1
  serve fs (statfs_of ino) s = (statfs device fs s).1
  serve fs (readlink_of ino) s = (readlink device fs ino s).1
  serve fs (release_of ino) s = (release device fs ino s).1
  serve fs (lookup_of parent name) s = (lookup device fs parent name s).1
  serve fs (mkdir_of parent name) s = (mkdir device fs parent name s).1
  serve fs (create_of parent name) s = (create device fs parent name s).1
  serve fs (unlink_of parent name) s = (unlink device fs parent name s).1
  serve fs (rmdir_of parent name) s = (rmdir device fs parent name s).1
  serve fs (readdir_of full ino offset) s = (readdir device fs full ino offset s).1
  serve fs (open_of flags ino) s = (open_file device fs flags ino s).1
  serve fs (read_of ino offset size) s = (read device fs ino offset size s).1
  serve fs (write_of ino off bytes) s = (write device fs ino off bytes s).1
  serve fs (rename_of parent name newparent newname) s =
      (rename device fs parent name newparent newname s).1
  serve fs (setattr_of ino mode size) s = (setattr device fs ino mode size s).1
  serve fs (getxattr_of ino name size) s = (getxattr device fs ino name size s).1
  serve fs (setxattr_of ino name value) s = (setxattr device fs ino name value s).1
  serve fs (listxattr_of ino size) s = (listxattr device fs ino size s).1
