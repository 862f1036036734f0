-- ===== src/Fuse/ReadOnly.antt =====
-- About read-only mounts.
use pfs.Prelude.{Option, none, some}
use pfs.Fuse.Reply.{Reply, reply, error, enoent}
use pfs.Fuse.Maps.{ino_key}
use pfs.Fuse.Types.{InodeInfo, FileAttr}

-- The attributes that setattr answers with.
abbrev pub shown : Option InodeInfo → Reply FileAttr
shown none = error enoent
shown (some info) = reply info.attr
