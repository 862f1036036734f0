-- ===== src/Fuse/Xattrs.antt =====
-- The handlers of crates/pfs3-fuse/src/main.rs for extended attributes: getxattr, setxattr, listxattr. The one
-- attribute is the protection in letters. A name or value is `none` where it is not UTF-8.
use pfs.Prelude.{
  ℕ, List, [], ◌∷◌, ◌++◌, Bool, ◌&&◌, ◌||◌, Option, none, some, ◌==◌, leb, ltb, if◌then◌else◌,
  length,
}
use pfs.Error.{Str, chars}
use pfs.Io.{BlockDevice}
use pfs.Util.Names.{as_bytes}
use pfs.Util.Protection.{amiga_protection_string, parse_amiga_protection}
use pfs.Fuse.Maps.{ino_key, get, str_eq}
use pfs.Fuse.Reply.{
  Handler, enoent, eio, eperm, erange, enotsup, no_xattr, answer, fail, gets, some_or, require,
  ◌>>=◌, ◌>>◌,
}
use pfs.Fuse.Types.{FsInner, Pfs3Fs, InodeInfo, fuse_root_ino, trashcan_ino}
use pfs.Fuse.Buffers.{protect}

-- `fuser::ReplyXattr`
pub data XattrReply : Type 0 where
  xattr_size : ℕ → XattrReply
  xattr_data : List ℕ → XattrReply

abbrev pub protection_name : Str
protection_name = chars "user.amiga.protection"

-- The characters that `str::trim` takes off: White_Space of Unicode.
abbrev pub is_whitespace : ℕ → Bool
is_whitespace c =
    leb 9 c && leb c 13
    || c == 32
    || c == 0x85
    || c == 0xA0
    || c == 0x1680
    || leb 0x2000 c && leb c 0x200A
    || c == 0x2028
    || c == 0x2029
    || c == 0x202F
    || c == 0x205F
    || c == 0x3000

unfoldable pub trim_start : Str → Str
trim_start [] = []
trim_start (c ∷ s) = let rest = trim_start s in if is_whitespace c then rest else c ∷ s

abbrev keep_last : ℕ → Str → Str
keep_last c [] = if is_whitespace c then [] else c ∷ []
keep_last c (d ∷ s) = c ∷ d ∷ s

unfoldable pub trim_end : Str → Str
trim_end [] = []
trim_end (c ∷ s) = keep_last c (trim_end s)

unfoldable pub trim : Str → Str
unfolding trim_start trim_end
trim s = trim_end (trim_start s)

-- The size protocol: a size of 0 asks for the size, a size that is too small is an error.
abbrev pub sized : {S : Type 0} → ℕ → List ℕ → Handler S XattrReply
sized size bytes =
    if size == 0
    then answer (xattr_size (length bytes))
    else if ltb size (length bytes)
    then fail erange
    else answer (xattr_data bytes)

abbrev pub protection_of : Option InodeInfo → ℕ
protection_of none = 0
protection_of (some info) = info.amiga_protection

module _ {D : Type 0} (device : BlockDevice D) (fs : Pfs3Fs) where
  unfoldable pub getxattr : ℕ → Option Str → ℕ → Handler (FsInner D) XattrReply
  unfolding str_eq as_bytes amiga_protection_string
  getxattr ino name size = if ino == fuse_root_ino || ino == trashcan_ino then fail no_xattr else do
    name_str ← some_or name enoent
    require (str_eq name_str protection_name) no_xattr
    inner ← gets (λ s. s)
    info ← some_or (get ino inner.inodes) enoent
    sized size (as_bytes (amiga_protection_string info.amiga_protection))

  unfoldable pub setxattr : ℕ → Option Str → Option Str → Handler (FsInner D) (Unit {0})
  unfolding str_eq trim parse_amiga_protection protect
  setxattr ino name value = do
    require fs.writable eperm
    name_str ← some_or name eio
    require (str_eq name_str protection_name) enotsup
    spec ← some_or value eio
    inner ← gets (λ s. s)
    new_prot ←
        some_or (parse_amiga_protection (protection_of (get ino inner.inodes)) (trim spec)) eio
    info ← some_or (get ino inner.inodes) enoent
    protect device fs ino info new_prot (get info.parent_ino inner.inodes)

  unfoldable pub listxattr : ℕ → ℕ → Handler (FsInner D) XattrReply
  unfolding as_bytes
  listxattr ino size = do
    inner ← gets (λ s. s)
    info ← some_or (get ino inner.inodes) enoent
    if ino == fuse_root_ino || ino == trashcan_ino
        then (if size == 0 then answer (xattr_size 0) else answer (xattr_data []))
        else sized size (as_bytes (protection_name ++ 0 ∷ []))
