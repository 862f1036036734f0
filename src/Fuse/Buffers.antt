-- ===== src/Fuse/Buffers.antt =====
-- The handlers of crates/pfs3-fuse/src/main.rs for the contents of files: open, write, release, setattr. What is
-- written to a file goes to a buffer, which is stored when the file is released.
use pfs.Prelude.{
  ℕ, ◌+◌, ◌-◌, List, [], ◌∷◌, ◌++◌, Bool, true, false, ◌&&◌, ◌||◌, not, Option, none, some, bit_and,
  bit_or, ◌==◌, ltb, if◌then◌else◌, length, take, replicate, write_at,
}
use pfs.Error.{Result, ok, err, panic}
use pfs.Io.{BlockDevice}
use pfs.Util.Protection.{amiga_protection_to_mode, unix_mode_to_amiga_protection}
use pfs.Ondisk.Constants.{anode_rootdir}
use pfs.Volume.{read_file_data}
use pfs.Writer.Files.{overwrite_file_in}
use pfs.Writer.Entries.{update_dir_entry_protection}
use pfs.Fuse.Maps.{ino_key, get, insert, remove, update}
use pfs.Fuse.Reply.{
  Handler, enoent, eio, eisdir, eperm, reply, error, died, answer, gets, some_or, ok_or, ok_else,
  modify, require, ◌>>=◌, ◌>>◌,
}
use pfs.Fuse.Types.{
  FsInner, Pfs3Fs, FileAttr, InodeInfo, WriteBuf, calling, writing, is_directory, blocks_of,
}

-- The flags of `open` that matter, as bits of libc.
pub record OpenFlags : Type 0 where
  pub o_wronly : Bool
  pub o_rdwr : Bool
  pub o_trunc : Bool
  pub o_append : Bool

-- `Vec::resize(n, 0)`
abbrev pub resize : ℕ → List ℕ → List ℕ
resize n buf = take n buf ++ replicate (n - length buf) 0

-- The bytes after a write at an offset; a gap is filled with zeros.
unfoldable pub overlaid : List ℕ → ℕ → List ℕ → List ℕ
overlaid buf off bytes =
    let end = off + length bytes in
    write_at (if ltb (length buf) end then resize end buf else buf) off bytes

abbrev pub set_content : List ℕ → WriteBuf → WriteBuf
set_content bytes b = record b { content = bytes }

abbrev pub set_size : ℕ → InodeInfo → InodeInfo
set_size n info = record info { attr = record (info.attr) { size = n } }

abbrev pub anode_or : ℕ → Option InodeInfo → ℕ
anode_or d none = d
anode_or d (some info) = info.anode

unfoldable pub set_protection : ℕ → InodeInfo → InodeInfo
unfolding amiga_protection_to_mode
set_protection prot info = record info {
  attr = record (info.attr) {
    perm = bit_and (amiga_protection_to_mode prot (is_directory info.attr.kind)) 0o777;
  };
  amiga_protection = prot;
}

abbrev pub is_empty : List ℕ → Bool
is_empty [] = true
is_empty (x ∷ xs) = false

module _ {D : Type 0} where
  -- The buffer and the size that the inode shows.
  abbrev pub stored : ℕ → List ℕ → FsInner D → FsInner D
  stored ino content s = record s {
    write_bufs = update ino (set_content content) s.write_bufs;
    inodes = update ino (set_size (length content)) s.inodes;
  }

  -- The part of setattr for a size: the inode and the buffer change, the volume does not.
  abbrev pub set_length : ℕ → Option ℕ → FsInner D → FsInner D
  set_length ino none s = s
  set_length ino (some new_size) s = record s {
    inodes = update ino (set_size new_size) s.inodes;
    write_bufs = update ino (λ b. record b { content = resize new_size b.content }) s.write_bufs;
  }

  abbrev pub ok_unless_failed : Option (Result (Unit {0})) → Handler (FsInner D) (Unit {0})
  ok_unless_failed none s = (reply tt, s)
  ok_unless_failed (some r) s = ok_or r eio s

module _ {D : Type 0} (device : BlockDevice D) (fs : Pfs3Fs) where
  unfoldable pub load : OpenFlags → InodeInfo → Handler (FsInner D) (List ℕ)
  unfolding read_file_data
  load flags info =
      if flags.o_trunc
      then answer []
      else do result ← calling (read_file_data device info.anode info.attr.size); ok_else result []

  -- A file that is opened for writing gets a buffer with its contents.
  unfoldable pub open_file : OpenFlags → ℕ → Handler (FsInner D) (Unit {0})
  unfolding load
  open_file flags ino = do
    inner ← gets (λ s. s)
    info ← some_or (get ino inner.inodes) enoent
    require (not (is_directory info.attr.kind)) eisdir
    if fs.writable && (flags.o_wronly || flags.o_rdwr || flags.o_trunc || flags.o_append)
        then (do
          bytes ← load flags info
          modify (λ s. record s {
            write_bufs =
                insert ino
                  (record {
                    parent_anode = anode_or anode_rootdir (get info.parent_ino inner.inodes);
                    file_name = info.name;
                    content = bytes;
                  })
                  s.write_bufs;
          }))
        else answer tt

  unfoldable pub write : ℕ → ℕ → List ℕ → Handler (FsInner D) ℕ
  unfolding overlaid
  write ino off bytes = do
    require fs.writable eperm
    inner ← gets (λ s. s)
    b ← some_or (get ino inner.write_bufs) eio
    modify (stored ino (overlaid b.content off bytes))
    answer (length bytes)

  abbrev pub set_stored_size : ℕ → InodeInfo → InodeInfo
  set_stored_size len info = record info {
    attr = record (info.attr) { size = len; blocks = blocks_of len fs.block_size };
  }

  -- The buffer goes back when the file could not be stored.
  abbrev pub after_store :
      ℕ → WriteBuf → Option (Result (Unit {0})) → Handler (FsInner D) (Unit {0})
  after_store ino b none s = (reply tt, s)
  after_store ino b (some (ok u)) s = (
    reply tt,
    record s {
      inodes = update ino (set_stored_size (length b.content)) s.inodes;
      write_bufs = remove ino s.write_bufs;
    },
  )
  after_store ino b (some (err e)) s =
      (error eio, record s { write_bufs = insert ino b s.write_bufs })
  after_store ino b (some panic) s = (died, s)

  -- Store the buffer, unless it is empty or nothing is known of the file.
  unfoldable pub store : ℕ → WriteBuf → Handler (FsInner D) (Unit {0})
  unfolding overwrite_file_in
  store ino b = do
    inner ← gets (λ s. s)
    let file_anode = anode_or 0 (get ino inner.inodes)
    if is_empty b.content || file_anode == 0 then answer tt else do
      done ← writing (overwrite_file_in device b.parent_anode b.file_name file_anode b.content)
      after_store ino b done

  unfoldable pub release_buffer : ℕ → Option WriteBuf → Handler (FsInner D) (Unit {0})
  unfolding store
  release_buffer ino none s = (reply tt, s)
  release_buffer ino (some b) s = store ino b (record s { write_bufs = remove ino s.write_bufs })

  unfoldable pub release : ℕ → Handler (FsInner D) (Unit {0})
  unfolding release_buffer
  release ino = do inner ← gets (λ s. s); release_buffer ino (get ino inner.write_bufs)

  -- Write the protection of an entry, then show it, if the parent is known.
  unfoldable pub protect : ℕ → InodeInfo → ℕ → Option InodeInfo → Handler (FsInner D) (Unit {0})
  unfolding update_dir_entry_protection set_protection
  protect ino info prot none = answer tt
  protect ino info prot (some parent) = do
    done ← writing (update_dir_entry_protection device parent.anode info.name prot)
    ok_unless_failed done
    modify (λ s. record s { inodes = update ino (set_protection prot) s.inodes })

  unfoldable pub set_mode_of : ℕ → ℕ → Option InodeInfo → Handler (FsInner D) (Unit {0})
  unfolding protect unix_mode_to_amiga_protection
  set_mode_of ino new_mode none = answer tt
  set_mode_of ino new_mode (some info) = do
    inner ← gets (λ s. s)
    protect ino info
        (bit_or (bit_and info.amiga_protection 0xF0)
          (bit_and (unix_mode_to_amiga_protection new_mode) 0x0F))
        (get info.parent_ino inner.inodes)

  unfoldable pub set_mode : ℕ → Option ℕ → Handler (FsInner D) (Unit {0})
  unfolding set_mode_of
  set_mode ino none = answer tt
  set_mode ino (some new_mode) = do
    require fs.writable eperm
    inner ← gets (λ s. s)
    set_mode_of ino new_mode (get ino inner.inodes)

  -- Owner, group and times are not changed.
  unfoldable pub setattr : ℕ → Option ℕ → Option ℕ → Handler (FsInner D) FileAttr
  unfolding set_mode
  setattr ino mode size = do
    modify (set_length ino size)
    set_mode ino mode
    inner ← gets (λ s. s)
    info ← some_or (get ino inner.inodes) enoent
    answer info.attr
