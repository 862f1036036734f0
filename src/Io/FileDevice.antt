-- ===== src/Io/FileDevice.antt =====
-- `FileBlockDevice`: a partition inside a file. The file is its bytes.
pub mod Laws
use pfs.Prelude.{
  ℕ, ◌+◌, ◌-◌, ◌*◌, ◌/◌, List, [], ◌∷◌, ◌||◌, Bool, true, ◌^◌, ◌&&◌, ltb, leb, not, ◌==◌,
  if◌then◌else◌, length, take, drop, read_at, write_at, ◌++◌, replicate,
}
use pfs.Error.{Result, ok, err, panic, io, too_short, block_out_of_range, read_only}
use pfs.Exec.{Exec}
use pfs.Io.Defs.{BlockDevice}

pub record FileBlockDevice : Type 0 where
  pub file : List ℕ
  pub block_bytes : ℕ
  pub partition_offset : ℕ
  pub total_blocks : ℕ
  pub writable : Bool

-- `open`, `open_rw` and `new_impl`: a `total_blocks` of 0 stands for what the file holds. The
-- subtraction is of u64; a file shorter than the offset wraps around.
unfoldable pub new_impl : List ℕ → ℕ → ℕ → ℕ → Bool → Result FileBlockDevice
new_impl file block_bytes partition_offset total_blocks writable =
    if total_blocks == 0
    then (if block_bytes == 0
        then panic
        else ok (record {
          file = file;
          block_bytes = block_bytes;
          partition_offset = partition_offset;
          total_blocks =
              (if leb partition_offset (length file)
                then length file - partition_offset
                else length file + 2 ^ 64 - partition_offset)
              / block_bytes;
          writable = writable;
        }))
    else ok (record {
      file = file;
      block_bytes = block_bytes;
      partition_offset = partition_offset;
      total_blocks = total_blocks;
      writable = writable;
    })

unfoldable pub create : ℕ → ℕ → FileBlockDevice
create block_bytes total_blocks = record {
  file = replicate (total_blocks * block_bytes) 0;
  block_bytes = block_bytes;
  partition_offset = 0;
  total_blocks = total_blocks;
  writable = true;
}

-- `seek` and `read_exact`: an I/O error where the file ends before the bytes are read, unless none are
-- asked for. The buffer may be longer than what is read.
unfoldable pub read_blocks : FileBlockDevice → ℕ → ℕ → List ℕ → Result (List ℕ)
read_blocks d block count buf =
    let offset = d.partition_offset + block * d.block_bytes in
    let len = count * d.block_bytes in
    if ltb (length buf) len
    then err (too_short "read buffer")
    else if len == 0 || leb (offset + len) (length d.file)
    then ok (write_at buf 0 (read_at d.file offset len))
    else err io

unfoldable pub read_block : FileBlockDevice → ℕ → List ℕ → Result (List ℕ)
unfolding read_blocks
read_block d block buf = read_blocks d block 1 buf

-- `write_all` past the end makes the file longer, with zeros in a gap.
abbrev pub splice : List ℕ → ℕ → List ℕ → List ℕ
splice file offset bytes =
    take offset (file ++ replicate (offset - length file) 0)
    ++ bytes
    ++ drop (offset + length bytes) file

-- A write of no bytes leaves the file alone.
abbrev pub file_write : List ℕ → ℕ → List ℕ → List ℕ
file_write file offset [] = file
file_write file offset (b ∷ bytes) = splice file offset (b ∷ bytes)

unfoldable pub write_blocks : ℕ → ℕ → List ℕ → Exec FileBlockDevice Unit
write_blocks block count buf d =
    if not d.writable
    then (err read_only, d)
    else if ltb 0 d.total_blocks && ltb d.total_blocks (block + count)
    then (err (block_out_of_range block), d)
    else let offset = d.partition_offset + block * d.block_bytes in
      let len = count * d.block_bytes in
      if leb len (length buf)
      then (ok tt, record d { file = file_write d.file offset (take len buf) })
      else (panic, d)

unfoldable pub write_block : ℕ → List ℕ → Exec FileBlockDevice Unit
unfolding write_blocks
write_block block buf = write_blocks block 1 buf

-- `sync_all` writes out what the operating system holds; the bytes are the same.
unfoldable pub flush : Exec FileBlockDevice Unit
flush d = (ok tt, d)

abbrev pub file_device : BlockDevice FileBlockDevice
file_device = record {
  read_block = read_block;
  read_blocks = read_blocks;
  block_size = λ d. d.block_bytes;
  write_block = write_block;
  write_blocks = write_blocks;
  flush = flush;
}
