-- ===== src/Examples/Data.antt =====
-- A device in memory, and a small volume and writer on it.
use pfs.Prelude.{
  ℕ, ◌+◌, ◌*◌, List, [], ◌∷◌, ◌++◌, false, none, leb, if◌then◌else◌, length, read_at, write_at,
}
use pfs.Error.{Result, ok, err, io}
use pfs.Exec.{Exec}
use pfs.Bytes.{zeros}
use pfs.Io.{BlockDevice}
use pfs.Cache.{Env, new_cache}
use pfs.Anode.{AnodeReader}
use pfs.Ondisk.Rootblock.{Rootblock}
use pfs.Volume.{Volume}
use pfs.Writer.State.{Writer}

abbrev sector_size : ℕ
sector_size = 20

abbrev read_bytes : List ℕ → ℕ → ℕ → List ℕ → Result (List ℕ)
read_bytes dev block count buf =
    if leb (block * sector_size + length buf) (length dev)
    then ok (read_at dev (block * sector_size) (length buf))
    else err io

abbrev write_bytes : ℕ → List ℕ → Exec (List ℕ) Unit
write_bytes block bytes dev =
    if leb (block * sector_size + length bytes) (length dev)
    then (ok tt, write_at dev (block * sector_size) bytes)
    else (err io, dev)

-- Sectors of 20 bytes in a list.
abbrev pub memory : BlockDevice (List ℕ)
memory = record {
  read_block = λ dev block buf. read_bytes dev block 1 buf;
  read_blocks = read_bytes;
  block_size = λ dev. sector_size;
  write_block = write_bytes;
  write_blocks = λ block count bytes. write_bytes block bytes;
  flush = λ dev. (ok tt, dev);
}

abbrev pub small_env : Env (List ℕ)
small_env = record { dev = zeros 60; cache = new_cache }

abbrev pub small_anodes : AnodeReader
small_anodes = record {
  reserved_blksize = 40;
  anodes_per_block = 1;
  index_per_block = 2;
  split_mode = false;
  is_large = false;
  indexblocks = 1 ∷ [];
  superindex = [];
}

-- An index block in the sectors 1 and 2 that names an anode block in the sectors 3 and 4, where anode 1
-- is an extent of four blocks from 100.
abbrev pub chain_env : Env (List ℕ)
chain_env = record {
  dev =
      zeros 36
      ++ 0 ∷ 0 ∷ 0 ∷ 3 ∷ zeros 20
      ++ 0x41 ∷ 0x42 ∷ zeros 14
      ++ 0 ∷ 0 ∷ 0 ∷ 4 ∷ 0 ∷ 0 ∷ 0 ∷ 100 ∷ zeros 16;
  cache = new_cache;
}

abbrev small_rootblock : Rootblock
small_rootblock = record {
  disktype = 0x50465301;
  options = 0;
  datestamp = 1;
  creation_day = 0;
  creation_minute = 0;
  creation_tick = 0;
  protection = 0;
  diskname = [];
  lastreserved = 2;
  firstreserved = 0;
  reserved_free = 1;
  reserved_blksize = 20;
  rblkcluster = 1;
  blocksfree = 5;
  alwaysfree = 0;
  roving_ptr = 0;
  deldir = 0;
  disksize = 64;
  extension = 0;
  bitmapindex = [];
  indexblocks = [];
}

abbrev pub small_volume : Volume (List ℕ)
small_volume = record {
  env = small_env;
  rootblock = small_rootblock;
  rootblock_ext = none;
  anodes = small_anodes;
  bitmap = record { reserved_blksize = 20; index_per_block = 2; bitmapindex = [] };
}

-- One bitmap block with five free blocks: 3, 5, 6 and, in the second word, 35 and 36.
abbrev pub small_writer : Writer (List ℕ)
small_writer = record {
  vol = small_volume;
  resblocksize = 20;
  rescluster = 1;
  index_per_block = 2;
  anodes_per_block = 1;
  firstreserved = 0;
  numreserved = 2;
  bitmapstart = 3;
  datestamp = 7;
  res_bitmap = 0 ∷ 0x5000_0000 ∷ [];
  data_bm = (2, 0xB000_0000 ∷ 0xC000_0000 ∷ []) ∷ [];
  pending_writes = [];
  clock = 252_460_800;
}
