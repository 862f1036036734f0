-- ===== src/Cache.antt =====
-- crates/libpfs3/src/cache.rs: the block cache over a device. The hash map is a list of entries
-- with one entry for each block.
pub mod Laws
pub mod Quiet
use pfs.Prelude.{
  ℕ, ◌+◌, ◌/◌, List, [], ◌∷◌, Bool, true, false, Option, none, some, ltb, leb, ◌==◌, if◌then◌else◌,
  length, max,
}
use pfs.Error.{Result, ok, err, panic}
use pfs.Exec.{Exec, continue}
use pfs.Bytes.{zeros}
use pfs.Io.{BlockDevice}

pub record CacheEntry : Type 0 where
  pub block : ℕ
  pub bytes : List ℕ
  pub generation : ℕ

pub record BlockCache : Type 0 where
  pub entries : List CacheEntry
  pub generation : ℕ
  pub capacity : ℕ

abbrev pub default_capacity : ℕ
default_capacity = 256

abbrev pub new_cache : BlockCache
new_cache = record { entries = []; generation = 0; capacity = default_capacity }

-- What the readers work on: a device and its cache.
pub record Env (D : Type 0) : Type 0 where
  pub dev : D
  pub cache : BlockCache

-- `entries.get(&block)`
unfoldable pub find : ℕ → List CacheEntry → Option CacheEntry
find block [] = none
find block (e ∷ es) = if e.block == block then some e else find block es

-- `entries.remove(&block)`
unfoldable pub remove : ℕ → List CacheEntry → List CacheEntry
remove block [] = []
remove block (e ∷ es) = let rest = remove block es in if e.block == block then rest else e ∷ rest

-- `entries.get_mut(&block).unwrap().generation = g`
unfoldable pub touch : ℕ → ℕ → List CacheEntry → List CacheEntry
touch block g [] = []
touch block g (e ∷ es) =
    let rest = touch block g es in
    if e.block == block then record e { generation = g } ∷ es else e ∷ rest

-- `min_by_key(|e| e.generation)`: the block of the first entry of the lowest generation.
abbrev pub older : CacheEntry → Option CacheEntry → Option CacheEntry
older e none = some e
older e (some f) = if leb e.generation f.generation then some e else some f

unfoldable pub oldest : List CacheEntry → Option CacheEntry
oldest [] = none
oldest (e ∷ es) = older e (oldest es)

unfoldable pub invalidate : ℕ → BlockCache → BlockCache
unfolding remove
invalidate block c = record c { entries = remove block c.entries }

abbrev pub without : List CacheEntry → Option CacheEntry → List CacheEntry
without es none = es
without es (some e) = remove e.block es

-- Make room for one more entry.
unfoldable pub evict : BlockCache → List CacheEntry
unfolding oldest remove
evict c =
    if leb c.capacity (length c.entries) then without c.entries (oldest c.entries) else c.entries

-- Sectors that one reserved block takes.
abbrev pub sectors_per_reserved : ℕ → ℕ → ℕ
sectors_per_reserved reserved_blksize block_size = max (reserved_blksize / block_size) 1

module _ {D : Type 0} (device : BlockDevice D) where
  open device use {read_blocks, block_size}

  -- The block as it stands on the device. A block size of 0 is a division by zero.
  unfoldable pub read_device : D → ℕ → ℕ → Result (List ℕ)
  read_device dev block reserved_blksize =
      if block_size dev == 0
      then panic
      else read_blocks dev block (sectors_per_reserved reserved_blksize (block_size dev))
          (zeros reserved_blksize)

  -- `entries.entry(block).or_insert(…)` after the eviction.
  abbrev pub insert : ℕ → List ℕ → Env D → Env D
  insert block bytes s = record s {
    cache = record (s.cache) {
      entries =
          record { block = block; bytes = bytes; generation = s.cache.generation } ∷ evict s.cache;
    };
  }

  -- What follows the read of a block that is not in the cache.
  abbrev pub keep_block : ℕ → Result (List ℕ) → Exec (Env D) (List ℕ)
  keep_block block (ok bytes) s = (ok bytes, insert block bytes s)
  keep_block block (err e) s = (err e, s)
  keep_block block panic s = (panic, s)

  abbrev pub next_generation : Env D → Env D
  next_generation s = record s { cache = record (s.cache) { generation = s.cache.generation + 1 } }

  -- `entry` is what the cache holds for the block.
  unfoldable pub read_entry : ℕ → ℕ → Option CacheEntry → Exec (Env D) (List ℕ)
  unfolding touch evict read_device
  read_entry block reserved_blksize (some e) s = (
    ok e.bytes,
    record s {
      cache = record (s.cache) { entries = touch block s.cache.generation s.cache.entries };
    },
  )
  read_entry block reserved_blksize none s =
      keep_block block (read_device s.dev block reserved_blksize) s

  unfoldable pub read_reserved : ℕ → ℕ → Exec (Env D) (List ℕ)
  unfolding find read_entry
  read_reserved block reserved_blksize s =
      read_entry block reserved_blksize (find block s.cache.entries) (next_generation s)
