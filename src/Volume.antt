-- ===== src/Volume.antt =====
-- crates/libpfs3/src/volume.rs: reading a volume. Opening files by path is left to the caller.
pub mod Reads
pub mod Quiet
use Reads.{chain_blocks, read_data_loop, range_loop, deldir_slots}
use pfs.Prelude.{
  ℕ, zero, suc, ◌+◌, ◌-◌, ◌*◌, ◌/◌, ◌%◌, List, [], ◌∷◌, ◌++◌, Bool, ◌&&◌, not, ltb, leb, ◌==◌,
  if◌then◌else◌, length, min, Option, none, some, range, read_at, count_ones, map,
}
use pfs.Error.{Str, Result, ok, err, panic, corrupt, not_found, not_a_directory, ok_or}
use pfs.Exec.{Exec, pure, raise, lift, gets, zoom, ◌>>=◌, ◌>>◌, concat_each}
use pfs.Bytes.{u16_at, slice, zeros, u32_words}
use pfs.Io.{BlockDevice}
use pfs.Cache.{Env, BlockCache, new_cache, read_reserved}
use pfs.Anode.{AnodeReader, new_anode_reader, get_chain}
use pfs.Bitmap.{BitmapReader, new_bitmap_reader, count_free}
use pfs.Dir.{list_entries, resolve_path, resolve_dir_path, extent_blocks}
use pfs.Ondisk.Anode.{Anode}
use pfs.Ondisk.Constants.{
  rootblock_nr, mode_deldir, deldirid, deldir_header_size, deldir_entry_size,
  deldir_entries_per_block,
}
use pfs.Ondisk.DelDir
use pfs.Ondisk.DelDir.{DelDirEntry}
use pfs.Ondisk.DirEntry.{DirEntry, is_dir, file_size}
use pfs.Ondisk.Rootblock
use pfs.Ondisk.Rootblock.{Rootblock, RootblockExt, parse_ext, has_extension, has_flag}

pub record Volume (D : Type 0) : Type 0 where
  pub env : Env D
  pub rootblock : Rootblock
  pub rootblock_ext : Option RootblockExt
  pub anodes : AnodeReader
  pub bitmap : BitmapReader

unfoldable pub validate_rbs : Rootblock → Result (Unit {0})
validate_rbs rb =
    if ltb rb.reserved_blksize 64 then err (corrupt "reserved_blksize too small") else ok tt

-- What `from_device` has read before it puts the volume together.
abbrev pub assemble : {D : Type 0} → Rootblock → Option RootblockExt → Env D → Volume D
assemble rb ext env = record {
  env = env;
  rootblock = rb;
  rootblock_ext = ext;
  anodes = new_anode_reader rb ext;
  bitmap = new_bitmap_reader rb;
}

module _ {D : Type 0} (device : BlockDevice D) where
  open device use {read_block, read_blocks, block_size}

  -- The rootblock, read again at its full size if it takes more than one sector.
  unfoldable pub read_rootblock : Exec (Env D) Rootblock
  unfolding Rootblock.parse
  read_rootblock = do
    dev ← gets (λ s. s.dev)
    buf ← lift (read_block dev rootblock_nr (zeros 512))
    rb ← lift (Rootblock.parse buf)
    let rblk_bytes = rb.rblkcluster * 512
    if ltb 512 rblk_bytes
        then (do
          big_buf ← lift (read_blocks dev rootblock_nr rb.rblkcluster (zeros rblk_bytes))
          lift (Rootblock.parse big_buf))
        else pure rb

  unfoldable pub read_extension : Rootblock → Exec (Env D) (Option RootblockExt)
  unfolding has_extension read_reserved parse_ext
  read_extension rb =
      if has_extension rb
      then (do
        bytes ← read_reserved device rb.extension rb.reserved_blksize
        ext ← lift (parse_ext bytes)
        pure (some ext))
      else pure none

  abbrev mount : Exec (Env D) (Volume D)
  mount = do
    rb ← read_rootblock
    valid ← lift (validate_rbs rb)
    ext ← read_extension rb
    λ s. (ok (assemble rb ext s), s)

  unfoldable pub from_device : D → Result (Volume D)
  unfolding read_rootblock validate_rbs read_extension new_anode_reader new_bitmap_reader
  from_device dev = (mount (record { dev = dev; cache = new_cache })).0

  -- A reader of the device and the cache, as a method of the volume.
  abbrev pub reading : {A : Type 0} → Exec (Env D) A → Exec (Volume D) A
  reading m = zoom (λ v. v.env) (λ v env. record v { env = env }) m

  unfoldable pub get_anode_chain : ℕ → Exec (Volume D) (List Anode)
  unfolding get_chain
  get_anode_chain anodenr = do
    anodes ← gets (λ v. v.anodes)
    reading (get_chain device anodes anodenr)

  unfoldable pub bitmap_count_free : Exec (Volume D) ℕ
  unfolding count_free
  bitmap_count_free = do
    bitmap ← gets (λ v. v.bitmap)
    disksize ← gets (λ v. v.rootblock.disksize)
    reading (count_free device bitmap disksize)

  -- Maximum length of a file name.
  unfoldable pub fnsize : Volume D → ℕ
  fnsize v = elim v.rootblock_ext [ none ↦ 32 | some e ↦ e.fnsize ]

  abbrev sum_ones : List ℕ → ℕ
  sum_ones [] = 0
  sum_ones (w ∷ ws) = count_ones 32 w + sum_ones ws

  -- The ones of all words behind the rootblock sector and the bitmap header.
  unfoldable pub reserved_count_free : Exec (Volume D) ℕ
  unfolding u32_words
  reserved_count_free = do
    dev ← gets (λ v. v.env.dev)
    rb ← gets (λ v. v.rootblock)
    let bs = block_size dev
    cluster ← lift (read_blocks dev rb.firstreserved rb.rblkcluster (zeros (rb.rblkcluster * bs)))
    words ← lift (u32_words cluster (bs + 12) (length cluster / 4))
    pure (sum_ones words)

  unfoldable pub list_dir_by_anode : ℕ → Exec (Volume D) (List DirEntry)
  unfolding list_entries
  list_dir_by_anode dir_anode = do
    anodes ← gets (λ v. v.anodes)
    rbs ← gets (λ v. v.rootblock.reserved_blksize)
    reading (list_entries device anodes rbs dir_anode)

  unfoldable pub list_dir : Str → Exec (Volume D) (List DirEntry)
  unfolding resolve_dir_path list_dir_by_anode
  list_dir path = do
    anodes ← gets (λ v. v.anodes)
    rbs ← gets (λ v. v.rootblock.reserved_blksize)
    dir_anode ← reading (resolve_dir_path device anodes rbs path)
    list_dir_by_anode dir_anode

  unfoldable pub lookup : Str → Exec (Volume D) (Option DirEntry)
  unfolding resolve_path
  lookup path = do
    anodes ← gets (λ v. v.anodes)
    rbs ← gets (λ v. v.rootblock.reserved_blksize)
    reading (resolve_path device anodes rbs path)

  -- The chain's capacity in the source only sizes the allocation of the result.
  unfoldable pub read_file_data : ℕ → ℕ → Exec (Volume D) (List ℕ)
  unfolding get_chain chain_blocks read_data_loop
  read_file_data anodenr size = do
    anodes ← gets (λ v. v.anodes)
    chain ← reading (get_chain device anodes anodenr)
    dev ← gets (λ v. v.env.dev)
    lift (read_data_loop device dev (chain_blocks chain) (zeros (block_size dev)) size)

  unfoldable pub read_file : Str → Exec (Volume D) (List ℕ)
  unfolding lookup is_dir file_size read_file_data
  read_file path = do
    found ← lookup path
    entry ← lift (ok_or found (not_found path))
    if is_dir entry then raise not_a_directory else read_file_data entry.anode (file_size entry)

  unfoldable pub read_file_range : ℕ → ℕ → ℕ → ℕ → Exec (Volume D) (List ℕ)
  unfolding get_chain range_loop
  read_file_range anodenr file_size offset length = if leb file_size offset then pure [] else do
    anodes ← gets (λ v. v.anodes)
    chain ← reading (get_chain device anodes anodenr)
    dev ← gets (λ v. v.env.dev)
    let end = min (offset + length) file_size
    lift (range_loop device dev offset end chain 0 (zeros (block_size dev)))

  unfoldable pub validate_anode_chain : ℕ → Exec (Volume D) (List ℕ)
  unfolding get_chain chain_blocks
  validate_anode_chain anodenr = do
    anodes ← gets (λ v. v.anodes)
    chain ← reading (get_chain device anodes anodenr)
    pure (chain_blocks chain)

  unfoldable pub deldir_block : ℕ → ℕ → Exec (Env D) (List DelDirEntry)
  unfolding read_reserved deldir_slots deldir_entries_per_block u16_at
  deldir_block rbs blk = if blk == 0 then pure [] else do
    bytes ← read_reserved device blk rbs
    id ← lift (u16_at bytes 0)
    if id == deldirid then lift (deldir_slots bytes 0 (deldir_entries_per_block rbs)) else pure []

  unfoldable pub list_deldir : Exec (Volume D) (List DelDirEntry)
  unfolding has_flag deldir_block concat_each
  list_deldir = do
    rb ← gets (λ v. v.rootblock)
    rext ← gets (λ v. v.rootblock_ext)
    if not (has_flag rb mode_deldir) then pure [] else elim rext [
      | none ↦ pure []
      | some e ↦ reading (concat_each e.deldirblocks (deldir_block rb.reserved_blksize))
    ]
