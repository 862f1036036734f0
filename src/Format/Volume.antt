-- ===== src/Format/Volume.antt =====
-- `format_with_size` of format.rs: the order of its allocations and writes.
pub mod Blocks
pub mod Enough
use pfs.Prelude.{
  ℕ, zero, suc, ◌+◌, ◌*◌, ◌%◌, ◌^◌, List, [], ◌∷◌, Bool, true, false, add32, mul32, length, range,
}
use pfs.Error.{Str, chars, Result, ok, err, panic}
use pfs.Exec.{Exec, pure, lift, gets, for_each, ◌>>=◌, ◌>>◌}
use pfs.Bytes.{zeros, copy_from_slice, be32, slice}
use pfs.Io.{BlockDevice}
use pfs.Util.Dates.{current_amiga_datestamp}
use pfs.Ondisk.Constants.{id_pfs_disk}
use pfs.Writer.Pending.{write_reserved_blocks}
use pfs.Format.Reserved.{ReservedAllocator, new_allocator, alloc, free_count, build_bitmap}
use pfs.Format.Geometry.{Geometry, geometry, firstreserved, data_area, no_bmb, no_bmi}
use pfs.Format.Blocks.{
  Layout, Stamp, rootblock_cluster, extension_block, bitmap_index_block, bitmap_block,
  anode_index_block, anode_block, rootdir_block,
}

pub record FormatOptions : Type 0 where
  pub volume_name : Str
  pub enable_deldir : Bool

abbrev pub default_options : FormatOptions
default_options = record { volume_name = chars "Untitled"; enable_deldir = false }

pub record FormatResult : Type 0 where
  pub volume_name : Str
  pub total_blocks : ℕ
  pub data_blocks : ℕ
  pub blocks_free : ℕ
  pub num_reserved : ℕ
  pub reserved_blksize : ℕ

-- The first sector of the reserved block `idx`.
abbrev pub block_of : Geometry → ℕ → ℕ
block_of g idx = add32 firstreserved (mul32 idx g.rescluster)

unfoldable pub take_block : Geometry → Exec ReservedAllocator ℕ
unfolding alloc
take_block g = do idx ← alloc; pure (block_of g idx)

unfoldable pub take_blocks : Geometry → ℕ → Exec ReservedAllocator (List ℕ)
unfolding take_block
take_blocks g zero = pure []
take_blocks g (suc n) = do blk ← take_block g; blks ← take_blocks g n; pure (blk ∷ blks)

-- The allocations behind the one for the extension, in their order.
unfoldable pub take_layout : Geometry → ℕ → ℕ → Exec ReservedAllocator Layout
unfolding take_block take_blocks no_bmb no_bmi
take_layout g data_blocks rext_blk = do
  bm_blocknrs ← take_blocks g (no_bmb g data_blocks)
  bmi_blocknrs ← take_blocks g (no_bmi g data_blocks)
  anidx_blk ← take_block g
  anode_blk ← take_block g
  rootdir_blk ← take_block g
  pure (record {
    rext_blk = rext_blk;
    bm_blocknrs = bm_blocknrs;
    bmi_blocknrs = bmi_blocknrs;
    anidx_blk = anidx_blk;
    anode_blk = anode_blk;
    rootdir_blk = rootdir_blk;
  })

-- The value together with the state that it leaves.
abbrev pub with_state : {S A : Type 0} → Result A × S → Result (A × S)
with_state (ok a, s) = ok (a, s)
with_state (err e, s) = err e
with_state (panic, s) = panic

-- The list with the positions, as `iter().enumerate()` gives them.
abbrev pub enumerate : ℕ → List ℕ → List (ℕ × ℕ)
enumerate seq [] = []
enumerate seq (x ∷ xs) = (seq, x) ∷ enumerate (seq + 1) xs

module _ {D : Type 0} (device : BlockDevice D) where
  open device use {block_size, write_block, flush}

  abbrev pub write_boot : ℕ → Exec D (Unit {0})
  unfolding be32
  write_boot bs = do
    boot ← lift (copy_from_slice (zeros bs) 0 (be32 id_pfs_disk))
    write_block 0 boot
    write_block 1 (zeros bs)

  -- The sectors `i`, `i + 1`, … of the rootblock cluster.
  unfoldable pub write_cluster : List ℕ → ℕ → ℕ → ℕ → Exec D (Unit {0})
  write_cluster rb_data bs i zero = pure tt
  write_cluster rb_data bs i (suc n) = do
    sector ← lift (slice rb_data (i * bs) ((i + 1) * bs))
    write_block (firstreserved + i) sector
    write_cluster rb_data bs (i + 1) n

  abbrev pub write_built : Geometry → ℕ → Result (List ℕ) → Exec D (Unit {0})
  unfolding write_reserved_blocks
  write_built g blk built = do
    bytes ← lift built
    write_reserved_blocks device blk bytes g.rescluster g.bs

  -- Everything that is written behind the boot blocks.
  unfoldable pub write_volume :
      Geometry → Layout → Stamp → ReservedAllocator → Str → ℕ → ℕ → Exec D (Unit {0})
  unfolding rootblock_cluster extension_block bitmap_index_block bitmap_block anode_index_block
      anode_block rootdir_block free_count build_bitmap write_cluster for_each
  write_volume g l t a volume_name data_blocks total_blocks = do
    rb_data ← lift (
        rootblock_cluster g l t volume_name (free_count a) (build_bitmap a) data_blocks
          total_blocks)
    write_cluster rb_data g.bs 0 g.rblkcluster
    write_built g l.rext_blk (extension_block g l t)
    for_each (enumerate 0 l.bmi_blocknrs)
        (λ (seq, blk). write_built g blk (bitmap_index_block g l.bm_blocknrs seq))
    for_each (enumerate 0 l.bm_blocknrs)
        (λ (seq, blk). write_built g blk (bitmap_block g data_blocks seq))
    write_built g l.anidx_blk (anode_index_block g l)
    write_built g l.anode_blk (anode_block g l)
    write_built g l.rootdir_blk (rootdir_block g)
    flush

  abbrev pub stamp_of : ℕ × ℕ × ℕ → Stamp
  stamp_of (cday, cmin, ctick) = record { cday = cday; cmin = cmin; ctick = ctick }

  -- `now` is what the clock shows.
  unfoldable pub format_with_size : ℕ → ℕ → FormatOptions → Exec D FormatResult
  unfolding geometry new_allocator take_block data_area take_layout write_volume
      current_amiga_datestamp
  format_with_size now total_blocks opts = do
    bs ← gets block_size
    g ← lift (geometry total_blocks bs)
    (rext_blk, a) ← lift (with_state (take_block g (new_allocator g.numreserved g.resbm_resblocks)))
    data_blocks ← lift (data_area g total_blocks)
    write_boot bs
    (l, a) ← lift (with_state (take_layout g data_blocks rext_blk a))
    write_volume g l (stamp_of (current_amiga_datestamp now)) a opts.volume_name data_blocks
        total_blocks
    pure (record {
      volume_name = opts.volume_name;
      total_blocks = total_blocks;
      data_blocks = data_blocks;
      blocks_free = data_blocks;
      num_reserved = g.numreserved;
      reserved_blksize = g.resblocksize;
    })
