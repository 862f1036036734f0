-- ===== src/Examples/Formatting.antt =====
-- The theorems on formatting at concrete inputs.
use pfs.Prelude.{◌+◌, [], ◌∷◌, ◌≡◌, refl, arith, true, false, replicate}
use pfs.Error.{ok, Returns, chars}
use pfs.Exec.{Ensures, ◌>>=◌}
use pfs.Bytes.{u32_at}
use pfs.Ondisk.Rootblock
use pfs.Format.Reserved.{ReservedAllocator, free_count}
use pfs.Format.Geometry.{Geometry, geometry, no_bmb, no_bmi, bits_per_bmb, index_per_block}
use pfs.Format.Blocks.{
  Layout, Stamp, rootblock_cluster, bitmap_block, anode_index_block, anode_block, rootdir_block,
}
use pfs.Format.Blocks.Description.{Describes}
use pfs.Format.Blocks.Cluster.{rootblock_cluster-Describes}
use pfs.Format.Blocks.Bitmaps.{FreesBelow, bitmap_block-FreesBelow}
use pfs.Format.Blocks.Root.{HoldsRoot, IsEmptyRoot, format-EmptyRoot}
use pfs.Format.Volume.{take_block, take_layout}
use pfs.Format.Volume.Blocks.{Took, layout_blocks, take_layout-Took}
use pfs.Format.Volume.Enough.{Uses, take_layout-Uses}

abbrev floppy : Geometry
floppy = record {
  bs = 512;
  supermode = false;
  resblocksize = 1024;
  rescluster = 2;
  numreserved = 64;
  resbm_resblocks = 1;
  rblkcluster = 2;
  lastreserved = 129;
}

abbrev floppy_layout : Layout
floppy_layout = record {
  rext_blk = 4;
  bm_blocknrs = 6 ∷ [];
  bmi_blocknrs = 8 ∷ [];
  anidx_blk = 10;
  anode_blk = 12;
  rootdir_blk = 14;
}

abbrev noon : Stamp
noon = record { cday = 17_000; cmin = 720; ctick = 0 }

rootblock_cluster_example :
    Returns
      (λ bytes.
        Returns
          (Describes floppy floppy_layout noon (chars "Work") 57 1630 1760)
          (Rootblock.parse bytes))
      (rootblock_cluster floppy floppy_layout noon
        (chars "Work")
        57
        (0x01FF_FFFF ∷ 0xFFFF_FFFF ∷ [])
        1630
        1760)
rootblock_cluster_example =
    rootblock_cluster-Describes floppy floppy_layout noon (chars "Work") 57
      (0x01FF_FFFF ∷ 0xFFFF_FFFF ∷ []) 1630 1760
      (record {
        cluster_size = omega arith;
        second_sector = omega arith;
        both_sectors = omega arith;
        index_fits = omega arith;
        index_small = ((omega arith, tt), omega arith);
        stamp = (omega arith, omega arith, omega arith);
        sizes = (omega arith, omega arith);
        blocks = (omega arith, omega arith);
        counts = (omega arith, omega arith, omega arith);
      })

bitmap_block_example : Returns (FreesBelow floppy 1630 0) (bitmap_block floppy 1630 0)
unfolding index_per_block
bitmap_block_example = bitmap_block-FreesBelow floppy 1630 0 (omega arith) (omega arith)

format-EmptyRoot_example :
    Returns (λ bytes. u32_at bytes 12 ≡ ok 12) (anode_index_block floppy floppy_layout)
    × Returns (HoldsRoot floppy_layout) (anode_block floppy floppy_layout)
    × Returns IsEmptyRoot (rootdir_block floppy)
format-EmptyRoot_example =
    format-EmptyRoot floppy floppy_layout (omega arith) (omega arith) (omega arith)

abbrev eight_blocks : ReservedAllocator
eight_blocks = record { bitmap = replicate 8 true; numreserved = 8; roving = 1 }

take_layout-Took_example :
    Ensures
      (λ l b. Took floppy eight_blocks (layout_blocks floppy l) b)
      ((take_block floppy >>= take_layout floppy 1630) eight_blocks)
take_layout-Took_example =
    take_layout-Took floppy 1630 eight_blocks
      (record { sized = refl; nonempty = omega arith; roved = omega arith })

take_layout-Uses_example :
    Uses
      (no_bmb floppy 1630 + no_bmi floppy 1630 + 4)
      eight_blocks
      ((take_block floppy >>= take_layout floppy 1630) eight_blocks)
unfolding no_bmb no_bmi bits_per_bmb index_per_block free_count
take_layout-Uses_example =
    take_layout-Uses floppy 1630 eight_blocks
      (record { sized = refl; nonempty = omega arith; roved = omega arith }) (omega arith)

-- The numbers of a floppy disk of 1760 sectors of 512 bytes.
geometry_run : geometry 1760 512 ≡ ok floppy
unfolding geometry
geometry_run = refl
