-- ===== src/Format/Blocks/Description.antt =====
-- What a rootblock that a format writes says.
use pfs.Prelude.{ℕ, ◌+◌, ◌*◌, ◌/◌, ◌^◌, ◌≤◌, ◌<◌, List, ◌≡◌, length, min, take}
use pfs.Error.{Str}
use pfs.Ondisk.Constants.{id_pfs_disk}
use pfs.Ondisk.Rootblock.{Rootblock}
use pfs.Util.Names.{as_bytes, latin1_to_string}
use pfs.Format.Geometry.{Geometry, firstreserved, options}
use pfs.Format.Blocks.{Layout, Stamp}
use pfs.Format.Blocks.WordsAt.{AllSmall}
use pfs.Format.Blocks.Union.{indices}

-- The name that is kept: its first 30 bytes.
abbrev pub kept_name : Str → List ℕ
kept_name name = take (min (length (as_bytes name)) 30) (as_bytes name)

-- The numbers fit their fields.
pub record InRange (g : Geometry) (l : Layout) (t : Stamp)
    (reserved_free data_blocks total_blocks : ℕ) : Type 0 where
  pub cluster_size : 512 ≤ g.rblkcluster * g.bs
  pub second_sector : 512 ≤ g.bs
  pub both_sectors : g.bs + 12 ≤ g.rblkcluster * g.bs
  pub index_fits : length l.bmi_blocknrs ≤ 104
  pub stamp : (t.cday < 2 ^ 16) × (t.cmin < 2 ^ 16) × (t.ctick < 2 ^ 16)
  pub sizes : (g.resblocksize < 2 ^ 16) × (g.rblkcluster < 2 ^ 16)
  pub index_small : AllSmall l.bmi_blocknrs × (l.anidx_blk < 2 ^ 32)
  pub blocks : (g.lastreserved < 2 ^ 32) × (l.rext_blk < 2 ^ 32)
  pub counts : (reserved_free < 2 ^ 32) × (data_blocks < 2 ^ 32) × (total_blocks < 2 ^ 32)

-- What a reader of the volume finds in its rootblock.
pub record Describes (g : Geometry) (l : Layout) (t : Stamp) (name : Str)
    (reserved_free data_blocks total_blocks : ℕ) (rb : Rootblock) : Type 0 where
  pub disktype_eq : rb.disktype ≡ id_pfs_disk
  pub options_eq : rb.options ≡ options g
  pub datestamp_eq : rb.datestamp ≡ 1
  pub creation_eq :
      (rb.creation_day ≡ t.cday) × (rb.creation_minute ≡ t.cmin) × (rb.creation_tick ≡ t.ctick)
  pub protection_eq : rb.protection ≡ 0xF0
  pub diskname_eq : rb.diskname ≡ latin1_to_string (kept_name name)
  pub reserved_eq : (rb.firstreserved ≡ firstreserved) × (rb.lastreserved ≡ g.lastreserved)
  pub sizes_eq : (rb.reserved_blksize ≡ g.resblocksize) × (rb.rblkcluster ≡ g.rblkcluster)
  pub free_eq : (rb.reserved_free ≡ reserved_free) × (rb.blocksfree ≡ data_blocks)
  pub alwaysfree_eq : rb.alwaysfree ≡ data_blocks / 20
  pub pointers_eq : (rb.roving_ptr ≡ 0) × (rb.deldir ≡ 0)
  pub disksize_eq : rb.disksize ≡ total_blocks
  pub extension_eq : rb.extension ≡ l.rext_blk
  pub indices_eq : (rb.bitmapindex, rb.indexblocks) ≡ indices g.supermode l
