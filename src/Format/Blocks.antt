-- ===== src/Format/Blocks.antt =====
-- The bytes of the blocks that `format_with_size` of format.rs writes.
mod Keeps
mod Words
mod WordsAt
pub mod Union
pub mod Description
pub mod Head
pub mod Cluster
pub mod Root
pub mod Bitmaps
use pfs.Prelude.{
  ℕ, zero, suc, ◌+◌, ◌-◌, ◌*◌, ◌/◌, ◌%◌, ◌^◌, List, [], ◌∷◌, Bool, true, false, ltb, leb, ◌==◌,
  if◌then◌else◌, length, min, take, Option, none, some, get_elem?, add32, mul32,
}
use pfs.Error.{Str, Result, ok, ◌>>=◌}
use pfs.Bytes.{zeros, put_u32, copy_from_slice}
use pfs.Bytes.Fields.{Field, put32, put16, put8, put_fields}
use pfs.Util.Names.{as_bytes}
use pfs.Ondisk.Constants.{
  id_pfs_disk, dblkid, ablkid, iblkid, bmblkid, bmiblkid, extensionid, maxsmallbitmapindex,
  rb_off_diskname, rb_off_index_union, anode_block_header_size, anode_rootdir, anode_size,
}
use pfs.Writer.Sectors.{put_words, put_words_fitting}
use pfs.Format.Geometry.{Geometry, firstreserved, options, index_per_block, bits_per_bmb}

-- The blocks that are taken from the reserved area.
pub record Layout : Type 0 where
  pub rext_blk : ℕ
  pub bm_blocknrs : List ℕ
  pub bmi_blocknrs : List ℕ
  pub anidx_blk : ℕ
  pub anode_blk : ℕ
  pub rootdir_blk : ℕ

-- `current_amiga_datestamp()` at the time of the format.
pub record Stamp : Type 0 where
  pub cday : ℕ
  pub cmin : ℕ
  pub ctick : ℕ

-- The fields before the disk name, the last of them its length.
abbrev pub head_fields : ℕ → Stamp → ℕ → List Field
head_fields opts t namelen =
    put32 0x00 id_pfs_disk
    ∷ put32 0x04 opts
    ∷ put32 0x08 1
    ∷ put16 0x0C t.cday
    ∷ put16 0x0E t.cmin
    ∷ put16 0x10 t.ctick
    ∷ put16 0x12 0xF0
    ∷ put8 rb_off_diskname namelen
    ∷ []

-- The fields behind the disk name.
abbrev pub tail_fields : Geometry → Layout → ℕ → ℕ → ℕ → List Field
tail_fields g l reserved_free data_blocks total_blocks =
    put32 0x34 g.lastreserved
    ∷ put32 0x38 firstreserved
    ∷ put32 0x3C reserved_free
    ∷ put16 0x40 g.resblocksize
    ∷ put16 0x42 g.rblkcluster
    ∷ put32 0x44 data_blocks
    ∷ put32 0x48 (data_blocks / 20)
    ∷ put32 0x54 total_blocks
    ∷ put32 0x58 l.rext_blk
    ∷ []

-- The index union: the bitmap index, and on a small disk its first five words and the anode index.
unfoldable pub put_index_union : List ℕ → Bool → Layout → Result (List ℕ)
unfolding put_words put_u32
put_index_union buf true l = put_words buf rb_off_index_union l.bmi_blocknrs
put_index_union buf false l = do
  b ← put_words buf rb_off_index_union (take (maxsmallbitmapindex + 1) l.bmi_blocknrs)
  put_u32 b (rb_off_index_union + (maxsmallbitmapindex + 1) * 4) l.anidx_blk

-- The reserved bitmap in the second sector.
unfoldable pub put_reserved_bitmap : List ℕ → ℕ → List ℕ → Result (List ℕ)
unfolding put_fields put_words_fitting
put_reserved_bitmap buf rbm_off bm_longs = do
  b ← put_fields buf (put16 rbm_off bmblkid ∷ put32 (rbm_off + 8) 0 ∷ [])
  put_words_fitting b (rbm_off + 12) bm_longs

-- The rootblock and the reserved bitmap. `reserved_free` and `bm_longs` come from the allocator.
unfoldable pub rootblock_cluster :
    Geometry → Layout → Stamp → Str → ℕ → List ℕ → ℕ → ℕ → Result (List ℕ)
unfolding options as_bytes put_fields put_index_union put_reserved_bitmap
rootblock_cluster g l t volume_name reserved_free bm_longs data_blocks total_blocks = do
  let name = as_bytes volume_name
  let namelen = min (length name) 30
  b ← put_fields (zeros (g.rblkcluster * g.bs)) (head_fields (options g) t namelen)
  b ← copy_from_slice b (rb_off_diskname + 1) (take namelen name)
  b ← put_fields b (tail_fields g l reserved_free data_blocks total_blocks)
  b ← put_index_union b g.supermode l
  put_reserved_bitmap b g.bs bm_longs

-- The rootblock extension.
unfoldable pub extension_block : Geometry → Layout → Stamp → Result (List ℕ)
unfolding put_fields put_u32
extension_block g l t = do
  b ← put_fields (zeros g.resblocksize) (
      put16 0x00 extensionid
      ∷ put32 0x08 1
      ∷ put32 0x0C 0x0013_0002
      ∷ put16 0x10 t.cday
      ∷ put16 0x12 t.cmin
      ∷ put16 0x14 t.ctick
      ∷ put16 0x38 32
      ∷ [])
  if g.supermode then put_u32 b 0x40 l.anidx_blk else ok b

-- One word of an index block, if there is a block for it.
abbrev pub put_pointer : List ℕ → ℕ → Option ℕ → Result (List ℕ)
unfolding put_u32
put_pointer buf off none = ok buf
put_pointer buf off (some blocknr) = put_u32 buf off blocknr

-- The words for the bitmap blocks from number `bm_idx` on.
unfoldable pub put_pointers : List ℕ → List ℕ → ℕ → ℕ → ℕ → Result (List ℕ)
put_pointers buf blocknrs bm_idx off zero = ok buf
put_pointers buf blocknrs bm_idx off (suc n) = do
  b ← put_pointer buf off (get_elem? blocknrs bm_idx)
  put_pointers b blocknrs (bm_idx + 1) (off + 4) n

abbrev pub block_header : ℕ → ℕ → List Field
block_header id seq = put16 0 id ∷ put32 4 1 ∷ put32 8 seq ∷ []

unfoldable pub bitmap_index_block : Geometry → List ℕ → ℕ → Result (List ℕ)
unfolding put_fields put_pointers index_per_block
bitmap_index_block g bm_blocknrs seq = do
  b ← put_fields (zeros g.resblocksize) (block_header bmiblkid seq)
  put_pointers b bm_blocknrs (seq * index_per_block g) 12 (index_per_block g)

-- The 32 bits from data block `block_idx` on, all free but those behind the last block.
unfoldable pub bitmap_word : ℕ → ℕ → ℕ
bitmap_word data_blocks block_idx =
    let remaining = min (data_blocks - block_idx) 32 in
    if leb 32 remaining then 0xFFFF_FFFF else 0xFFFF_FFFF * 2 ^ (32 - remaining) % 2 ^ 32

-- The words from `j` on, `n` of them, of the bitmap block whose first bit is data block `start`.
unfoldable pub put_free_words : ℕ → ℕ → List ℕ → ℕ → ℕ → Result (List ℕ)
unfolding bitmap_word put_u32
put_free_words data_blocks start buf j zero = ok buf
put_free_words data_blocks start buf j (suc n) =
    let block_idx = add32 start (j * 32) in
    if ltb block_idx data_blocks
    then (do
      b ← put_u32 buf (12 + j * 4) (bitmap_word data_blocks block_idx)
      put_free_words data_blocks start b (j + 1) n)
    else put_free_words data_blocks start buf (j + 1) n

unfoldable pub bitmap_block : Geometry → ℕ → ℕ → Result (List ℕ)
unfolding put_fields put_free_words index_per_block bits_per_bmb
bitmap_block g data_blocks seq = do
  b ← put_fields (zeros g.resblocksize) (block_header bmblkid seq)
  put_free_words data_blocks (mul32 seq (bits_per_bmb g)) b 0 (index_per_block g)

unfoldable pub anode_index_block : Geometry → Layout → Result (List ℕ)
unfolding put_fields
anode_index_block g l =
    put_fields (zeros g.resblocksize)
      (put16 0 iblkid ∷ put32 4 1 ∷ put32 8 0 ∷ put32 12 l.anode_blk ∷ [])

-- The anode block with the anode of the root directory.
unfoldable pub anode_block : Geometry → Layout → Result (List ℕ)
unfolding put_fields
anode_block g l =
    let an_off = anode_block_header_size + anode_rootdir * anode_size in
    put_fields (zeros g.resblocksize) (
      put16 0 ablkid
      ∷ put32 4 1
      ∷ put32 8 0
      ∷ put32 an_off 1
      ∷ put32 (an_off + 4) l.rootdir_blk
      ∷ put32 (an_off + 8) 0
      ∷ [])

-- The root directory, empty and its own parent.
unfoldable pub rootdir_block : Geometry → Result (List ℕ)
unfolding put_fields
rootdir_block g =
    put_fields (zeros g.resblocksize)
      (put16 0x00 dblkid ∷ put32 0x04 1 ∷ put32 0x0C anode_rootdir ∷ put32 0x10 anode_rootdir ∷ [])
