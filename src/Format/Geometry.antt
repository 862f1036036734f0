-- ===== src/Format/Geometry.antt =====
-- The part of `format_with_size` of format.rs that computes the sizes from the disk size and the sector size.
use pfs.Prelude.{
  ℕ, zero, suc, ◌+◌, ◌-◌, ◌*◌, ◌/◌, ◌%◌, ◌^◌, Bool, ltb, leb, ◌==◌, if◌then◌else◌, add32, sub32,
  mul32, bit_or,
}
use pfs.Error.{Result, ok, err, panic, disk_full}
use pfs.Ondisk.Constants.{
  maxbitmapindex, mode_harddisk, mode_splitted_anodes, mode_dir_extension, mode_sizefield,
  mode_datestamp, mode_extroving, mode_longfn, mode_extension, mode_superindex,
}
use pfs.Format.Sizes.{maxsmalldisk, calc_num_reserved}

pub record Geometry : Type 0 where
  pub bs : ℕ
  pub supermode : Bool
  pub resblocksize : ℕ
  pub rescluster : ℕ
  pub numreserved : ℕ
  pub resbm_resblocks : ℕ
  pub rblkcluster : ℕ
  pub lastreserved : ℕ

abbrev pub firstreserved : ℕ
firstreserved = 2

abbrev pub max_1k : ℕ
max_1k = (maxbitmapindex + 1) * 253 * 253 * 32

abbrev pub max_2k : ℕ
max_2k = (maxbitmapindex + 1) * 509 * 509 * 32

-- The reserved block size before the sector size is looked at.
unfoldable pub size_by_disk : ℕ → ℕ
size_by_disk total_blocks =
    if ltb maxsmalldisk total_blocks
    then (if ltb max_2k total_blocks then 4096 else if ltb max_1k total_blocks then 2048 else 1024)
    else 1024

-- `n.div_ceil(d)`
abbrev pub div_ceil : ℕ → ℕ → ℕ
div_ceil n d = (n + d - 1) / d

-- The loop `while i < numreserved / 32` with `i` going up by 256: it counts kilobytes.
unfoldable pub resbm_loop : ℕ → ℕ → ℕ → ℕ → ℕ
resbm_loop words zero i resbm_1k = resbm_1k
resbm_loop words (suc rounds) i resbm_1k =
    let later = resbm_loop words rounds (i + 256) (resbm_1k + 1) in
    if ltb i words then later else resbm_1k

unfoldable pub geometry : ℕ → ℕ → Result Geometry
unfolding size_by_disk calc_num_reserved resbm_loop
geometry total_blocks bs =
    if bs == 0
    then panic
    else let resblocksize = size_by_disk total_blocks in
      let resblocksize = if ltb resblocksize bs then bs else resblocksize in
      let rescluster = resblocksize / bs in
      let numreserved = calc_num_reserved total_blocks resblocksize in
      let words = numreserved / 32 in
      let resbm_resblocks = div_ceil (mul32 1024 (resbm_loop words words 125 1)) resblocksize in
      ok (record {
        bs = bs;
        supermode = ltb maxsmalldisk total_blocks;
        resblocksize = resblocksize;
        rescluster = rescluster;
        numreserved = numreserved;
        resbm_resblocks = resbm_resblocks;
        rblkcluster = mul32 rescluster resbm_resblocks;
        lastreserved = sub32 (add32 (mul32 rescluster numreserved) firstreserved) 1;
      })

abbrev pub base_options : ℕ
base_options =
    bit_or
      (bit_or
        (bit_or
          (bit_or
            (bit_or (bit_or (bit_or mode_harddisk mode_splitted_anodes) mode_dir_extension)
              mode_sizefield)
            mode_datestamp)
          mode_extroving)
        mode_longfn)
      mode_extension

unfoldable pub options : Geometry → ℕ
options g = if g.supermode then bit_or base_options mode_superindex else base_options

-- The pointers that one index block holds, the data blocks that one bitmap block covers, and the
-- numbers of bitmap blocks and of bitmap index blocks. Here `-` is `saturating_sub`.
unfoldable pub index_per_block : Geometry → ℕ
index_per_block g = g.resblocksize / 4 - 3

unfoldable pub bits_per_bmb : Geometry → ℕ
unfolding index_per_block
bits_per_bmb g = mul32 (index_per_block g) 32

unfoldable pub no_bmb : Geometry → ℕ → ℕ
unfolding bits_per_bmb
no_bmb g data_blocks = div_ceil data_blocks (bits_per_bmb g)

unfoldable pub no_bmi : Geometry → ℕ → ℕ
unfolding no_bmb index_per_block
no_bmi g data_blocks = div_ceil (no_bmb g data_blocks) (index_per_block g)

unfoldable pub reserved_area : Geometry → ℕ
reserved_area g = add32 (add32 (sub32 g.lastreserved firstreserved) 1) firstreserved

-- What is left for data of a disk whose size is cut to u32.
unfoldable pub data_area : Geometry → ℕ → Result ℕ
unfolding reserved_area
data_area g total_blocks =
    if leb (total_blocks % 2 ^ 32) (reserved_area g)
    then err (disk_full "disk too small")
    else ok (total_blocks % 2 ^ 32 - reserved_area g)
