-- ===== src/Format/Sizes.antt =====
-- The sizes that `format_with_size` of format.rs computes from the disk size.
pub mod Laws
use pfs.Prelude.{
  ℕ, zero, suc, ◌+◌, ◌-◌, ◌*◌, ◌/◌, ◌%◌, ◌^◌, ◌&&◌, ltb, leb, ◌==◌, if◌then◌else◌, min, max,
}
use pfs.Ondisk.Constants.{maxbitmapindex, maxsmallbitmapindex}

abbrev pub maxsmalldisk : ℕ
maxsmalldisk = (maxsmallbitmapindex + 1) * 253 * 253 * 32

abbrev pub maxnumreserved : ℕ
maxnumreserved = 4096 + 255 * 1024 * 8

-- The loop of `calc_num_reserved` on u32, with `i` doubling until it leaves u64: `taken` grows while
-- half of `i` is below the disk size. From 2048 on 53 rounds leave u64.
unfoldable pub taken_loop : ℕ → ℕ → ℕ → ℕ → ℕ
taken_loop total_blocks zero i taken = taken
taken_loop total_blocks (suc rounds) i taken =
    let m : ℕ = if leb (512 * 2048) i then 10 else 14 in
    let taken' = (taken + taken * m % 2 ^ 32 / 16) % 2 ^ 32 in
    let later = taken_loop total_blocks rounds (i * 2 % 2 ^ 64) taken' in
    if ltb 0 i && ltb (i / 2) total_blocks then later else taken

-- A reserved block size below 1024 would be a division by zero.
unfoldable pub calc_num_reserved : ℕ → ℕ → ℕ
unfolding taken_loop
calc_num_reserved total_blocks resblocksize =
    let taken = taken_loop total_blocks 53 2048 32 in
    let taken = taken / (resblocksize / 1024) in
    let taken = min (taken - 1) maxnumreserved in let taken = (taken + 31) / 32 * 32 in max taken 32
