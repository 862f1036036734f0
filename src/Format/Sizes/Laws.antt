-- ===== src/Format/Sizes/Laws.antt =====
-- About `calc_num_reserved` of crates/libpfs3/src/format.rs: bounds.
use pfs.Prelude.{ℕ, ◌+◌, ◌*◌, ◌/◌, ◌%◌, ◌-◌, ◌≤◌, min, max, ◌≡◌, arith}
use pfs.Format.Sizes.{taken_loop, calc_num_reserved, maxnumreserved}

-- Whatever the disk, the number of reserved blocks is a positive multiple of 32, and it is at most
-- the limit of the on-disk format, rounded up to a multiple of 32.
pub calc_num_reserved_bounds :
    (total_blocks resblocksize : ℕ)
    → let n = calc_num_reserved total_blocks resblocksize in
      (32 ≤ n) × (n ≤ maxnumreserved + 31) × (n % 32 ≡ 0)
calc_num_reserved_bounds total_blocks resblocksize =
    unfold calc_num_reserved in
    bounds (taken_loop total_blocks 53 2048 32 / (resblocksize / 1024) - 1)
  where
    bounds :
        (t : ℕ)
        → (32 ≤ max ((min t maxnumreserved + 31) / 32 * 32) 32)
          × (max ((min t maxnumreserved + 31) / 32 * 32) 32 ≤ maxnumreserved + 31)
          × (max ((min t maxnumreserved + 31) / 32 * 32) 32 % 32 ≡ 0)
    bounds t = (omega arith, omega arith, omega arith)
