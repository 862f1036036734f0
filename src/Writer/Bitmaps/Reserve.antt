-- ===== src/Writer/Bitmaps/Reserve.antt =====
-- About `alloc_reserved_block` of crates/libpfs3/src/writer.rs.
use pfs.Prelude.{
  add32, sub32, ℕ, ◌+◌, ◌-◌, ◌*◌, ◌<◌, ◌==◌, List, if◌then◌else◌, ◌≡◌, refl, ap, sym, arith, Option,
  none, some,
}
use pfs.Error.{Result, ok, err, panic}
use pfs.Io.{BlockDevice}
use pfs.Writer.State.{Writer}
use pfs.Writer.Scan.{take_first}
use pfs.Writer.Scan.Laws.{ones, bit_of, TakesFirst, take_first-TakesFirst}
use pfs.Writer.Bitmaps.{reserve, alloc_reserved_block}

-- What an allocation of a reserved block gives and leaves.
abbrev pub Reserves : {D : Type 0} → Writer D → Result ℕ × Writer D → Type 0
Reserves w (ok blk, w') =
    (idx : ℕ) × (blk ≡ add32 w.firstreserved (idx * w.rescluster))
    × (bit_of w.res_bitmap idx ≡ 1)
    × ((j : ℕ) → j < idx → bit_of w.res_bitmap j ≡ 0)
    × ((j : ℕ) → bit_of w'.res_bitmap j ≡ (if j == idx then 0 else bit_of w.res_bitmap j))
    × (ones w.res_bitmap ≡ ones w'.res_bitmap + 1)
    × (w'.vol.rootblock.reserved_free ≡ sub32 w.vol.rootblock.reserved_free 1)
Reserves w (err e, w') = ((j : ℕ) → bit_of w.res_bitmap j ≡ 0) × (w' ≡ w)
Reserves w (panic, w') = ⊥

reserve-Reserves :
    {D : Type 0} (device : BlockDevice D) (w : Writer D) (o : Option (ℕ × List ℕ))
    → TakesFirst 0 w.res_bitmap o
    → Reserves w (reserve device o w)
reserve-Reserves device w none h = (h, refl)
reserve-Reserves device w (some (idx, words)) (lo, one, first, others, sum) =
    let same : idx - 0 * 32 ≡ idx = omega arith in
    (
      idx - 0 * 32,
      ap (λ (i : ℕ). add32 w.firstreserved (i * w.rescluster)) (sym same),
      one,
      first,
      others,
      sum,
      refl,
    )

-- A reserved block is allocated without a panic: it is the block of the first set bit of the reserved
-- bitmap, of which only this bit is cleared, and the free count falls by one; it fails only when no bit
-- is set, and then changes nothing.
pub alloc_reserved_block-Reserves :
    {D : Type 0} (device : BlockDevice D) (w : Writer D)
    → Reserves w (alloc_reserved_block device w)
unfolding alloc_reserved_block
alloc_reserved_block-Reserves device w =
    reserve-Reserves device w (take_first 0 w.res_bitmap) (take_first-TakesFirst 0 w.res_bitmap)
