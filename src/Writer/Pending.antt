-- ===== src/Writer/Pending.antt =====
-- The pending writes of `Writer`: `read_reserved_raw`, `write_reserved`, `flush_pending`,
-- `update_rootblock`, and `write_reserved_blocks` of ondisk/mod.rs.
pub mod Laws
use pfs.Prelude.{
  add32, ℕ, zero, suc, ◌+◌, ◌-◌, ◌*◌, List, [], ◌∷◌, ◌++◌, Bool, true, false, ltb, leb, ◌==◌,
  if◌then◌else◌, length, min, Option, none, some, range,
}
use pfs.Error
use pfs.Error.{Result, ok, err, panic}
use pfs.Exec.{Exec, pure, raise, lift, gets, modify, for_each, ◌>>=◌, ◌>>◌}
use pfs.Bytes.{zeros, put_u32}
use pfs.Writer.Sectors.{sector_at, patch_cluster}
use pfs.Cache
use pfs.Io.{BlockDevice}
use pfs.Ondisk.Constants.{rb_off_datestamp, rb_off_reserved_free, rb_off_blocksfree}
use pfs.Writer.State.{Writer, on_dev, set_rootblock, uncache}

-- The most recent write to a block: the last in the list.
unfoldable pub last_write : ℕ → List (ℕ × List ℕ) → Option (List ℕ)
last_write blk [] = none
last_write blk ((b, bytes) ∷ writes) = elim (last_write blk writes) [
  | some later ↦ some later
  | none ↦ if b == blk then some bytes else none
]

-- Replace the first write to the block, or append one.
unfoldable pub put_write : ℕ → List ℕ → List (ℕ × List ℕ) → List (ℕ × List ℕ)
put_write blk bytes [] = (blk, bytes) ∷ []
put_write blk bytes ((b, old) ∷ writes) =
    let rest = put_write blk bytes writes in
    if b == blk then (b, bytes) ∷ writes else (b, old) ∷ rest

module _ {D : Type 0} (device : BlockDevice D) where
  open device use {read_blocks, block_size, write_block, write_blocks, flush}

  -- `write_reserved_blocks`: the sectors `i`, `i + 1`, … of a reserved block.
  unfoldable pub write_sectors : ℕ → List ℕ → ℕ → ℕ → ℕ → Exec D (Unit {0})
  unfolding sector_at
  write_sectors blk bytes sector_size i zero = pure tt
  write_sectors blk bytes sector_size i (suc n) = do
    sector ← lift (sector_at bytes sector_size (i * sector_size))
    write_block (blk + i) sector
    write_sectors blk bytes sector_size (i + 1) n

  unfoldable pub write_reserved_blocks : ℕ → List ℕ → ℕ → ℕ → Exec D (Unit {0})
  unfolding write_sectors
  write_reserved_blocks blk bytes rescluster sector_size =
      write_sectors blk bytes sector_size 0 rescluster

  unfoldable pub next_datestamp : Exec (Writer D) ℕ
  next_datestamp w = let ds = add32 w.datestamp 1 in (ok ds, record w { datestamp = ds })

  abbrev pub read_unless_pending : ℕ → Option (List ℕ) → Exec (Writer D) (List ℕ)
  read_unless_pending blk (some bytes) w = (ok bytes, w)
  read_unless_pending blk none w =
      (read_blocks w.vol.env.dev blk w.rescluster (zeros w.resblocksize), w)

  -- Pending writes shadow the device.
  unfoldable pub read_reserved_raw : ℕ → Exec (Writer D) (List ℕ)
  unfolding last_write
  read_reserved_raw blk w = read_unless_pending blk (last_write blk w.pending_writes) w

  unfoldable pub write_reserved : ℕ → List ℕ → Exec (Writer D) (Unit {0})
  unfolding put_write
  write_reserved blk bytes w =
      (ok tt, uncache blk (record w { pending_writes = put_write blk bytes w.pending_writes }))

  abbrev pub flush_one : ℕ × List ℕ → Exec (Writer D) (Unit {0})
  flush_one (blk, bytes) = do
    w ← gets (λ w. w)
    on_dev (write_reserved_blocks blk bytes w.rescluster (block_size w.vol.env.dev))
    modify (uncache blk)

  unfoldable pub flush_pending : Exec (Writer D) (Unit {0})
  unfolding write_reserved_blocks for_each
  flush_pending = do
    writes ← gets (λ w. w.pending_writes)
    modify (λ w. record w { pending_writes = [] })
    for_each writes flush_one
    on_dev flush

  -- Pending blocks go out first, and the rootblock cluster last.
  unfoldable pub update_rootblock : Exec (Writer D) (Unit {0})
  unfolding flush_pending patch_cluster next_datestamp
  update_rootblock = do
    flush_pending
    w ← gets (λ w. w)
    let bs = block_size w.vol.env.dev
    let rblkcluster = w.vol.rootblock.rblkcluster
    cluster ←
        lift (read_blocks w.vol.env.dev w.firstreserved rblkcluster (zeros (rblkcluster * bs)))
    ds ← next_datestamp
    patched ← lift (
        patch_cluster cluster bs ds w.vol.rootblock.reserved_free w.vol.rootblock.blocksfree
          w.res_bitmap)
    on_dev (write_blocks w.firstreserved rblkcluster patched)
    on_dev flush
