-- ===== src/Writer/Deldir.antt =====
-- The trash directory: `move_to_deldir` and `write_deldir_entry` of writer.rs.
use pfs.Prelude.{ℕ, List, [], ◌∷◌, Bool, true, false, not, ◌==◌, if◌then◌else◌, Option, none, some}
use pfs.Exec.{Exec, pure, lift, gets, ignore, attempt, ◌>>=◌, ◌>>◌}
use pfs.Bytes.{u16_at, u32_at}
use pfs.Io.{BlockDevice}
use pfs.Ondisk.Constants.{mode_deldir, deldirid, deldir_header_size, deldir_entries_per_block}
use pfs.Ondisk.DirEntry.{DirEntry}
use pfs.Ondisk.Rootblock.{RootblockExt, has_flag}
use pfs.Writer.State.{Writer}
use pfs.Writer.Pending.{read_reserved_raw, write_reserved}
use pfs.Writer.Bitmaps.{free_data_blocks}
use pfs.Writer.Anodes.{clear_anode_chain}
use pfs.Writer.DeldirBytes.{put_deldir_entry, free_slot}

-- `filter(|&b| b != 0)`
unfoldable pub nonzero_blocks : List ℕ → List ℕ
nonzero_blocks [] = []
nonzero_blocks (b ∷ bs) = let rest = nonzero_blocks bs in if b == 0 then rest else b ∷ rest

abbrev pub deldir_blocks : Option RootblockExt → List ℕ
deldir_blocks none = []
deldir_blocks (some e) = nonzero_blocks e.deldirblocks

module _ {D : Type 0} (device : BlockDevice D) where
  abbrev put_in : ℕ → List ℕ → ℕ → DirEntry → Exec (Writer D) Bool
  put_in blk bytes off entry = do
    patched ← lift (put_deldir_entry bytes off entry)
    ignore (write_reserved device blk patched)
    pure true

  -- The loop over the blocks for a free slot. A block that cannot be read is passed over.
  unfoldable pub deldir_loop : DirEntry → ℕ → List ℕ → Exec (Writer D) Bool
  unfolding read_reserved_raw u16_at free_slot put_deldir_entry write_reserved
  deldir_loop entry per_block [] = pure false
  deldir_loop entry per_block (blk ∷ blks) = do
    read ← attempt (read_reserved_raw device blk)
    elim read [
      | none ↦ deldir_loop entry per_block blks
      | some bytes ↦ do
        id ← lift (u16_at bytes 0)
        if id == deldirid
            then (do
              slot ← lift (free_slot bytes 0 per_block)
              elim slot [
                | none ↦ deldir_loop entry per_block blks
                | some off ↦ put_in blk bytes off entry
              ])
            else deldir_loop entry per_block blks
    ]

  -- Full: the first slot of the first block gives way, and the file in it is freed.
  unfoldable pub evict_slot : DirEntry → ℕ → Exec (Writer D) Bool
  unfolding read_reserved_raw u32_at free_data_blocks clear_anode_chain put_deldir_entry
      write_reserved
  evict_slot entry blk = do
    read ← attempt (read_reserved_raw device blk)
    elim read [
      | none ↦ pure false
      | some bytes ↦ do
        old ← lift (u32_at bytes deldir_header_size)
        if old == 0 then put_in blk bytes deldir_header_size entry else do
          ignore (free_data_blocks device old)
          ignore (clear_anode_chain device old)
          put_in blk bytes deldir_header_size entry
    ]

  unfoldable pub move_to_deldir : DirEntry → Exec (Writer D) Bool
  unfolding has_flag nonzero_blocks deldir_entries_per_block deldir_loop evict_slot
  move_to_deldir entry = do
    v ← gets (λ w. w.vol)
    if not (has_flag v.rootblock mode_deldir)
        then pure false
        else elim (deldir_blocks v.rootblock_ext) [
          | [] ↦ pure false
          | blk ∷ blks ↦ do
            done ←
                deldir_loop entry (deldir_entries_per_block v.rootblock.reserved_blksize)
                  (blk ∷ blks)
            if done then pure true else evict_slot entry blk
        ]
