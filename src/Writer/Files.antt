-- ===== src/Writer/Files.antt =====
-- The files of `Writer`: writing, overwriting, linking, deleting, renaming and undeleting.
use pfs.Prelude.{
  ℕ, ◌+◌, ◌-◌, ◌*◌, ◌/◌, ◌%◌, ◌^◌, List, [], ◌∷◌, Bool, true, false, ◌&&◌, ◌||◌, leb, ◌==◌,
  if◌then◌else◌, length, max, take, Option, none, some,
}
use pfs.Error.{Str, Result, ok, err, panic, not_found, not_empty, ok_or}
use pfs.Exec.{Exec, pure, raise, lift, gets, modify, attempt, ◌>>=◌, ◌>>◌}
use pfs.Bytes.{index, zeros, u32_at, put_u16, put_u32}
use pfs.Util.Names.{as_bytes, name_eq_ci}
use pfs.Io.{BlockDevice}
use pfs.Anode.{get_chain}
use pfs.Dir.{find_name}
use pfs.Volume.{list_dir_by_anode}
use pfs.Volume.Reads.{chain_blocks}
use pfs.Ondisk.Anode.{Anode}
use pfs.Ondisk.Constants.{dblkid, st_file, st_rolloverfile, st_userdir, st_softlink}
use pfs.Ondisk.DirEntry.{DirEntry, is_dir, file_size}
use pfs.Writer.State.{Writer, on_vol, on_dev, set_rootblock}
use pfs.Writer.Pending.{write_reserved, next_datestamp, update_rootblock}
use pfs.Writer.Sectors.{sector_at}
use pfs.Writer.Bitmaps.{alloc_data_blocks, alloc_reserved_block, free_data_blocks}
use pfs.Writer.Anodes.{
  chain_of, create_anode_chain, append_to_anode_chain, truncate_anode_chain, clear_anode_chain,
  free_anode_chain_reserved, alloc_anode,
}
use pfs.Writer.Entries.{
  Found, find_dir_entry, add_dir_entry, remove_dir_entry, update_dir_entry_size,
}
use pfs.Writer.Deldir.{move_to_deldir}

-- `data.len().div_ceil(bs).max(1) as u32`
abbrev pub blocks_needed : ℕ → ℕ → ℕ
blocks_needed len bs = max ((len + bs - 1) / bs) 1 % 2 ^ 32

-- The sum of the cluster sizes, as u32.
abbrev pub total_blocks32 : List Anode → ℕ
total_blocks32 [] = 0
total_blocks32 (an ∷ chain) = (an.clustersize + total_blocks32 chain) % 2 ^ 32

-- A directory of that name.
unfoldable pub find_subdir : Str → List DirEntry → Option DirEntry
unfolding name_eq_ci is_dir
find_subdir name [] = none
find_subdir name (e ∷ es) =
    if name_eq_ci e.name name && is_dir e then some e else find_subdir name es

module _ {D : Type 0} (device : BlockDevice D) where
  open device use {block_size, write_block, flush}

  abbrev device_block_size : Exec (Writer D) ℕ
  device_block_size = gets (λ w. block_size w.vol.env.dev)

  -- Write `data` from byte `start` on, one sector to each of the blocks.
  unfoldable pub write_data : List ℕ → ℕ → ℕ → List ℕ → Exec (Writer D) (Unit {0})
  unfolding sector_at
  write_data bytes bs start [] = pure tt
  write_data bytes bs start (blk ∷ blks) = do
    sector ← lift (sector_at bytes bs start)
    on_dev (write_block blk sector)
    write_data bytes bs (start + bs) blks

  -- The data of a new file or link: its anode number. The data is flushed before its metadata.
  abbrev store_data : List ℕ → Exec (Writer D) ℕ
  store_data bytes = do
    bs ← device_block_size
    if bs == 0 then lift panic else do
      blocks ← alloc_data_blocks device (blocks_needed (length bytes) bs)
      write_data bytes bs 0 blocks
      on_dev flush
      create_anode_chain device blocks

  unfoldable pub write_file_in_no_commit : ℕ → Str → List ℕ → Exec (Writer D) (Unit {0})
  unfolding alloc_data_blocks write_data create_anode_chain add_dir_entry
  write_file_in_no_commit parent_anode name bytes = do
    anodenr ← store_data bytes
    add_dir_entry device parent_anode name st_file anodenr (length bytes) 0

  unfoldable pub overwrite_file_in : ℕ → Str → ℕ → List ℕ → Exec (Writer D) (Unit {0})
  unfolding get_chain chain_blocks write_data truncate_anode_chain alloc_data_blocks
      create_anode_chain append_to_anode_chain update_dir_entry_size update_rootblock
  overwrite_file_in parent_anode name file_anode bytes = do
    bs ← device_block_size
    if bs == 0 then lift panic else do
      let needed = blocks_needed (length bytes) bs
      old_chain ← chain_of device file_anode
      let old_total = total_blocks32 old_chain
      let reused = take needed (chain_blocks old_chain)
      write_data bytes bs 0 reused
      on_dev flush
      if leb needed old_total then truncate_anode_chain device file_anode needed else do
        new_blocks ← alloc_data_blocks device (needed - old_total)
        write_data bytes bs (length reused * bs) new_blocks
        on_dev flush
        new_chain_head ← create_anode_chain device new_blocks
        append_to_anode_chain device file_anode new_chain_head
      update_dir_entry_size device parent_anode name (length bytes)
      update_rootblock device

  abbrev is_plain_file : ℕ → Bool
  is_plain_file entry_type = entry_type == st_file || entry_type == st_rolloverfile

  -- The anode of the entry found, if it is a file that can be overwritten.
  abbrev file_anode_at : Option Found → Result (Option ℕ)
  file_anode_at none = ok none
  file_anode_at (some found) = elim (index found.bytes (found.pos + 1)) [
    | ok entry_type ↦
        if is_plain_file entry_type
        then elim (u32_at found.bytes (found.pos + 2)) [
          | ok anode ↦ ok (some anode)
          | err e ↦ err e
          | panic ↦ panic
        ]
        else ok none
    | err e ↦ err e
    | panic ↦ panic
  ]

  unfoldable pub write_file_in : ℕ → Str → List ℕ → Exec (Writer D) (Unit {0})
  unfolding find_dir_entry u32_at overwrite_file_in write_file_in_no_commit update_rootblock
  write_file_in parent_anode name bytes = do
    found ← attempt (find_dir_entry device parent_anode name)
    existing ← lift (file_anode_at found)
    elim existing [
      | some file_anode ↦ overwrite_file_in parent_anode name file_anode bytes
      | none ↦ do write_file_in_no_commit parent_anode name bytes; update_rootblock device
    ]

  unfoldable pub create_dir_in : ℕ → Str → Exec (Writer D) (Unit {0})
  unfolding alloc_reserved_block alloc_anode put_u16 put_u32 next_datestamp write_reserved
      add_dir_entry update_rootblock
  create_dir_in parent_anode name = do
    dir_blk ← alloc_reserved_block device
    anodenr ← alloc_anode device 1 dir_blk 0
    rbs ← gets (λ w. w.resblocksize)
    b ← lift (put_u16 (zeros rbs) 0x00 dblkid)
    ds ← next_datestamp device
    b ← lift (put_u32 b 0x04 ds)
    b ← lift (put_u32 b 0x0C anodenr)
    b ← lift (put_u32 b 0x10 parent_anode)
    write_reserved device dir_blk b
    add_dir_entry device parent_anode name st_userdir anodenr 0 0
    update_rootblock device

  unfoldable pub create_softlink_in : ℕ → Str → Str → Exec (Writer D) (Unit {0})
  unfolding alloc_data_blocks write_data create_anode_chain add_dir_entry as_bytes update_rootblock
  create_softlink_in parent_anode name target = do
    let bytes = as_bytes target
    anodenr ← store_data bytes
    add_dir_entry device parent_anode name st_softlink anodenr (length bytes) 0
    update_rootblock device

  -- `force_remove_entry`: the entry goes, its anodes and blocks stay.
  unfoldable pub force_remove_entry : ℕ → Str → Exec (Writer D) (Unit {0})
  unfolding remove_dir_entry update_rootblock
  force_remove_entry parent_anode name = do
    remove_dir_entry device parent_anode name
    update_rootblock device

  unfoldable pub repair_blocksfree : ℕ → Exec (Writer D) (Unit {0})
  unfolding update_rootblock
  repair_blocksfree correct_free = do
    modify (λ w. set_rootblock w (record (w.vol.rootblock) { blocksfree = correct_free }))
    update_rootblock device

  unfoldable pub repair_reserved_free : ℕ → Exec (Writer D) (Unit {0})
  unfolding update_rootblock
  repair_reserved_free correct_free = do
    modify (λ w. set_rootblock w (record (w.vol.rootblock) { reserved_free = correct_free }))
    update_rootblock device

  -- What an entry refers to is freed, or moved to the trash directory.
  abbrev release : DirEntry → Exec (Writer D) (Unit {0})
  release target =
      if is_dir target
      then (do
        sub ← on_vol (list_dir_by_anode device target.anode)
        elim sub [
          | e ∷ es ↦ raise not_empty
          | [] ↦ do
            free_anode_chain_reserved device target.anode
            clear_anode_chain device target.anode
        ])
      else do
        moved ← move_to_deldir device target
        if moved
            then pure tt
            else do free_data_blocks device target.anode; clear_anode_chain device target.anode

  unfoldable pub delete_in : ℕ → Str → Exec (Writer D) (Unit {0})
  unfolding list_dir_by_anode find_name is_dir free_anode_chain_reserved clear_anode_chain
      move_to_deldir free_data_blocks remove_dir_entry update_rootblock
  delete_in parent_anode name = do
    entries ← on_vol (list_dir_by_anode device parent_anode)
    target ← lift (ok_or (find_name name entries) (not_found name))
    release target
    remove_dir_entry device parent_anode name
    update_rootblock device

  -- Whether the listing succeeded and has the name.
  abbrev has_name : Str → Option (List DirEntry) → Bool
  has_name name none = false
  has_name name (some entries) = elim (find_name name entries) [ none ↦ false | some e ↦ true ]

  unfoldable pub rename_in : ℕ → Str → ℕ → Str → Exec (Writer D) (Unit {0})
  unfolding list_dir_by_anode find_name delete_in add_dir_entry file_size remove_dir_entry
      update_rootblock
  rename_in src_parent src_name dst_parent dst_name = do
    entries ← on_vol (list_dir_by_anode device src_parent)
    entry ← lift (ok_or (find_name src_name entries) (not_found src_name))
    dst_entries ← attempt (on_vol (list_dir_by_anode device dst_parent))
    if has_name dst_name dst_entries then delete_in dst_parent dst_name else pure tt
    add_dir_entry device dst_parent dst_name entry.entry_type entry.anode (file_size entry)
        entry.protection
    remove_dir_entry device src_parent src_name
    update_rootblock device
