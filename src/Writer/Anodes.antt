-- ===== src/Writer/Anodes.antt =====
-- The anode methods of `Writer`: writing, allocating, chaining, truncating and clearing anodes.
use pfs.Prelude.{
  add32, ℕ, zero, suc, ◌+◌, ◌-◌, ◌*◌, ◌/◌, ◌%◌, ◌^◌, List, [], ◌∷◌, ltb, ◌==◌, if◌then◌else◌,
  Option, none, some, range, get_or,
}
use pfs.Error.{panic, disk_full, anode_not_found, ok_or}
use pfs.Exec.{Exec, pure, raise, lift, gets, modify, for_each, ◌>>=◌, ◌>>◌}
use pfs.Bytes.{zeros, u16_at, u32_at, put_u16, put_u32}
use pfs.Io.{BlockDevice}
use pfs.Cache.{read_reserved}
use pfs.Anode.{get_chain, resolve_anode_block, split_anodenr}
use pfs.Ondisk.Anode.{Anode}
use pfs.Ondisk.Constants.{ablkid, iblkid, anode_eof, anode_userfirst, index_block_header_size}
use pfs.Ondisk.Rootblock.{RootblockExt, is_splitted_anodes, is_large}
use pfs.Writer.State.{Writer, on_env, uncache}
use pfs.Writer.Pending.{read_reserved_raw, write_reserved, next_datestamp}
use pfs.Writer.Bitmaps.{extent_blocks32, alloc_reserved_block, free_reserved_block, free_data_block}
use pfs.Writer.Clusters.{clusters}
use pfs.Writer.AnodeBytes.{put_anode, put_stamped_anode, find_free, anodenr_of}

module _ {D : Type 0} (device : BlockDevice D) where
  abbrev pub chain_of : ℕ → Exec (Writer D) (List Anode)
  chain_of anodenr = do anodes ← gets (λ w. w.vol.anodes); on_env (get_chain device anodes anodenr)

  unfoldable pub get_anode_block_nr : ℕ → Exec (Writer D) ℕ
  unfolding resolve_anode_block
  get_anode_block_nr seqnr = do
    anodes ← gets (λ w. w.vol.anodes)
    on_env (resolve_anode_block device anodes seqnr)

  unfoldable pub write_anode_fields : ℕ → ℕ → ℕ → ℕ → Exec (Writer D) (Unit {0})
  unfolding is_splitted_anodes split_anodenr get_anode_block_nr read_reserved_raw put_anode put_u32
      write_reserved
  write_anode_fields anodenr clustersize blocknr next = do
    w ← gets (λ w. w)
    (seqnr, offset) ←
        lift (split_anodenr (is_splitted_anodes w.vol.rootblock) w.anodes_per_block anodenr)
    blk_num ← get_anode_block_nr seqnr
    bytes ← read_reserved_raw device blk_num
    patched ← lift (put_stamped_anode bytes offset clustersize blocknr next w.datestamp)
    write_reserved device blk_num patched

  unfoldable pub clear_single_anode : ℕ → Exec (Writer D) (Unit {0})
  unfolding write_anode_fields
  clear_single_anode anodenr = write_anode_fields anodenr 0 0 0

  unfoldable pub clear_anode_chain : ℕ → Exec (Writer D) (Unit {0})
  unfolding get_chain clear_single_anode for_each
  clear_anode_chain anodenr = do
    chain ← chain_of anodenr
    for_each chain (λ an. clear_single_anode an.nr)

  unfoldable pub free_anode_chain_reserved : ℕ → Exec (Writer D) (Unit {0})
  unfolding get_chain free_reserved_block for_each
  free_anode_chain_reserved anodenr = do
    chain ← chain_of anodenr
    for_each chain (λ an. for_each (extent_blocks32 an) (free_reserved_block device))

  unfoldable pub free_and_clear_anodes : List Anode → Exec (Writer D) (Unit {0})
  unfolding free_data_block clear_single_anode for_each
  free_and_clear_anodes anodes =
      for_each anodes
        λ an. do for_each (extent_blocks32 an) (free_data_block device); clear_single_anode an.nr

  -- The loop of `truncate_anode_chain`.
  unfoldable pub truncate_loop : List Anode → ℕ → Exec (Writer D) (Unit {0})
  unfolding free_and_clear_anodes write_anode_fields
  truncate_loop [] remaining = pure tt
  truncate_loop (an ∷ chain) remaining =
      let rest = truncate_loop chain (remaining - an.clustersize) in
      if remaining == 0
      then free_and_clear_anodes (an ∷ chain)
      else if ltb remaining an.clustersize
      then (do
        for_each (range remaining (an.clustersize - remaining))
            (λ i. free_data_block device (add32 an.blocknr i))
        write_anode_fields an.nr remaining an.blocknr anode_eof
        free_and_clear_anodes chain)
      else if remaining == an.clustersize
      then (do
        write_anode_fields an.nr an.clustersize an.blocknr anode_eof
        free_and_clear_anodes chain)
      else rest

  unfoldable pub truncate_anode_chain : ℕ → ℕ → Exec (Writer D) (Unit {0})
  unfolding get_chain truncate_loop
  truncate_anode_chain head keep_blocks = do chain ← chain_of head; truncate_loop chain keep_blocks

  abbrev last_anode : List Anode → Option Anode
  last_anode [] = none
  last_anode (an ∷ []) = some an
  last_anode (an ∷ next ∷ chain) = last_anode (next ∷ chain)

  unfoldable pub append_to_anode_chain : ℕ → ℕ → Exec (Writer D) (Unit {0})
  unfolding get_chain write_anode_fields
  append_to_anode_chain head new_head = do
    chain ← chain_of head
    tail ← lift (ok_or (last_anode chain) (anode_not_found head))
    write_anode_fields tail.nr tail.clustersize tail.blocknr new_head

  -- `superindex.get(super_nr)` of the extension, 0 if there is none.
  abbrev super_block : Option RootblockExt → ℕ → ℕ
  super_block none super_nr = 0
  super_block (some e) super_nr = get_or e.superindex super_nr 0

  -- Put the number of a block into an index block.
  abbrev put_index : ℕ → ℕ → ℕ → Exec (Writer D) (Unit {0})
  put_index idx_blk slot blk = do
    bytes ← read_reserved_raw device idx_blk
    patched ← lift (put_u32 bytes (index_block_header_size + slot * 4) blk)
    ds ← gets (λ w. w.datestamp)
    stamped ← lift (put_u32 patched 4 ds)
    write_reserved device idx_blk stamped

  abbrev register_large : ℕ → ℕ → Exec (Writer D) (Unit {0})
  register_large seqnr new_blk = do
    w ← gets (λ w. w)
    let ipb = w.index_per_block
    if ipb == 0 then lift panic else do
      let remainder = seqnr % (ipb * ipb)
      let idx_in_super = remainder / ipb
      let off_in_idx = remainder % ipb
      let super_blk = super_block w.vol.rootblock_ext (seqnr / (ipb * ipb))
      if super_blk == 0 then raise (disk_full "no superindex slot available") else do
        sbytes ← on_env (read_reserved device super_blk (w.resblocksize % 2 ^ 16))
        idx_blk ← lift (u32_at sbytes (index_block_header_size + idx_in_super * 4))
        if idx_blk == 0
            then (do
              new_idx ← alloc_reserved_block device
              idata ← lift (put_u16 (zeros w.resblocksize) 0 iblkid)
              ds ← next_datestamp device
              idata ← lift (put_u32 idata 4 ds)
              idata ← lift (put_u32 idata 8 idx_in_super)
              idata ← lift (put_u32 idata (index_block_header_size + off_in_idx * 4) new_blk)
              write_reserved device new_idx idata
              put_index super_blk idx_in_super new_idx)
            else put_index idx_blk off_in_idx new_blk

  abbrev register_small : ℕ → ℕ → Exec (Writer D) (Unit {0})
  register_small seqnr new_blk = do
    w ← gets (λ w. w)
    let ipb = w.index_per_block
    if ipb == 0 then lift panic else do
      let idx_blk = get_or w.vol.rootblock.indexblocks (seqnr / ipb) 0
      if idx_blk == 0
          then raise (disk_full "no index block slot available")
          else put_index idx_blk (seqnr % ipb) new_blk

  unfoldable pub alloc_anode_block : ℕ → Exec (Writer D) ℕ
  unfolding alloc_reserved_block next_datestamp put_u16 put_u32 u32_at write_reserved
      read_reserved_raw read_reserved is_large
  alloc_anode_block seqnr = do
    new_blk ← alloc_reserved_block device
    w ← gets (λ w. w)
    bytes ← lift (put_u16 (zeros w.resblocksize) 0 ablkid)
    ds ← next_datestamp device
    bytes ← lift (put_u32 bytes 4 ds)
    bytes ← lift (put_u32 bytes 8 seqnr)
    write_reserved device new_blk bytes
    if is_large w.vol.rootblock then register_large seqnr new_blk else register_small seqnr new_blk
    modify (uncache new_blk)
    pure new_blk

  -- The loop of `alloc_anode` over the anode blocks `seqnr`, `seqnr + 1`, …, `n` of them.
  unfoldable pub alloc_anode_loop : ℕ → ℕ → ℕ → ℕ → ℕ → Exec (Writer D) ℕ
  unfolding get_anode_block_nr alloc_anode_block read_reserved_raw put_stamped_anode write_reserved
      find_free u16_at is_splitted_anodes anodenr_of
  alloc_anode_loop clustersize blocknr next seqnr zero = raise (disk_full "no free anode slots")
  alloc_anode_loop clustersize blocknr next seqnr (suc n) = do
    blk_num ← get_anode_block_nr seqnr
    w ← gets (λ w. w)
    let split = is_splitted_anodes w.vol.rootblock
    if blk_num == 0
        then (do
          new_blk ← alloc_anode_block seqnr
          bytes ← read_reserved_raw device new_blk
          ds ← gets (λ w. w.datestamp)
          patched ← lift (put_stamped_anode bytes anode_userfirst clustersize blocknr next ds)
          write_reserved device new_blk patched
          pure (anodenr_of split w.anodes_per_block seqnr anode_userfirst))
        else do
          bytes ← read_reserved_raw device blk_num
          id ← lift (u16_at bytes 0)
          if id == ablkid
              then (do
                slot ← lift (find_free bytes split w.anodes_per_block seqnr 0 w.anodes_per_block)
                elim slot [
                  | none ↦ alloc_anode_loop clustersize blocknr next (seqnr + 1) n
                  | some offset ↦ do
                    patched ←
                        lift (put_stamped_anode bytes offset clustersize blocknr next w.datestamp)
                    write_reserved device blk_num patched
                    pure (anodenr_of split w.anodes_per_block seqnr offset)
                ])
              else alloc_anode_loop clustersize blocknr next (seqnr + 1) n

  unfoldable pub alloc_anode : ℕ → ℕ → ℕ → Exec (Writer D) ℕ
  unfolding alloc_anode_loop
  alloc_anode clustersize blocknr next = alloc_anode_loop clustersize blocknr next 0 256

  -- The second loop of `create_anode_chain`, over the clusters from the last to the first.
  unfoldable pub chain_clusters : List (ℕ × ℕ) → Exec (Writer D) ℕ
  unfolding alloc_anode
  chain_clusters [] = pure 0
  chain_clusters ((start, count) ∷ rest) = do
    next_nr ← chain_clusters rest
    alloc_anode count start next_nr

  unfoldable pub create_anode_chain : List ℕ → Exec (Writer D) ℕ
  unfolding clusters chain_clusters
  create_anode_chain blocks = chain_clusters (clusters blocks)

  unfoldable pub extend_anode_chain : ℕ → ℕ → Exec (Writer D) (Unit {0})
  unfolding alloc_anode append_to_anode_chain
  extend_anode_chain head_anode new_blk = do
    new_anodenr ← alloc_anode 1 new_blk 0
    append_to_anode_chain head_anode new_anodenr
