-- ===== src/Volume/Quiet.antt =====
-- About reading a volume, which leaves its device alone.
use pfs.Prelude.{
  ℕ, zero, suc, ◌+◌, ◌*◌, List, [], ◌∷◌, ◌≡◌, refl, Option, none, some, ltb, leb, ◌==◌, not, length,
  contains, if◌then◌else◌, min,
}
use pfs.Error.{Result, err, panic, anode_not_found}
use pfs.Exec.{Exec, pure, lift, ◌>>=◌, concat_each}
use pfs.Bytes.{u16_at, zeros}
use pfs.Io.{BlockDevice}
use pfs.Cache.{Env, read_reserved}
use pfs.Cache.Quiet.{
  Quiet, pure-Quiet, lift-Quiet, then-Quiet, if-Quiet, concat_each-Quiet, env_dev,
  read_reserved-Quiet,
}
use pfs.Anode.{
  AnodeReader, read_index_entry, resolve_anode_block, read_anode, get_anode, chain_loop, get_chain,
  max_chain_len, split_anodenr,
}
use pfs.Ondisk.DelDir.{DelDirEntry}
use pfs.Ondisk.Anode.{Anode}
use pfs.Ondisk.Constants.{
  mode_deldir, anode_eof, dblkid, deldirid, dir_block_header_size, index_block_header_size,
}
use pfs.Ondisk.Rootblock.{RootblockExt, has_flag}
use pfs.Dir.{extent_blocks, block_entries, list_entries}
use pfs.Dir.Block.{parse_dirblock_entries}
use pfs.Volume.Reads.{chain_blocks, read_data_loop, range_loop}
use pfs.Volume.{
  Volume, reading, list_dir_by_anode, read_file_data, read_file_range, list_deldir, deldir_block,
}

module _ {D : Type 0} where
  abbrev pub volume_dev : Volume D → D
  volume_dev v = v.env.dev

module _ {D : Type 0} (device : BlockDevice D) (r : AnodeReader) where
  read_index_entry-Quiet :
      (block offset : ℕ) → Quiet env_dev (read_index_entry device r block offset)
  unfolding read_index_entry
  read_index_entry-Quiet block offset =
      then-Quiet env_dev (read_reserved device block r.reserved_blksize) _
        (read_reserved-Quiet device block r.reserved_blksize)
        (λ bytes.
          if-Quiet env_dev (ltb (length bytes) (index_block_header_size + offset * 4 + 4)) _ _
            (pure-Quiet env_dev 0) (lift-Quiet env_dev _))

  resolve_anode_block-Quiet : (seqnr : ℕ) → Quiet env_dev (resolve_anode_block device r seqnr)
  unfolding resolve_anode_block
  resolve_anode_block-Quiet seqnr =
      if-Quiet env_dev (r.index_per_block == 0) _ _ (lift-Quiet env_dev panic) (
        if-Quiet env_dev r.is_large _ _ (then-Quiet env_dev _ _ (unless _ _) (λ blk. unless blk _))
          (unless _ _))
    where
      unless :
          (block offset : ℕ)
          → Quiet env_dev (if block == 0 then pure 0 else read_index_entry device r block offset)
      unless block offset =
          if-Quiet env_dev (block == 0) _ _ (pure-Quiet env_dev 0)
            (read_index_entry-Quiet block offset)

  get_anode-Quiet : (anodenr : ℕ) → Quiet env_dev (get_anode device r anodenr)
  unfolding get_anode read_anode
  get_anode-Quiet anodenr =
      then-Quiet env_dev (lift (split_anodenr r.split_mode r.anodes_per_block anodenr)) _
        (lift-Quiet env_dev _)
        (λ p.
          then-Quiet env_dev (resolve_anode_block device r (p.0)) _
            (resolve_anode_block-Quiet (p.0))
            (λ blk_nr.
              if-Quiet env_dev (blk_nr == 0) _ _
                (lift-Quiet env_dev (err (anode_not_found anodenr)))
                (then-Quiet env_dev (read_reserved device blk_nr r.reserved_blksize) _
                  (read_reserved-Quiet device blk_nr r.reserved_blksize)
                  (λ bytes. lift-Quiet env_dev _))))

  chain_loop-Quiet :
      (left : ℕ) (seen : List ℕ) (nr : ℕ) → Quiet env_dev (chain_loop device r left seen nr)
  unfolding chain_loop
  chain_loop-Quiet zero seen nr = if-Quiet env_dev (nr == anode_eof) _ _ (pure-Quiet env_dev []) (
      if-Quiet env_dev (contains seen nr) _ _ (lift-Quiet env_dev (err _))
        (lift-Quiet env_dev (err _)))
  chain_loop-Quiet (suc left) seen nr =
      if-Quiet env_dev (nr == anode_eof) _ _ (pure-Quiet env_dev []) (
        if-Quiet env_dev (contains seen nr) _ _ (lift-Quiet env_dev (err _)) (
          then-Quiet env_dev (get_anode device r nr) _ (get_anode-Quiet nr) (λ an.
            then-Quiet env_dev (chain_loop device r left (nr ∷ seen) an.next) _
              (chain_loop-Quiet left (nr ∷ seen) an.next)
              (λ rest. pure-Quiet env_dev (an ∷ rest)))))

  get_chain-Quiet : (anodenr : ℕ) → Quiet env_dev (get_chain device r anodenr)
  unfolding get_chain
  get_chain-Quiet anodenr = chain_loop-Quiet max_chain_len [] anodenr

  block_entries-Quiet : (rbs blk : ℕ) → Quiet env_dev (block_entries device r rbs blk)
  unfolding block_entries
  block_entries-Quiet rbs blk =
      then-Quiet env_dev (read_reserved device blk rbs) _ (read_reserved-Quiet device blk rbs)
        (λ bytes.
          if-Quiet env_dev (ltb (length bytes) (dir_block_header_size + 1)) _ _
            (pure-Quiet env_dev [])
            (then-Quiet env_dev (lift (u16_at bytes 0)) _ (lift-Quiet env_dev (u16_at bytes 0))
              (λ id.
                if-Quiet env_dev (id == dblkid) _ _
                  (lift-Quiet env_dev (parse_dirblock_entries bytes)) (pure-Quiet env_dev []))))

  list_entries-Quiet : (rbs dir_anode : ℕ) → Quiet env_dev (list_entries device r rbs dir_anode)
  unfolding list_entries
  list_entries-Quiet rbs dir_anode =
      then-Quiet env_dev (get_chain device r dir_anode) _ (get_chain-Quiet dir_anode) (λ chain.
        concat_each-Quiet env_dev chain _ (λ an.
          concat_each-Quiet env_dev (extent_blocks an) _ (λ blk. block_entries-Quiet rbs blk)))

reading-Quiet :
    {D A : Type 0} (device : BlockDevice D) (m : Exec (Env D) A)
    → Quiet env_dev m
    → Quiet volume_dev (reading device m)
reading-Quiet device m h = record { run = λ v. h.run v.env }

module _ {D : Type 0} (device : BlockDevice D) where
  pub list_dir_by_anode-Quiet :
      (dir_anode : ℕ) → Quiet volume_dev (list_dir_by_anode device dir_anode)
  unfolding list_dir_by_anode
  list_dir_by_anode-Quiet dir_anode = record {
    run =
        λ v. (list_entries-Quiet device v.anodes v.rootblock.reserved_blksize dir_anode).run v.env;
  }

  -- The chain is read, then the bytes, which changes nothing.
  chain_then :
      {A : Type 0} (anodes : AnodeReader) (anodenr : ℕ) (f : List Anode → Exec (Volume D) A)
      → ((chain : List Anode) → Quiet volume_dev (f chain))
      → Quiet volume_dev (reading device (get_chain device anodes anodenr) >>= f)
  chain_then anodes anodenr f h =
      then-Quiet volume_dev _ f (reading-Quiet device _ (get_chain-Quiet device anodes anodenr)) h

  -- Bytes of the blocks of a chain, which are read past the cache.
  abbrev past_cache : (D → List Anode → Result (List ℕ)) → List Anode → Exec (Volume D) (List ℕ)
  past_cache bytes_of chain v = (bytes_of v.env.dev chain, v)

  bytes-Quiet :
      (anodenr : ℕ) (bytes_of : D → List Anode → Result (List ℕ)) (v : Volume D)
      → volume_dev
          (((reading device (get_chain device v.anodes anodenr) >>= past_cache bytes_of) v).1)
        ≡ volume_dev v
  bytes-Quiet anodenr bytes_of v =
      (chain_then v.anodes anodenr (past_cache bytes_of) (λ chain. record { run = λ v. refl })).run
        v

  pub read_file_data-Quiet :
      (anodenr size : ℕ) → Quiet volume_dev (read_file_data device anodenr size)
  unfolding read_file_data
  read_file_data-Quiet anodenr size = record {
    run = λ v.
        bytes-Quiet anodenr
          (λ dev chain.
            read_data_loop device dev (chain_blocks chain) (zeros (device.block_size dev)) size)
          v;
  }

  pub read_file_range-Quiet :
      (anodenr file_size offset n : ℕ)
      → Quiet volume_dev (read_file_range device anodenr file_size offset n)
  unfolding read_file_range
  read_file_range-Quiet anodenr file_size offset n =
      if-Quiet volume_dev (leb file_size offset) _ _ (pure-Quiet volume_dev []) (record {
        run = λ v.
            bytes-Quiet anodenr
              (λ dev chain.
                range_loop device dev offset (min (offset + n) file_size) chain 0
                  (zeros (device.block_size dev)))
              v;
      })

  deldir_block-Quiet : (rbs blk : ℕ) → Quiet env_dev (deldir_block device rbs blk)
  unfolding deldir_block
  deldir_block-Quiet rbs blk = if-Quiet env_dev (blk == 0) _ _ (pure-Quiet env_dev []) (
      then-Quiet env_dev (read_reserved device blk rbs) _ (read_reserved-Quiet device blk rbs)
        (λ bytes. then-Quiet env_dev (lift (u16_at bytes 0)) _ (lift-Quiet env_dev _) (λ id.
          if-Quiet env_dev (id == deldirid) _ _ (lift-Quiet env_dev _) (pure-Quiet env_dev []))))

  of_extension :
      (rbs : ℕ) (rext : Option RootblockExt)
      → Quiet {S = Volume D} volume_dev (elim rext as (λ o. Exec (Volume D) (List DelDirEntry)) [
        | none ↦ pure []
        | some e ↦ reading device (concat_each e.deldirblocks (deldir_block device rbs))
      ])
  of_extension rbs none = pure-Quiet volume_dev []
  of_extension rbs (some e) =
      reading-Quiet device _
        (concat_each-Quiet env_dev e.deldirblocks _ (λ blk. deldir_block-Quiet rbs blk))

  pub list_deldir-Quiet : Quiet volume_dev (list_deldir device)
  unfolding list_deldir
  list_deldir-Quiet = record {
    run = λ v.
        (if-Quiet volume_dev (not (has_flag v.rootblock mode_deldir)) _ _ (pure-Quiet volume_dev [])
            (of_extension v.rootblock.reserved_blksize v.rootblock_ext)).run
          v;
  }
