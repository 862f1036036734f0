-- ===== src/Anode.antt =====
-- crates/libpfs3/src/anode.rs: the anode reader. An anode number leads through the index blocks to
-- an anode block, and anodes are chained by their `next` fields.
mod Slot
pub mod Laws
unfoldable pub use Slot.{anode_in}
use pfs.Prelude.{
  ℕ, zero, suc, ◌+◌, ◌-◌, ◌*◌, ◌/◌, ◌%◌, ◌^◌, List, [], ◌∷◌, Bool, bit_and, ltb, leb, ◌==◌,
  if◌then◌else◌, length, get_or, contains, Option, none, some,
}
use pfs.Error.{Result, ok, err, panic, anode_not_found, invalid_partition}
use pfs.Exec.{Exec, pure, raise, lift, ◌>>=◌, ◌>>◌}
use pfs.Bytes.{slice, u32_at}
use pfs.Io.{BlockDevice}
use pfs.Cache.{Env, read_reserved}
use pfs.Ondisk.Constants.{anode_eof, anode_size, anode_block_header_size, index_block_header_size}
use pfs.Ondisk.Anode
use pfs.Ondisk.Anode.{Anode}
use pfs.Ondisk.Headers.{parse_anode_block}
use pfs.Ondisk.Rootblock.{
  Rootblock, RootblockExt, anodes_per_block, index_per_block, is_splitted_anodes, is_large,
}

pub record AnodeReader : Type 0 where
  pub reserved_blksize : ℕ
  pub anodes_per_block : ℕ
  pub index_per_block : ℕ
  pub split_mode : Bool
  pub is_large : Bool
  pub indexblocks : List ℕ
  pub superindex : List ℕ

abbrev superindex_of : Option RootblockExt → List ℕ
superindex_of none = []
superindex_of (some e) = e.superindex

unfoldable pub new_anode_reader : Rootblock → Option RootblockExt → AnodeReader
unfolding anodes_per_block index_per_block is_splitted_anodes is_large
new_anode_reader rb rbe = record {
  reserved_blksize = rb.reserved_blksize;
  anodes_per_block = anodes_per_block rb;
  index_per_block = index_per_block rb;
  split_mode = is_splitted_anodes rb;
  is_large = is_large rb;
  indexblocks = rb.indexblocks;
  superindex = superindex_of rbe;
}

-- Division and remainder of Rust, which panic on a zero divisor.
abbrev pub checked : ℕ → ℕ → Result ℕ
checked divisor value = if divisor == 0 then panic else ok value

-- The sequence number of the anode block and the index in it.
unfoldable pub split_anodenr : Bool → ℕ → ℕ → Result (ℕ × ℕ)
split_anodenr split_mode per_block anodenr =
    if split_mode
    then ok (anodenr / 2 ^ 16, bit_and anodenr 0xFFFF)
    else if per_block == 0
    then panic
    else ok (anodenr / per_block, anodenr % per_block)

abbrev pub max_chain_len : ℕ
max_chain_len = 1_000_000

module _ {D : Type 0} (device : BlockDevice D) (r : AnodeReader) where
  unfoldable pub read_index_entry : ℕ → ℕ → Exec (Env D) ℕ
  unfolding read_reserved u32_at
  read_index_entry block offset = do
    bytes ← read_reserved device block r.reserved_blksize
    let off = index_block_header_size + offset * 4
    if ltb (length bytes) (off + 4) then pure 0 else lift (u32_at bytes off)

  -- A zero entry stands for no block.
  abbrev read_index_unless_zero : ℕ → ℕ → Exec (Env D) ℕ
  read_index_unless_zero block offset = if block == 0 then pure 0 else read_index_entry block offset

  unfoldable pub resolve_anode_block : ℕ → Exec (Env D) ℕ
  unfolding read_index_entry
  resolve_anode_block seqnr =
      let ipb = r.index_per_block in
      if ipb == 0
      then lift panic
      else if r.is_large
      then (do
        let remainder = seqnr % (ipb * ipb)
        idx_blk ←
            read_index_unless_zero (get_or r.superindex (seqnr / (ipb * ipb)) 0) (remainder / ipb)
        read_index_unless_zero idx_blk (remainder % ipb))
      else read_index_unless_zero (get_or r.indexblocks (seqnr / ipb) 0) (seqnr % ipb)

  unfoldable pub read_anode : ℕ → ℕ → ℕ → Exec (Env D) Anode
  unfolding read_reserved anode_in
  read_anode anodenr offset blk_nr = if blk_nr == 0 then raise (anode_not_found anodenr) else do
    bytes ← read_reserved device blk_nr r.reserved_blksize
    lift (anode_in bytes offset anodenr)

  unfoldable pub get_anode : ℕ → Exec (Env D) Anode
  unfolding split_anodenr resolve_anode_block read_anode
  get_anode anodenr = do
    (seqnr, offset) ← lift (split_anodenr r.split_mode r.anodes_per_block anodenr)
    blk_nr ← resolve_anode_block seqnr
    read_anode anodenr offset blk_nr

  -- The loop of `get_chain` with `left` more anodes allowed: the source counts up to
  -- `MAX_CHAIN_LEN`. `seen` holds the numbers visited.
  unfoldable pub chain_loop : ℕ → List ℕ → ℕ → Exec (Env D) (List Anode)
  unfolding get_anode
  chain_loop zero seen nr =
      if nr == anode_eof
      then pure []
      else if contains seen nr
      then raise (invalid_partition "anode cycle")
      else raise (invalid_partition "anode chain too long")
  chain_loop (suc left) seen nr =
      if nr == anode_eof
      then pure []
      else if contains seen nr
      then raise (invalid_partition "anode cycle")
      else do an ← get_anode nr; rest ← chain_loop left (nr ∷ seen) an.next; pure (an ∷ rest)

  unfoldable pub get_chain : ℕ → Exec (Env D) (List Anode)
  unfolding chain_loop
  get_chain anodenr = chain_loop max_chain_len [] anodenr
