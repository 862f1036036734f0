-- ===== src/Writer/AnodeBytes.antt =====
-- Anode slots in the bytes of an anode block: the pure parts of `write_anode_fields` and of
-- `alloc_anode`.
pub mod Laws
use pfs.Prelude.{
  ℕ, zero, suc, ◌+◌, ◌*◌, ◌%◌, ◌^◌, List, Bool, ◌&&◌, ltb, ◌==◌, if◌then◌else◌, Option, none, some,
  bit_or,
}
use pfs.Error.{Result, ok, ◌>>=◌}
use pfs.Bytes.{u32_at, put_u32}
use pfs.Ondisk.Constants.{anode_size, anode_userfirst, anode_block_header_size}

abbrev pub slot_base : ℕ → ℕ
slot_base offset = anode_block_header_size + offset * anode_size

-- The three fields of a slot.
unfoldable pub put_anode : List ℕ → ℕ → ℕ → ℕ → ℕ → Result (List ℕ)
unfolding put_u32
put_anode bytes offset clustersize blocknr next = do
  b ← put_u32 bytes (slot_base offset) clustersize
  b ← put_u32 b (slot_base offset + 4) blocknr
  put_u32 b (slot_base offset + 8) next

-- The same, and the datestamp of the block.
unfoldable pub put_stamped_anode : List ℕ → ℕ → ℕ → ℕ → ℕ → ℕ → Result (List ℕ)
unfolding put_anode put_u32
put_stamped_anode bytes offset clustersize blocknr next datestamp = do
  b ← put_anode bytes offset clustersize blocknr next
  put_u32 b 4 datestamp

-- The number of the anode in slot `offset` of block `seqnr`, as u32.
unfoldable pub anodenr_of : Bool → ℕ → ℕ → ℕ → ℕ
anodenr_of split per_block seqnr offset =
    if split then bit_or (seqnr * 2 ^ 16 % 2 ^ 32) offset else (seqnr * per_block + offset) % 2 ^ 32

-- The first slot from `offset` on, among `n`, that is not reserved and whose cluster size and block
-- number are zero.
unfoldable pub find_free : List ℕ → Bool → ℕ → ℕ → ℕ → ℕ → Result (Option ℕ)
unfolding anodenr_of u32_at
find_free bytes split per_block seqnr offset zero = ok none
find_free bytes split per_block seqnr offset (suc n) =
    let later = find_free bytes split per_block seqnr (offset + 1) n in
    if ltb (anodenr_of split per_block seqnr offset) anode_userfirst then later else do
      cs ← u32_at bytes (slot_base offset)
      bn ← u32_at bytes (slot_base offset + 4)
      if (cs == 0) && (bn == 0) then ok (some offset) else later
