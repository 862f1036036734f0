-- ===== src/Anode/Slot.antt =====
-- The part of `get_anode` of crates/libpfs3/src/anode.rs that works on the bytes of an anode block.
use pfs.Prelude.{ℕ, ◌+◌, ◌*◌, List, ltb, if◌then◌else◌, length}
use pfs.Error.{Result, err, anode_not_found, ◌>>=◌}
use pfs.Bytes.{slice}
use pfs.Ondisk.Anode
use pfs.Ondisk.Anode.{Anode}
use pfs.Ondisk.Constants.{anode_size, anode_block_header_size}
use pfs.Ondisk.Headers.{parse_anode_block}

-- The anode in slot `offset` of the bytes of an anode block.
unfoldable pub anode_in : List ℕ → ℕ → ℕ → Result Anode
unfolding parse_anode_block Anode.parse
anode_in bytes offset anodenr = do
  let base = anode_block_header_size + offset * anode_size
  header ← parse_anode_block bytes
  if ltb (length bytes) (base + anode_size)
      then err (anode_not_found anodenr)
      else do raw ← slice bytes base (base + anode_size); Anode.parse raw anodenr
