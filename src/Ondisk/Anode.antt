-- ===== src/Ondisk/Anode.antt =====
-- `Anode` of crates/libpfs3/src/ondisk/mod.rs: one extent and the number of the next.
use pfs.Prelude.{ℕ, List, Bool, ltb, ◌==◌, if◌then◌else◌, length}
use pfs.Error.{Result, ok, err, too_short, ◌>>=◌}
use pfs.Bytes.{read_u32, u32_at}
use pfs.Ondisk.Constants.{anode_size, anode_eof}

pub record Anode : Type 0 where
  pub clustersize : ℕ
  pub blocknr : ℕ
  pub next : ℕ
  pub nr : ℕ

unfoldable pub parse : List ℕ → ℕ → Result Anode
unfolding u32_at
parse buf nr = if ltb (length buf) anode_size then err (too_short "anode") else do
  clustersize ← read_u32 buf 0
  blocknr ← read_u32 buf 4
  next ← read_u32 buf 8
  ok (record { clustersize = clustersize; blocknr = blocknr; next = next; nr = nr })

unfoldable pub is_eof : Anode → Bool
is_eof an = an.next == anode_eof
