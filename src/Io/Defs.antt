-- ===== src/Io/Defs.antt =====
-- The trait `BlockDevice` of crates/libpfs3/src/io.rs, over a device state `D`.
use pfs.Prelude.{ℕ, List}
use pfs.Error.{Result}
use pfs.Exec.{Exec}

-- A read takes the buffer to fill and gives it back filled.
pub record BlockDevice (D : Type 0) : Type 0 where
  pub read_block : D → ℕ → List ℕ → Result (List ℕ)
  pub read_blocks : D → ℕ → ℕ → List ℕ → Result (List ℕ)
  pub block_size : D → ℕ
  pub write_block : ℕ → List ℕ → Exec D Unit
  pub write_blocks : ℕ → ℕ → List ℕ → Exec D Unit
  pub flush : Exec D Unit
