-- ===== src/Dir/Block.antt =====
-- `parse_dirblock_entries` of crates/libpfs3/src/dir.rs.
use pfs.Prelude.{ℕ, zero, suc, List, [], ◌∷◌, ltb, if◌then◌else◌, length, none, some}
use pfs.Error.{Result, ok, panic, ◌>>=◌}
use pfs.Ondisk.Constants.{dir_block_header_size}
use pfs.Ondisk.DirEntry
use pfs.Ondisk.DirEntry.{DirEntry}

-- The loop of `parse_dirblock_entries` on fuel; `panic` stands for fuel that ran out.
unfoldable pub dirblock_loop : ℕ → List ℕ → ℕ → Result (List DirEntry)
unfolding DirEntry.parse
dirblock_loop zero bytes offset = panic
dirblock_loop (suc fuel) bytes offset =
    if ltb offset (length bytes)
    then (do
      parsed ← DirEntry.parse bytes offset
      elim parsed [
        | none ↦ ok []
        | some (entry, next) ↦ do entries ← dirblock_loop fuel bytes next; ok (entry ∷ entries)
      ])
    else ok []

unfoldable pub parse_dirblock_entries : List ℕ → Result (List DirEntry)
unfolding dirblock_loop
parse_dirblock_entries bytes = dirblock_loop (suc (length bytes)) bytes dir_block_header_size
