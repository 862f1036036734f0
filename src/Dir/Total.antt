-- ===== src/Dir/Total.antt =====
-- About `parse_dirblock_entries` of crates/libpfs3/src/dir.rs: its loop and its fuel.
use pfs.Prelude.{
  ℕ, zero, suc, ◌+◌, ◌-◌, ◌*◌, ◌≤◌, ◌<◌, List, [], ◌∷◌, ltb, length, arith, Option, none, some,
}
use pfs.Error.{ok, ◌>>=◌, Returns, returns, Returns-if, Returns-bind}
use pfs.Ondisk.Constants.{dir_block_header_size}
use pfs.Ondisk.DirEntry.{DirEntry}
use pfs.Ondisk.DirEntry.Bounds.{Advances, parse-Advances}
use pfs.Dir.Block.{dirblock_loop, parse_dirblock_entries}

-- Each entry takes at least 18 bytes.
abbrev FitsIn : ℕ → List DirEntry → Type 0
FitsIn room entries = length entries * 18 ≤ room

step-Returns :
    (fuel : ℕ) (bytes : List ℕ) (offset : ℕ)
    → ((next : ℕ)
        → offset + 18 ≤ next
        → next ≤ length bytes
        → Returns (FitsIn (length bytes - next)) (dirblock_loop fuel bytes next))
    → Returns (FitsIn (length bytes - offset)) (dirblock_loop (suc fuel) bytes offset)
unfolding dirblock_loop
step-Returns fuel bytes offset ih =
    Returns-if (ltb offset (length bytes))
      (λ inside. Returns-bind (parse-Advances bytes offset) (λ parsed adv. rest parsed adv))
      (λ _. returns [] (omega arith))
  where
    rest :
        (parsed : Option (DirEntry × ℕ))
        → Advances bytes offset parsed
        → Returns (FitsIn (length bytes - offset)) (elim parsed [
          | none ↦ ok []
          | some (entry, next) ↦ dirblock_loop fuel bytes next >>= λ entries. ok (entry ∷ entries)
        ])
    rest none adv = returns [] (omega arith)
    rest (some (entry, next)) adv =
        Returns-bind (ih next adv.0 adv.1) (λ entries fits. returns (entry ∷ entries) (omega arith))

dirblock_loop-Returns :
    (fuel : ℕ) (bytes : List ℕ) (offset : ℕ)
    → length bytes < fuel + offset
    → 0 < fuel
    → Returns (FitsIn (length bytes - offset)) (dirblock_loop fuel bytes offset)
dirblock_loop-Returns zero bytes offset enough pos = elim pos [ ]
dirblock_loop-Returns (suc zero) bytes offset enough pos =
    step-Returns zero bytes offset (λ next lo hi. absurd (omega arith))
dirblock_loop-Returns (suc (suc fuel)) bytes offset enough pos =
    step-Returns (suc fuel) bytes offset
      (λ next lo hi. dirblock_loop-Returns (suc fuel) bytes next (omega arith) (omega arith))

-- On any bytes the entries of a directory block are listed: without an error, a panic or a lack of
-- fuel. There are at most as many as entries of 18 bytes fit behind the header.
pub parse_dirblock_entries-Returns :
    (bytes : List ℕ)
    → Returns
        (λ entries. length entries * 18 ≤ length bytes - dir_block_header_size)
        (parse_dirblock_entries bytes)
unfolding parse_dirblock_entries
parse_dirblock_entries-Returns bytes =
    dirblock_loop-Returns (suc (length bytes)) bytes dir_block_header_size (omega arith)
      (omega arith)
