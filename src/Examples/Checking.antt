-- ===== src/Examples/Checking.antt =====
-- The theorem on the consistency check at a concrete input, and runs.
use pfs.Prelude.{ℕ, List, [], ◌∷◌, ◌++◌, ◌≡◌, ◌↔◌, refl, arith, contains, range}
use pfs.Error.{chars, panic}
use pfs.Exec.{for_each}
use pfs.Bytes.{zeros}
use pfs.Cache.{new_cache}
use pfs.Volume.{Volume}
use pfs.Check.Context.{CheckCtx, new_ctx, record_blocks}
use pfs.Check.Scan.{scan_dir}
use pfs.Check.Claims.{AllOnce, AllUnowned, record_blocks-clean_iff}
use pfs.Examples.Data.{memory}
use pfs.Examples.Mounting.{tree_volume}

-- The blocks 100 and 101 have an owner.
abbrev some_owned : CheckCtx
some_owned = record new_ctx { used_blocks = (100, chars "/a") ∷ (101, chars "/a") ∷ [] }

record_blocks_example :
    ((record_blocks (chars "/b") (102 ∷ 103 ∷ []) some_owned).errors ≡ some_owned.errors)
    ↔ (AllOnce (102 ∷ 103 ∷ []) × AllUnowned some_owned.used_blocks (102 ∷ 103 ∷ []))
record_blocks_example =
    record_blocks-clean_iff (chars "/b") (102 ∷ 103 ∷ []) some_owned (omega arith)

-- One block twice, and one that has an owner.
record_blocks_run : (record_blocks (chars "/b") (102 ∷ 102 ∷ 101 ∷ []) some_owned).errors ≡ 2
unfolding record_blocks
record_blocks_run = refl

-- The one entry of the directory has an anode that is nowhere on the disk.
scan_dir_run :
    (scan_dir memory 3 1 (b'/' ∷ []) (record { vol = tree_volume; ctx = new_ctx })).1.ctx
    ≡ record new_ctx { errors = 1; files = 1; broken_files = (1, b'a' ∷ []) ∷ [] }
unfolding scan_dir contains range for_each
scan_dir_run = refl

-- A directory that has itself as an entry without a name.
abbrev endless_volume : Volume (List ℕ)
endless_volume = record tree_volume {
  env = record {
    dev =
        zeros 36
        ++ 0 ∷ 0 ∷ 0 ∷ 3 ∷ zeros 20
        ++ 0x41 ∷ 0x42 ∷ zeros 14
        ++ 0 ∷ 0 ∷ 0 ∷ 1 ∷ 0 ∷ 0 ∷ 0 ∷ 5 ∷ zeros 16
        ++ 0x44 ∷ 0x42 ∷ zeros 18
        ++ 20 ∷ 2 ∷ 0 ∷ 0 ∷ 0 ∷ 1 ∷ zeros 14;
    cache = new_cache;
  };
}

-- Below the root such a path does not grow, so that the bound on it does not stop the recursion.
endless_run :
    (scan_dir memory 4 1 (b'/' ∷ []) (record { vol = endless_volume; ctx = new_ctx })).0 ≡ panic
unfolding scan_dir contains range for_each
endless_run = refl
