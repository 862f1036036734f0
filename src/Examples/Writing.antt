-- ===== src/Examples/Writing.antt =====
-- The writer's theorems at concrete inputs.
use pfs.Prelude.{
  ℕ, ◌+◌, ◌%◌, inr, ◌++◌, range, msb, word_bit, bit_at, ◌≤◌, ◌≢◌, [], ◌∷◌, ◌≡◌, refl, arith, some,
  true, List, none,
}
use pfs.Error.{ok, Returns, chars}
use pfs.Exec.{Ensures}
use pfs.Bytes.{zeros}
use pfs.Io.FileDevice.{FileBlockDevice, create, write_blocks}
use pfs.Io.FileDevice.Laws.{StoresBlocks, write_blocks-Stores}
use pfs.Ondisk.Constants.{dir_block_header_size}
use pfs.Writer.EntryBytes.{build_dir_entry, cut_entry, find_in_block, entries_end}
use pfs.Writer.EntryBytes.Cut.{cut_entry-moves}
use pfs.Writer.EntryBytes.Fuel.{Finds, Ends, entry_loops-end}
use pfs.Writer.Bitmaps.Reserve.{Reserves, alloc_reserved_block-Reserves}
use pfs.Writer.Bitmaps.Free.{OneFreed, free_data_block-OneFreed}
use pfs.Writer.EntryBytes.RoundTrip.{ReadsBack, build_dir_entry-ReadsBack}
use pfs.Writer.Bitmaps.{alloc_data_blocks, alloc_reserved_block, free_data_block}
use pfs.Writer.Bitmaps.Laws.{Allocated, alloc_data_blocks-Allocated}
use pfs.Writer.Pending.{read_reserved_raw}
use pfs.Writer.Pending.Laws.{IsUnique, after, write_reserved-Stores}
use pfs.Writer.AnodeBytes.{put_stamped_anode}
use pfs.Writer.AnodeBytes.Laws.{HoldsAnode, put_stamped_anode-Holds}
use pfs.Writer.Scan.{take_first, scan_words}
use pfs.Writer.Scan.Laws.{ones}
use pfs.Writer.Scan.Accounts.{Accounts, scan_words-Accounts}
use pfs.Writer.Clusters.{clusters}
use pfs.Writer.Clusters.Laws.{expand, expand-clusters}
use pfs.Format.Reserved.{ReservedAllocator, alloc}
use pfs.Format.Reserved.Laws.{Allocates, alloc-Allocates}
use pfs.Format.Sizes.{calc_num_reserved, maxnumreserved}
use pfs.Format.Sizes.Laws.{calc_num_reserved_bounds}
use pfs.Examples.Data.{memory, small_writer}

build_dir_entry_example :
    Returns
      (ReadsBack 252_460_800 (chars "Readme") 0xFD 21 5_000_000_000 0)
      (build_dir_entry 252_460_800 (chars "Readme") 0xFD 21 5_000_000_000 0)
build_dir_entry_example =
    build_dir_entry-ReadsBack 252_460_800 (chars "Readme") 0xFD 21 5_000_000_000 0 (ground arith)
      (omega arith) (omega arith) (omega arith)

alloc_data_blocks_example :
    Ensures (Allocated memory small_writer 4) (alloc_data_blocks memory 4 small_writer)
alloc_data_blocks_example = alloc_data_blocks-Allocated memory small_writer 4 (omega arith)

-- The run of the example: four of the five free blocks.
alloc_data_blocks_run : (alloc_data_blocks memory 4 small_writer).0 ≡ ok (3 ∷ 5 ∷ 6 ∷ 35 ∷ [])
unfolding alloc_data_blocks range msb
alloc_data_blocks_run = refl

write_reserved_example :
    (read_reserved_raw memory 1 (after memory small_writer 1 (9 ∷ []))
      ≡ (ok (9 ∷ []), after memory small_writer 1 (9 ∷ [])))
    × ((other : ℕ)
        → other ≢ 1
        → (read_reserved_raw memory other (after memory small_writer 1 (9 ∷ []))).0
          ≡ (read_reserved_raw memory other small_writer).0)
    × IsUnique (after memory small_writer 1 (9 ∷ [])).pending_writes
write_reserved_example = write_reserved-Stores memory small_writer 1 (9 ∷ []) (λ blk. omega arith)

put_stamped_anode_example :
    Returns (HoldsAnode (zeros 64) 2 3 1000 0) (put_stamped_anode (zeros 64) 2 3 1000 0 17)
put_stamped_anode_example =
    put_stamped_anode-Holds (zeros 64) 2 3 1000 0 17 (omega arith) (omega arith) (omega arith)
      (omega arith)

take_first_run : take_first 0 (0 ∷ 0x5000_0000 ∷ []) ≡ some (33, 0 ∷ 0x1000_0000 ∷ [])
unfolding take_first msb
take_first_run = refl

scan_words_example :
    Accounts ones 40 3
      (0xB000_0000 ∷ [])
      (scan_words (λ li bit. some (li + bit)) 40 0 3 (0xB000_0000 ∷ []))
scan_words_example =
    scan_words-Accounts 40 (λ li bit. some (li + bit)) 0 3 (0xB000_0000 ∷ []) (omega arith)

expand-clusters_example : expand (clusters (7 ∷ 8 ∷ 9 ∷ 3 ∷ [])) ≡ 7 ∷ 8 ∷ 9 ∷ 3 ∷ []
expand-clusters_example = expand-clusters (7 ∷ 8 ∷ 9 ∷ 3 ∷ [])

clusters_run : clusters (7 ∷ 8 ∷ 9 ∷ 3 ∷ []) ≡ (7, 3) ∷ (3, 1) ∷ []
unfolding clusters
clusters_run = refl

abbrev three_blocks : ReservedAllocator
three_blocks = record { bitmap = true ∷ true ∷ true ∷ []; numreserved = 3; roving = 2 }

alloc_example : Allocates three_blocks (alloc three_blocks)
alloc_example =
    alloc-Allocates three_blocks
      (record { sized = refl; nonempty = omega arith; roved = omega arith })

calc_num_reserved_example :
    (32 ≤ calc_num_reserved 100_000 1024)
    × (calc_num_reserved 100_000 1024 ≤ maxnumreserved + 31)
    × (calc_num_reserved 100_000 1024 % 32 ≡ 0)
calc_num_reserved_example = calc_num_reserved_bounds 100_000 1024

free_data_block_example :
    Ensures (λ _. OneFreed small_writer) (free_data_block memory 4 small_writer)
unfolding word_bit bit_at
free_data_block_example =
    free_data_block-OneFreed memory 4 2 0xB000_0000 (0xB000_0000 ∷ 0xC000_0000 ∷ []) small_writer
      (record { above = omega arith; some_words = omega arith; block_at = refl; word_at = refl })
      refl

free_data_block_run : (free_data_block memory 4 small_writer).1.vol.rootblock.blocksfree ≡ 6
unfolding free_data_block msb
free_data_block_run = refl

-- A directory block of 64 bytes with an entry `b` of 22 bytes.
abbrev one_entry : List ℕ
one_entry = zeros 20 ++ (22 ∷ zeros 16) ++ (1 ∷ 98 ∷ 0 ∷ 0 ∷ 0 ∷ []) ++ zeros 22

entry_loops-end_example :
    Finds one_entry 64 (chars "a") dir_block_header_size (find_in_block one_entry 64 (chars "a"))
    × Ends one_entry 64 dir_block_header_size (entries_end one_entry 64)
entry_loops-end_example = entry_loops-end one_entry 64 (chars "a")

entry_loops_run :
    (entries_end one_entry 64 ≡ ok 42)
    × (find_in_block one_entry 64 (chars "b") ≡ ok (some 20))
    × (find_in_block one_entry 64 (chars "a") ≡ ok none)
unfolding entries_end find_in_block
entry_loops_run = (refl, refl, refl)

abbrev small_file : FileBlockDevice
small_file = create 4 8

write_blocks_example :
    StoresBlocks small_file 2 2
      (1 ∷ 2 ∷ 3 ∷ 4 ∷ 5 ∷ 6 ∷ 7 ∷ 8 ∷ [])
      (write_blocks 2 2 (1 ∷ 2 ∷ 3 ∷ 4 ∷ 5 ∷ 6 ∷ 7 ∷ 8 ∷ []) small_file)
unfolding create
write_blocks_example =
    write_blocks-Stores small_file 2 2 (1 ∷ 2 ∷ 3 ∷ 4 ∷ 5 ∷ 6 ∷ 7 ∷ 8 ∷ [])
      (record { writable = refl; in_range = inr (omega arith) }) refl

cut_entry_example :
    cut_entry ((9 ∷ 9 ∷ []) ++ ((3 ∷ 1 ∷ 2 ∷ []) ++ (7 ∷ 8 ∷ []))) 7 2
    ≡ ok (((9 ∷ 9 ∷ []) ++ (7 ∷ 8 ∷ [])) ++ zeros 3)
cut_entry_example =
    cut_entry-moves (9 ∷ 9 ∷ []) (3 ∷ 1 ∷ 2 ∷ []) (7 ∷ 8 ∷ []) 7 (omega arith) refl refl

alloc_reserved_block_example : Reserves small_writer (alloc_reserved_block memory small_writer)
alloc_reserved_block_example = alloc_reserved_block-Reserves memory small_writer
