-- ===== src/Volume/Reads.antt =====
-- The loops of crates/libpfs3/src/volume.rs that only read: file data over the blocks of a chain, and
-- the slots of a block of the trash directory.
use pfs.Prelude.{
  ℕ, zero, suc, ◌+◌, ◌-◌, ◌*◌, List, [], ◌∷◌, ◌++◌, ltb, leb, ◌==◌, if◌then◌else◌, length, min,
  Option, none, some, range,
}
use pfs.Error.{Result, ok, ◌>>=◌}
use pfs.Bytes.{slice}
use pfs.Io.{BlockDevice}
use pfs.Dir.{extent_blocks}
use pfs.Ondisk.Anode.{Anode}
use pfs.Ondisk.Constants.{deldir_header_size, deldir_entry_size}
use pfs.Ondisk.DelDir
use pfs.Ondisk.DelDir.{DelDirEntry}

-- The blocks of all extents of a chain, in order, as u64.
unfoldable pub chain_blocks : List Anode → List ℕ
unfolding range
chain_blocks [] = []
chain_blocks (an ∷ chain) = extent_blocks an ++ chain_blocks chain

module _ {D : Type 0} (device : BlockDevice D) (dev : D) where
  open device use {read_block, block_size}

  -- The loops of `read_file_data`: `block_buf` is filled anew by each read, and nothing is read
  -- once nothing remains.
  unfoldable pub read_data_loop : List ℕ → List ℕ → ℕ → Result (List ℕ)
  read_data_loop [] block_buf remaining = ok []
  read_data_loop (blk ∷ blks) block_buf remaining = if remaining == 0 then ok [] else do
    buf ← read_block dev blk block_buf
    let chunk = min remaining (block_size dev)
    piece ← slice buf 0 chunk
    rest ← read_data_loop blks buf (remaining - chunk)
    ok (piece ++ rest)

  -- The inner loop of `read_file_range`: the blocks `i`, `i + 1`, … of an extent at byte
  -- `block_pos` of the file. The buffer comes back beside the bytes.
  unfoldable pub extent_loop : ℕ → ℕ → ℕ → ℕ → ℕ → ℕ → List ℕ → Result (List ℕ × List ℕ)
  extent_loop offset end blocknr block_pos i zero block_buf = ok ([], block_buf)
  extent_loop offset end blocknr block_pos i (suc n) block_buf =
      let bs = block_size dev in
      let blk_start = block_pos + i * bs in
      let blk_end = blk_start + bs in
      let skipped = extent_loop offset end blocknr block_pos (i + 1) n block_buf in
      if leb blk_end offset then skipped else if leb end blk_start then ok ([], block_buf) else do
        buf ← read_block dev (blocknr + i) block_buf
        let slice_start = if ltb blk_start offset then offset - blk_start else 0
        let slice_end = if ltb end blk_end then end - blk_start else bs
        piece ← slice buf slice_start slice_end
        (rest, buf') ← extent_loop offset end blocknr block_pos (i + 1) n buf
        ok (piece ++ rest, buf')

  -- The outer loop of `read_file_range`.
  unfoldable pub range_loop : ℕ → ℕ → List Anode → ℕ → List ℕ → Result (List ℕ)
  unfolding extent_loop
  range_loop offset end [] block_pos block_buf = ok []
  range_loop offset end (an ∷ chain) block_pos block_buf =
      let extent_end = block_pos + an.clustersize * block_size dev in
      let skipped = range_loop offset end chain extent_end block_buf in
      if leb extent_end offset then skipped else if leb end block_pos then ok [] else do
        (piece, buf) ← extent_loop offset end an.blocknr block_pos 0 an.clustersize block_buf
        rest ← range_loop offset end chain extent_end buf
        ok (piece ++ rest)

abbrev cons_some : Option DelDirEntry → List DelDirEntry → List DelDirEntry
cons_some none es = es
cons_some (some e) es = e ∷ es

-- The entries in `n` slots of a block of the trash directory, from slot `i` on.
unfoldable pub deldir_slots : List ℕ → ℕ → ℕ → Result (List DelDirEntry)
unfolding DelDir.parse
deldir_slots bytes i zero = ok []
deldir_slots bytes i (suc n) =
    let off = deldir_header_size + i * deldir_entry_size in
    let rest = deldir_slots bytes (i + 1) n in
    if leb (off + deldir_entry_size) (length bytes)
    then (do
      raw ← slice bytes off (off + deldir_entry_size)
      entry ← DelDir.parse raw
      entries ← rest
      ok (cons_some entry entries))
    else rest
