-- ===== src/Writer/DeldirBytes.antt =====
-- Slots in the bytes of a block of the trash directory: `write_deldir_entry`, and the search for a
-- free slot of `move_to_deldir`.
use pfs.Prelude.{
  ℕ, zero, suc, ◌+◌, ◌*◌, ◌/◌, ◌%◌, ◌^◌, List, ltb, ◌==◌, if◌then◌else◌, length, min, take, Option,
  none, some,
}
use pfs.Error.{Result, ok, ◌>>=◌}
use pfs.Bytes.{copy_from_slice, zeros, u32_at, put_u16, put_u32}
use pfs.Util.Names.{as_bytes}
use pfs.Ondisk.Constants.{deldir_header_size, deldir_entry_size}
use pfs.Ondisk.DirEntry.{DirEntry, file_size}

unfoldable pub put_deldir_entry : List ℕ → ℕ → DirEntry → Result (List ℕ)
unfolding put_u32 put_u16 as_bytes file_size
put_deldir_entry block off entry = do
  b ← put_u32 block off entry.anode
  b ← put_u32 b (off + 4) (file_size entry % 2 ^ 32)
  b ← put_u16 b (off + 8) entry.creation_day
  b ← put_u16 b (off + 10) entry.creation_minute
  b ← put_u16 b (off + 12) entry.creation_tick
  let name_bytes = as_bytes entry.name
  b ← copy_from_slice b (off + 14) (zeros 16)
  b ← copy_from_slice b (off + 14) (take (min (length name_bytes) 16) name_bytes)
  put_u16 b (off + 30) (file_size entry / 2 ^ 32 % 2 ^ 16)

-- The offset of the first slot with no anode, from slot `i` on, among `n`.
unfoldable pub free_slot : List ℕ → ℕ → ℕ → Result (Option ℕ)
unfolding u32_at
free_slot bytes i zero = ok none
free_slot bytes i (suc n) =
    let off = deldir_header_size + i * deldir_entry_size in
    if ltb (length bytes) (off + deldir_entry_size) then ok none else do
      anode ← u32_at bytes off
      if anode == 0 then ok (some off) else free_slot bytes (i + 1) n
