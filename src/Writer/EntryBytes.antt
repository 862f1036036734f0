-- ===== src/Writer/EntryBytes.antt =====
-- Directory entries as bytes: `build_dir_entry`, and the pure parts of `find_dir_entry`,
-- `add_dir_entry`, `remove_dir_entry` and `update_dir_entry_size`.
pub mod Layout
pub mod Fields
pub mod Fuel
pub mod Parsed
pub mod Cut
pub mod RoundTrip
use pfs.Prelude.{
  ℕ, zero, suc, ◌+◌, ◌-◌, ◌*◌, ◌/◌, ◌%◌, ◌^◌, List, [], ◌∷◌, ◌++◌, Bool, ◌&&◌, not, ltb, leb, ◌==◌,
  if◌then◌else◌, length, min, take, Option, none, some, bit_and, read_at, write_at,
}
use pfs.Error.{Str, Result, ok, err, panic, ◌>>=◌}
use pfs.Bytes.{index, slice, copy_from_slice, set_byte, zeros, u16_at, put_u16, put_u32}
use pfs.Util.Names.{as_bytes, latin1_to_string, name_eq_ci}
use pfs.Util.Dates.{current_amiga_datestamp}
use pfs.Ondisk.Constants.{dir_block_header_size}
use pfs.Ondisk.DirEntry.{round_up_even}

-- The size of an entry with a name of `nlen` bytes; a size above 4 GiB takes two more.
unfoldable pub entry_size : ℕ → Bool → ℕ
entry_size nlen has_fsizex =
    let extra_bytes : ℕ = if has_fsizex then 4 else 2 in round_up_even (18 + nlen + 1 + extra_bytes)

-- The first 18 bytes: all but the name.
unfoldable pub put_entry_head : List ℕ → ℕ → ℕ → ℕ → ℕ → ℕ → ℕ × ℕ × ℕ → Result (List ℕ)
unfolding put_u16 put_u32
put_entry_head entry entry_type anode fsize protection nlen (day, minute, tick) = do
  e ← set_byte entry 0 (length entry % 256)
  e ← set_byte e 1 entry_type
  e ← put_u32 e 2 anode
  e ← put_u32 e 6 (fsize % 2 ^ 32)
  e ← put_u16 e 10 day
  e ← put_u16 e 12 minute
  e ← put_u16 e 14 tick
  e ← set_byte e 16 protection
  set_byte e 17 nlen

-- `now` is the system clock.
unfoldable pub build_dir_entry : ℕ → Str → ℕ → ℕ → ℕ → ℕ → Result (List ℕ)
unfolding as_bytes entry_size put_entry_head current_amiga_datestamp
build_dir_entry now name entry_type anode fsize protection =
    let name_bytes = as_bytes name in
    let nlen = min (length name_bytes) 107 in
    let fsizex = fsize / 2 ^ 32 % 2 ^ 16 in
    let has_fsizex = ltb 0 fsizex in
    let ef_off = round_up_even (18 + nlen + 1) in
    let flags = if has_fsizex then 0x0040 else 0 in
    do
      e ←
          put_entry_head (zeros (entry_size nlen has_fsizex)) entry_type anode fsize protection nlen
            (current_amiga_datestamp now)
      e ← copy_from_slice e 18 (take nlen name_bytes)
      e ← set_byte e (18 + nlen) 0
      e ← put_u16 e ef_off flags
      if has_fsizex then put_u16 e (ef_off + 2) fsizex else ok e

-- The loop of `find_dir_entry` in one block, on fuel, without which it is `panic`: every round that
-- goes on passes at least one byte.
unfoldable pub find_entry_loop : ℕ → List ℕ → ℕ → Str → ℕ → Result (Option ℕ)
unfolding latin1_to_string name_eq_ci
find_entry_loop zero bytes resblocksize name pos = panic
find_entry_loop (suc fuel) bytes resblocksize name pos =
    if ltb pos resblocksize
    then (do
      esize ← index bytes pos
      if esize == 0 then ok none else do
        nlen ← index bytes (pos + 17)
        ename ← slice bytes (pos + 18) (pos + 18 + nlen)
        if name_eq_ci (latin1_to_string ename) name
            then ok (some pos)
            else find_entry_loop fuel bytes resblocksize name (pos + esize))
    else ok none

unfoldable pub find_in_block : List ℕ → ℕ → Str → Result (Option ℕ)
unfolding find_entry_loop
find_in_block bytes resblocksize name =
    find_entry_loop (suc resblocksize) bytes resblocksize name dir_block_header_size

-- The loop of `add_dir_entry` to the end of the entries, on fuel likewise.
unfoldable pub end_loop : ℕ → List ℕ → ℕ → ℕ → Result ℕ
end_loop zero bytes resblocksize pos = panic
end_loop (suc fuel) bytes resblocksize pos =
    if ltb pos resblocksize
    then (do
      esize ← index bytes pos
      if esize == 0 then ok pos else end_loop fuel bytes resblocksize (pos + esize))
    else ok pos

unfoldable pub entries_end : List ℕ → ℕ → Result ℕ
unfolding end_loop
entries_end bytes resblocksize =
    end_loop (suc resblocksize) bytes resblocksize dir_block_header_size

-- The block with an entry added, or `none` if there is no room in it.
unfoldable pub append_entry : List ℕ → ℕ → List ℕ → Result (Option (List ℕ))
unfolding entries_end
append_entry bytes resblocksize entry = do
  pos ← entries_end bytes resblocksize
  if ltb (pos + length entry) resblocksize
      then (do
        b ← copy_from_slice bytes pos entry
        b ← set_byte b (pos + length entry) 0
        ok (some b))
      else ok none

-- The block without the entry at `pos`: what follows moves up, and the end is zeroed.
unfoldable pub cut_entry : List ℕ → ℕ → ℕ → Result (List ℕ)
cut_entry bytes resblocksize pos = do
  esize ← index bytes pos
  let end = pos + esize
  if ltb resblocksize end then panic else do
    let remaining = resblocksize - end
    tail ← slice bytes end (end + remaining)
    b ← copy_from_slice bytes pos tail
    copy_from_slice b (pos + remaining) (zeros esize)

-- One step of the walk over the extra fields: the position behind a field, or `none` if it ends
-- behind the entry.
abbrev pub pass_field : ℕ → ℕ → ℕ → ℕ → Option ℕ → Option ℕ
pass_field flags mask width end none = none
pass_field flags mask width end (some fp) =
    if bit_and flags mask == 0
    then some fp
    else if ltb end (fp + width)
    then none
    else some (fp + width)

-- The position of the seventh field.
unfoldable pub fsizex_pos : ℕ → ℕ → ℕ → Option ℕ
fsizex_pos flags end fp = pass_field flags 0x0020 4 end (
    pass_field flags 0x0010 4 end (
      pass_field flags 0x0008 4 end (
        pass_field flags 0x0004 2 end
          (pass_field flags 0x0002 2 end (pass_field flags 0x0001 4 end (some fp))))))

abbrev pub put_fsizex : List ℕ → ℕ → ℕ → ℕ → Option ℕ → Result (List ℕ)
put_fsizex bytes flags end new_size none = ok bytes
put_fsizex bytes flags end new_size (some fp) =
    if not (bit_and flags 0x0040 == 0) && leb (fp + 2) end
    then put_u16 bytes fp (new_size / 2 ^ 32 % 2 ^ 16)
    else ok bytes

-- Patch the extended size, where the entry at `pos` has the field.
unfoldable pub patch_fsizex : List ℕ → ℕ → ℕ → ℕ → ℕ → Result (List ℕ)
unfolding u16_at put_u16 fsizex_pos
patch_fsizex bytes pos esize nlen new_size =
    let coff = pos + 18 + nlen in
    let end = pos + esize in
    if ltb coff end
    then (do
      clen ← index bytes coff
      let fp = round_up_even (coff + 1 + clen)
      if leb (fp + 2) end
          then (do
            flags ← u16_at bytes fp
            put_fsizex bytes flags end new_size (fsizex_pos flags end (fp + 2)))
          else ok bytes)
    else ok bytes

-- The bytes with a new size and date in the entry at `pos`.
unfoldable pub patch_size : ℕ → List ℕ → ℕ → ℕ → Result (List ℕ)
unfolding put_u32 put_u16 patch_fsizex current_amiga_datestamp
patch_size now bytes pos new_size = do
  esize ← index bytes pos
  nlen ← index bytes (pos + 17)
  b ← put_u32 bytes (pos + 6) (new_size % 2 ^ 32)
  b ← patch_fsizex b pos esize nlen new_size
  let (day, minute, tick) = current_amiga_datestamp now
  b ← put_u16 b (pos + 10) day
  b ← put_u16 b (pos + 12) minute
  put_u16 b (pos + 14) tick
