-- ===== src/Ondisk/DirEntry.antt =====
-- crates/libpfs3/src/ondisk/direntry.rs: directory entries of variable length.
pub mod Bounds
use pfs.Prelude.{
  ℕ, ◌+◌, ◌*◌, ◌%◌, ◌^◌, List, Bool, ◌&&◌, ◌||◌, not, Option, none, some, bit_and, bit_or, ltb, leb,
  ◌==◌, if◌then◌else◌, length, min, [],
}
use pfs.Error.{Str, Result, ok, ◌>>=◌}
use pfs.Bytes.{index, slice, from_be, u16_at, u32_at}
use pfs.Util.Names.{latin1_to_string}
use pfs.Ondisk.Constants.{st_rolloverfile, st_userdir, st_softlink, st_linkdir, st_linkfile}

pub record ExtraFields : Type 0 where
  pub link : ℕ
  pub uid : ℕ
  pub gid : ℕ
  pub prot : ℕ
  pub virtualsize : ℕ
  pub rollpointer : ℕ
  pub fsizex : ℕ

abbrev pub no_extra : ExtraFields
no_extra = record {
  link = 0;
  uid = 0;
  gid = 0;
  prot = 0;
  virtualsize = 0;
  rollpointer = 0;
  fsizex = 0;
}

pub record DirEntry : Type 0 where
  pub entry_size : ℕ
  pub entry_type : ℕ
  pub anode : ℕ
  pub fsize : ℕ
  pub creation_day : ℕ
  pub creation_minute : ℕ
  pub creation_tick : ℕ
  pub protection : ℕ
  pub name : Str
  pub comment : Str
  pub extra : ExtraFields

-- One optional field of `width` bytes at `pos`: its value, 0 if absent, and the position after it.
unfoldable pub extra_field : List ℕ → ℕ → ℕ → ℕ → ℕ → Result (ℕ × ℕ)
unfolding from_be
extra_field raw flags mask width pos =
    if not (bit_and flags mask == 0) && leb (pos + width) (length raw)
    then (do bytes ← slice raw pos (pos + width); ok (from_be bytes, pos + width))
    else ok (0, pos)

-- The seven fields from the flags on.
unfoldable pub extra_from : List ℕ → ℕ → Result ExtraFields
unfolding extra_field u16_at
extra_from raw field_start = do
  flags ← u16_at raw field_start
  (link, pos) ← extra_field raw flags 0x0001 4 (field_start + 2)
  (uid, pos) ← extra_field raw flags 0x0002 2 pos
  (gid, pos) ← extra_field raw flags 0x0004 2 pos
  (prot, pos) ← extra_field raw flags 0x0008 4 pos
  (virtualsize, pos) ← extra_field raw flags 0x0010 4 pos
  (rollpointer, pos) ← extra_field raw flags 0x0020 4 pos
  (fsizex, pos) ← extra_field raw flags 0x0040 2 pos
  ok (record {
    link = link;
    uid = uid;
    gid = gid;
    prot = prot;
    virtualsize = virtualsize;
    rollpointer = rollpointer;
    fsizex = fsizex;
  })

-- Fields start at an even offset.
abbrev pub round_up_even : ℕ → ℕ
round_up_even n = if bit_and n 1 == 0 then n else n + 1

unfoldable pub parse_extrafields : List ℕ → ℕ → Result ExtraFields
unfolding extra_from
parse_extrafields raw nlength =
    let name_end = 18 + nlength in
    if leb (length raw) name_end then ok no_extra else do
      clen ← index raw name_end
      let field_start = round_up_even (name_end + 1 + clen)
      if ltb (length raw) (field_start + 2) then ok no_extra else extra_from raw field_start

unfoldable pub parse_comment : List ℕ → ℕ → Result Str
unfolding latin1_to_string
parse_comment raw comment_off =
    if ltb comment_off (length raw)
    then (do
      clen ← index raw comment_off
      let cstart = comment_off + 1
      if leb (cstart + clen) (length raw)
          then (do bytes ← slice raw cstart (cstart + clen); ok (latin1_to_string bytes))
          else ok [])
    else ok []

-- The entry whose bytes are `raw`, at least 18 of them.
unfoldable pub parse_raw : List ℕ → Result DirEntry
unfolding u16_at u32_at parse_comment parse_extrafields latin1_to_string
parse_raw raw = do
  entry_size ← index raw 0
  entry_type ← index raw 1
  anode ← u32_at raw 2
  fsize ← u32_at raw 6
  creation_day ← u16_at raw 10
  creation_minute ← u16_at raw 12
  creation_tick ← u16_at raw 14
  protection ← index raw 16
  nlength ← index raw 17
  let name_end = min (18 + nlength) (length raw)
  name ← slice raw 18 name_end
  comment ← parse_comment raw (18 + nlength)
  extra ← parse_extrafields raw nlength
  ok (record {
    entry_size = entry_size;
    entry_type = entry_type;
    anode = anode;
    fsize = fsize;
    creation_day = creation_day;
    creation_minute = creation_minute;
    creation_tick = creation_tick;
    protection = protection;
    name = latin1_to_string name;
    comment = comment;
    extra = extra;
  })

-- The entry at `offset` and the offset of the next, or `none` at the end or at an invalid entry.
unfoldable pub parse : List ℕ → ℕ → Result (Option (DirEntry × ℕ))
unfolding parse_raw
parse buf offset = if leb (length buf) offset then ok none else do
  entry_size ← index buf offset
  if entry_size == 0
      then ok none
      else if ltb (length buf) (offset + entry_size) || ltb entry_size 18
      then ok none
      else (do
        raw ← slice buf offset (offset + entry_size)
        entry ← parse_raw raw
        ok (some (entry, offset + entry_size)))

-- A negative type that is not a rollover file.
unfoldable pub is_file : DirEntry → Bool
is_file e = leb 128 e.entry_type && not (e.entry_type == st_rolloverfile)

unfoldable pub is_rollover : DirEntry → Bool
is_rollover e = e.entry_type == st_rolloverfile

unfoldable pub is_dir : DirEntry → Bool
is_dir e = e.entry_type == st_userdir

unfoldable pub is_softlink : DirEntry → Bool
is_softlink e = e.entry_type == st_softlink

unfoldable pub is_hardlink : DirEntry → Bool
is_hardlink e = e.entry_type == st_linkdir || e.entry_type == st_linkfile

unfoldable pub file_size : DirEntry → ℕ
file_size e = bit_or e.fsize (e.extra.fsizex * 2 ^ 32)
