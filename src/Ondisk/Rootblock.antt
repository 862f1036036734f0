-- ===== src/Ondisk/Rootblock.antt =====
-- crates/libpfs3/src/ondisk/rootblock.rs: the rootblock and its extension.
use pfs.Prelude.{
  ℕ, ◌+◌, ◌-◌, ◌*◌, ◌/◌, List, [], ◌∷◌, ◌++◌, Bool, ◌&&◌, not, bit_and, ltb, ◌==◌, if◌then◌else◌,
  length, min, contains,
}
use pfs.Error.{Str, chars, Result, ok, err, too_short, bad_magic, bad_block_id, ◌>>=◌}
use pfs.Bytes.{index, slice, u16_at, u32_at, read_u16, read_u32, u32_words}
use pfs.Util.Names.{latin1_to_string}
use pfs.Ondisk.Constants.{
  pfs_types, anode_block_header_size, anode_size, extensionid, maxbitmapindex, maxsmallbitmapindex,
  maxsmallindexnr, maxsuper, mode_superindex, mode_extension, mode_longfn, mode_largefile,
  mode_splitted_anodes, mode_harddisk, mode_dir_extension, mode_deldir, mode_sizefield,
  mode_datestamp, mode_extroving, rb_off_diskname, rb_off_lastreserved, rb_off_index_union,
}

pub record Rootblock : Type 0 where
  pub disktype : ℕ
  pub options : ℕ
  pub datestamp : ℕ
  pub creation_day : ℕ
  pub creation_minute : ℕ
  pub creation_tick : ℕ
  pub protection : ℕ
  pub diskname : Str
  pub lastreserved : ℕ
  pub firstreserved : ℕ
  pub reserved_free : ℕ
  pub reserved_blksize : ℕ
  pub rblkcluster : ℕ
  pub blocksfree : ℕ
  pub alwaysfree : ℕ
  pub roving_ptr : ℕ
  pub deldir : ℕ
  pub disksize : ℕ
  pub extension : ℕ
  pub bitmapindex : List ℕ
  pub indexblocks : List ℕ

-- The bitmap index and, on a small disk, the anode index.
abbrev pub parse_indices : List ℕ → Bool → Result (List ℕ × List ℕ)
parse_indices buf is_large =
    if is_large
    then (do
      bitmapindex ← u32_words buf rb_off_index_union (maxbitmapindex + 1)
      ok (bitmapindex, []))
    else do
      bitmapindex ← u32_words buf rb_off_index_union (maxsmallbitmapindex + 1)
      let idx_start = rb_off_index_union + (maxsmallbitmapindex + 1) * 4
      indexblocks ← u32_words buf idx_start (maxsmallindexnr + 1)
      ok (bitmapindex, indexblocks)

unfoldable pub parse : List ℕ → Result Rootblock
unfolding u16_at u32_at u32_words latin1_to_string
parse buf = if ltb (length buf) rb_off_index_union then err (too_short "rootblock") else do
  disktype ← read_u32 buf 0
  if not (contains pfs_types disktype) then err (bad_magic "rootblock" disktype) else do
    options ← read_u32 buf 4
    datestamp ← read_u32 buf 8
    creation_day ← read_u16 buf 12
    creation_minute ← read_u16 buf 14
    creation_tick ← read_u16 buf 16
    protection ← read_u16 buf 18
    namelen ← index buf rb_off_diskname
    name ← slice buf (rb_off_diskname + 1) (rb_off_diskname + 1 + min namelen 31)
    lastreserved ← read_u32 buf rb_off_lastreserved
    firstreserved ← read_u32 buf (rb_off_lastreserved + 4)
    reserved_free ← read_u32 buf (rb_off_lastreserved + 8)
    reserved_blksize ← read_u16 buf (rb_off_lastreserved + 12)
    rblkcluster ← read_u16 buf (rb_off_lastreserved + 14)
    blocksfree ← read_u32 buf (rb_off_lastreserved + 16)
    alwaysfree ← read_u32 buf (rb_off_lastreserved + 20)
    roving_ptr ← read_u32 buf (rb_off_lastreserved + 24)
    deldir ← read_u32 buf (rb_off_lastreserved + 28)
    disksize ← read_u32 buf (rb_off_lastreserved + 32)
    extension ← read_u32 buf (rb_off_lastreserved + 36)
    (bitmapindex, indexblocks) ← parse_indices buf (not (bit_and options mode_superindex == 0))
    ok (record {
      disktype = disktype;
      options = options;
      datestamp = datestamp;
      creation_day = creation_day;
      creation_minute = creation_minute;
      creation_tick = creation_tick;
      protection = protection;
      diskname = latin1_to_string name;
      lastreserved = lastreserved;
      firstreserved = firstreserved;
      reserved_free = reserved_free;
      reserved_blksize = reserved_blksize;
      rblkcluster = rblkcluster;
      blocksfree = blocksfree;
      alwaysfree = alwaysfree;
      roving_ptr = roving_ptr;
      deldir = deldir;
      disksize = disksize;
      extension = extension;
      bitmapindex = bitmapindex;
      indexblocks = indexblocks;
    })

unfoldable pub has_flag : Rootblock → ℕ → Bool
has_flag rb flag = not (bit_and rb.options flag == 0)

-- Here `-` is `saturating_sub`, in both.
unfoldable pub index_per_block : Rootblock → ℕ
index_per_block rb = rb.reserved_blksize / 4 - 3

unfoldable pub anodes_per_block : Rootblock → ℕ
anodes_per_block rb = (rb.reserved_blksize - anode_block_header_size) / anode_size

unfoldable pub is_large : Rootblock → Bool
unfolding has_flag
is_large rb = has_flag rb mode_superindex

unfoldable pub has_extension : Rootblock → Bool
unfolding has_flag
has_extension rb = has_flag rb mode_extension && not (rb.extension == 0)

unfoldable pub has_longfn : Rootblock → Bool
unfolding has_flag
has_longfn rb = has_flag rb mode_longfn

unfoldable pub has_largefile : Rootblock → Bool
unfolding has_flag
has_largefile rb = has_flag rb mode_largefile

unfoldable pub is_splitted_anodes : Rootblock → Bool
unfolding has_flag
is_splitted_anodes rb = has_flag rb mode_splitted_anodes

abbrev flag_names : List (ℕ × Str)
flag_names =
    (mode_harddisk, chars "HARDDISK")
    ∷ (mode_splitted_anodes, chars "SPLITTED_ANODES")
    ∷ (mode_dir_extension, chars "DIR_EXTENSION")
    ∷ (mode_deldir, chars "DELDIR")
    ∷ (mode_sizefield, chars "SIZEFIELD")
    ∷ (mode_extension, chars "EXTENSION")
    ∷ (mode_datestamp, chars "DATESTAMP")
    ∷ (mode_superindex, chars "SUPERINDEX")
    ∷ (256, chars "SUPERDELDIR")
    ∷ (mode_extroving, chars "EXTROVING")
    ∷ (mode_longfn, chars "LONGFN")
    ∷ (mode_largefile, chars "LARGEFILE")
    ∷ []

-- The names of the options that are set.
abbrev set_names : ℕ → List (ℕ × Str) → List Str
set_names options [] = []
set_names options ((f, n) ∷ names) =
    let rest = set_names options names in if bit_and options f == 0 then rest else n ∷ rest

-- `join(" | ")`
abbrev join_bars : List Str → Str
join_bars [] = []
join_bars (n ∷ []) = n
join_bars (n ∷ m ∷ names) = n ++ chars " | " ++ join_bars (m ∷ names)

unfoldable pub flags_string : Rootblock → Str
flags_string rb = join_bars (set_names rb.options flag_names)

pub record RootblockExt : Type 0 where
  pub id : ℕ
  pub ext_options : ℕ
  pub datestamp : ℕ
  pub pfs2version : ℕ
  pub root_date : ℕ × ℕ × ℕ
  pub volume_date : ℕ × ℕ × ℕ
  pub reserved_roving : ℕ
  pub fnsize : ℕ
  pub superindex : List ℕ
  pub deldirblocks : List ℕ

unfoldable pub parse_ext : List ℕ → Result RootblockExt
unfolding u16_at u32_at u32_words
parse_ext buf = if ltb (length buf) 0x40 then err (too_short "rootblock extension") else do
  id ← u16_at buf 0
  if not (id == extensionid) then err (bad_block_id "rootblock extension" extensionid id) else do
    ext_options ← read_u32 buf 0x04
    datestamp ← read_u32 buf 0x08
    pfs2version ← read_u32 buf 0x0C
    rday ← read_u16 buf 0x10
    rmin ← read_u16 buf 0x12
    rtick ← read_u16 buf 0x14
    vday ← read_u16 buf 0x16
    vmin ← read_u16 buf 0x18
    vtick ← read_u16 buf 0x1A
    reserved_roving ← u32_at buf 0x2C
    fnsize ← u16_at buf 0x38
    superindex ← u32_words buf 0x40 (maxsuper + 1)
    deldirblocks ← u32_words buf 0x90 32
    ok (record {
      id = id;
      ext_options = ext_options;
      datestamp = datestamp;
      pfs2version = pfs2version;
      root_date = (rday, rmin, rtick);
      volume_date = (vday, vmin, vtick);
      reserved_roving = reserved_roving;
      fnsize = if fnsize == 0 then 32 else fnsize;
      superindex = superindex;
      deldirblocks = deldirblocks;
    })
