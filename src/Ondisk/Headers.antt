-- ===== src/Ondisk/Headers.antt =====
-- The block headers of crates/libpfs3/src/ondisk/mod.rs and ondisk/direntry.rs.
use pfs.Prelude.{ℕ, List, ltb, ◌==◌, if◌then◌else◌, length}
use pfs.Error.{Result, ok, err, too_short, bad_block_id, ◌>>=◌}
use pfs.Bytes.{u16_at, u32_at}
use pfs.Ondisk.Constants.{ablkid, bmblkid, dblkid}

-- The headers of anode, index and bitmap blocks have the same three fields.
pub record BlockHeader : Type 0 where
  pub id : ℕ
  pub datestamp : ℕ
  pub seqnr : ℕ

unfoldable pub parse_anode_block : List ℕ → Result BlockHeader
unfolding u16_at u32_at
parse_anode_block buf = if ltb (length buf) 16 then err (too_short "anode block header") else do
  id ← u16_at buf 0
  if id == ablkid
      then (do
        datestamp ← u32_at buf 4
        seqnr ← u32_at buf 8
        ok (record { id = id; datestamp = datestamp; seqnr = seqnr }))
      else err (bad_block_id "anode block" ablkid id)

unfoldable pub parse_index_block : List ℕ → Result BlockHeader
unfolding u16_at u32_at
parse_index_block buf = if ltb (length buf) 12 then err (too_short "index block header") else do
  id ← u16_at buf 0
  datestamp ← u32_at buf 4
  seqnr ← u32_at buf 8
  ok (record { id = id; datestamp = datestamp; seqnr = seqnr })

unfoldable pub parse_bitmap_block : List ℕ → Result BlockHeader
unfolding u16_at u32_at
parse_bitmap_block buf = if ltb (length buf) 12 then err (too_short "bitmap block header") else do
  id ← u16_at buf 0
  if id == bmblkid
      then (do
        datestamp ← u32_at buf 4
        seqnr ← u32_at buf 8
        ok (record { id = id; datestamp = datestamp; seqnr = seqnr }))
      else err (bad_block_id "bitmap block" bmblkid id)

pub record DirBlockHeader : Type 0 where
  pub id : ℕ
  pub datestamp : ℕ
  pub anodenr : ℕ
  pub parent : ℕ

unfoldable pub parse_dir_block : List ℕ → Result DirBlockHeader
unfolding u16_at u32_at
parse_dir_block buf = if ltb (length buf) 0x14 then err (too_short "dir block header") else do
  id ← u16_at buf 0
  if id == dblkid
      then (do
        datestamp ← u32_at buf 4
        anodenr ← u32_at buf 0x0C
        parent ← u32_at buf 0x10
        ok (record { id = id; datestamp = datestamp; anodenr = anodenr; parent = parent }))
      else err (bad_block_id "dir block" dblkid id)
