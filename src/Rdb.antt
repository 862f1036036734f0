-- ===== src/Rdb.antt =====
-- crates/libpfs3/src/rdb.rs: the partitions of a disk image, and the openers of crates/libpfs3/src/volume.rs
-- that search them. An image is the list of its bytes, and a read is short only at its end.
pub mod Laws
use pfs.Prelude.{
  ℕ, zero, suc, ◌+◌, ◌-◌, ◌*◌, ◌%◌, ◌^◌, List, [], ◌∷◌, Bool, true, false, ◌&&◌, ◌||◌, Option, none,
  some, leb, ltb, ◌==◌, if◌then◌else◌, length, min, read_at, get_or, get_elem?, contains, add32,
  sub32,
}
use pfs.Error.{
  unwrap_or, Str, Result, ok, err, panic, io, invalid_partition, not_found, ok_or, ◌>>=◌,
}
use pfs.Bytes.{from_be}
use pfs.Ondisk.Constants.{pfs_types}
use pfs.Util.Names.{latin1_to_string, name_eq_ci}

abbrev pub rdsk_magic : ℕ
rdsk_magic = 0x5244_534B

abbrev pub part_magic : ℕ
part_magic = 0x5041_5254

-- The types in the environment of a partition; those of a rootblock are allowed beside them.
abbrev pub dostypes : List ℕ
dostypes = 0x5046_5301 ∷ 0x5046_5302 ∷ 0x5046_5303 ∷ 0x5044_5301 ∷ 0x5044_5302 ∷ 0x5044_5303 ∷ []

pub record PartitionInfo : Type 0 where
  pub name : Str
  pub offset : ℕ
  pub blocks : ℕ

-- A product of u64.
abbrev pub mul64 : ℕ → ℕ → ℕ
mul64 a b = a * b % 2 ^ 64

-- The 512 bytes of a sector, if the image has all of them.
unfoldable pub sector_at : List ℕ → ℕ → Option (List ℕ)
sector_at image blk =
    if leb (blk * 512 + 512) (length image) then some (read_at image (blk * 512) 512) else none

-- `u32::from_be_bytes` of bytes that a sector has.
unfoldable pub word_of : List ℕ → ℕ → ℕ
unfolding from_be
word_of buf off = from_be (read_at buf off 4)

abbrev pub env_off : ℕ
env_off = 0x80

-- The environment of a partition: surfaces, blocks of a track, and the cylinders.
pub record Environment : Type 0 where
  pub surfaces : ℕ
  pub bpt : ℕ
  pub low_cyl : ℕ
  pub high_cyl : ℕ
  pub dostype : ℕ

unfoldable pub environment : List ℕ → Environment
unfolding word_of
environment buf = record {
  surfaces = word_of buf (env_off + 0x0C);
  bpt = word_of buf (env_off + 0x14);
  low_cyl = word_of buf (env_off + 0x24);
  high_cyl = word_of buf (env_off + 0x28);
  dostype = word_of buf (env_off + 0x40);
}

unfoldable pub partition_name : List ℕ → Str
unfolding latin1_to_string
partition_name buf = latin1_to_string (read_at buf 0x25 (min (get_or buf 0x24 0) 30))

unfoldable pub partition_info : Str → Environment → PartitionInfo
partition_info name e = record {
  name = name;
  offset = mul64 (mul64 (mul64 e.low_cyl e.surfaces) e.bpt) 512;
  blocks = mul64 (mul64 (add32 (sub32 e.high_cyl e.low_cyl) 1) e.surfaces) e.bpt;
}

unfoldable pub is_pfs3_type : ℕ → Bool
unfolding contains
is_pfs3_type t = contains dostypes t || contains pfs_types t

-- The partition that a sector describes, if it does and the type is one of PFS3.
unfoldable pub partition_of : List ℕ → Option PartitionInfo
unfolding word_of environment partition_name partition_info is_pfs3_type
partition_of buf =
    if word_of buf 0 == part_magic && is_pfs3_type (environment buf).dostype
    then some (partition_info (partition_name buf) (environment buf))
    else none

abbrev pub cons_found : Option PartitionInfo → List PartitionInfo → List PartitionInfo
cons_found none parts = parts
cons_found (some p) parts = p ∷ parts

-- A sector that is missing ends the scan.
unfoldable pub after_sector : Option (List ℕ) → List PartitionInfo → List PartitionInfo
unfolding partition_of
after_sector none rest = []
after_sector (some buf) rest = cons_found (partition_of buf) rest

-- The scan of the sectors `blk`, `blk + 1`, …, `n` of them, which ends with the image.
unfoldable pub scan : List ℕ → ℕ → ℕ → List PartitionInfo
unfolding sector_at after_sector
scan image blk zero = []
scan image blk (suc n) = after_sector (sector_at image blk) (scan image (blk + 1) n)

-- The sectors behind the first that are scanned: up to the highest block, and at most 1023.
unfoldable pub scanned : List ℕ → ℕ
unfolding word_of
scanned header = min (word_of header 0x0C) 1023

unfoldable pub detect_pfs3_partitions : List ℕ → Result (List PartitionInfo)
unfolding word_of sector_at scan scanned
detect_pfs3_partitions image = elim (sector_at image 0) [
  | none ↦ err io
  | some header ↦
      if word_of header 0 == rdsk_magic then ok (scan image 1 (scanned header)) else ok []
]

abbrev pub first_offset : List PartitionInfo → Result ℕ
first_offset [] = err (invalid_partition "no PFS3 partition found in RDB image")
first_offset (p ∷ parts) = ok p.offset

unfoldable pub detect_pfs3_partition : List ℕ → Result ℕ
unfolding detect_pfs3_partitions
detect_pfs3_partition image = do parts ← detect_pfs3_partitions image; first_offset parts

-- `parts.iter().find(|p| p.name.eq_ignore_ascii_case(name))`
unfoldable pub find_named : Str → List PartitionInfo → Option PartitionInfo
unfolding name_eq_ci
find_named name [] = none
find_named name (p ∷ parts) = if name_eq_ci p.name name then some p else find_named name parts

-- The digits of a usize behind those that gave `n`.
unfoldable pub digits_value : ℕ → Str → Option ℕ
digits_value n [] = some n
digits_value n (c ∷ s) =
    let m = n * 10 + (c - b'0') in
    let rest = digits_value m s in if leb b'0' c && leb c b'9' && ltb m (2 ^ 64) then rest else none

abbrev pub nonempty_value : Str → Option ℕ
unfolding digits_value
nonempty_value [] = none
nonempty_value (c ∷ s) = digits_value 0 (c ∷ s)

-- `str::parse::<usize>()`, which takes a plus sign.
unfoldable pub parse_usize : Str → Option ℕ
unfolding digits_value
parse_usize [] = none
parse_usize (c ∷ s) = if c == b'+' then nonempty_value s else digits_value 0 (c ∷ s)

abbrev pub by_index : List PartitionInfo → Option ℕ → Option PartitionInfo
by_index parts none = none
by_index parts (some i) = get_elem? parts i

abbrev pub or_else : Option PartitionInfo → Option PartitionInfo → Option PartitionInfo
or_else none other = other
or_else (some p) other = some p

-- A partition by its name, or by its number. The names that there are stand in the message.
unfoldable pub find_partition_offset : List ℕ → Str → Result ℕ
unfolding detect_pfs3_partitions find_named parse_usize
find_partition_offset image name = do
  parts ← detect_pfs3_partitions image
  part ←
      ok_or (or_else (find_named name parts) (by_index parts (parse_usize name))) (not_found name)
  ok part.offset

-- Where `open_auto` opens an image: at the partition named, at the first, or at the offset given.
unfoldable pub start_offset : List ℕ → ℕ → Option Str → Result ℕ
unfolding find_partition_offset detect_pfs3_partition
start_offset image offset (some name) = find_partition_offset image name
start_offset image offset none =
    if offset == 0 then unwrap_or 0 (detect_pfs3_partition image) else ok offset
