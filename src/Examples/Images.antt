-- ===== src/Examples/Images.antt =====
-- The theorems on partitions at a concrete disk image.
use pfs.Prelude.{ℕ, ◌+◌, ◌*◌, ◌≤◌, List, [], ◌∷◌, ◌++◌, ◌≡◌, refl, arith, contains, some}
use pfs.Error.{Returns, chars, ok}
use pfs.Bytes.{zeros}
use pfs.Rdb.{
  PartitionInfo, Environment, partition_info, detect_pfs3_partitions, find_partition_offset,
  sector_at, word_of,
}
use pfs.Rdb.Laws.{ListsAll, detect_pfs3_partitions-ListsAll, partition_info-apart}

-- A header that names one more sector.
abbrev disk_header : List ℕ
disk_header = 0x52 ∷ 0x44 ∷ 0x53 ∷ 0x4B ∷ zeros 8 ++ 0 ∷ 0 ∷ 0 ∷ 1 ∷ zeros 496

-- The partition DH0 from cylinder 2 to 79, with two surfaces and 11 blocks in a track.
abbrev disk_partition : List ℕ
disk_partition =
    0x50 ∷ 0x41 ∷ 0x52 ∷ 0x54 ∷ zeros 32
    ++ 3 ∷ b'D' ∷ b'H' ∷ b'0' ∷ zeros 88
    ++ zeros 12
    ++ 0 ∷ 0 ∷ 0 ∷ 2 ∷ zeros 4
    ++ 0 ∷ 0 ∷ 0 ∷ 11 ∷ zeros 12
    ++ 0 ∷ 0 ∷ 0 ∷ 2 ∷ 0 ∷ 0 ∷ 0 ∷ 79 ∷ zeros 20
    ++ 0x50 ∷ 0x46 ∷ 0x53 ∷ 0x01 ∷ zeros 316

abbrev disk_image : List ℕ
disk_image = disk_header ++ disk_partition

first_sector : sector_at disk_image 0 ≡ some disk_header
unfolding sector_at
first_sector = refl

detect_pfs3_partitions_example :
    Returns (ListsAll disk_image disk_header) (detect_pfs3_partitions disk_image)
unfolding word_of
detect_pfs3_partitions_example =
    detect_pfs3_partitions-ListsAll disk_image disk_header first_sector refl

abbrev dh0 : PartitionInfo
dh0 = record { name = chars "DH0"; offset = 22_528; blocks = 1716 }

detect_pfs3_partitions_run : detect_pfs3_partitions disk_image ≡ ok (dh0 ∷ [])
unfolding detect_pfs3_partitions contains
detect_pfs3_partitions_run = refl

-- The partition by its name, in small letters, and by its number.
find_partition_offset_run :
    (find_partition_offset disk_image (chars "dh0") ≡ ok 22_528)
    × (find_partition_offset disk_image (chars "0") ≡ ok 22_528)
unfolding find_partition_offset contains
find_partition_offset_run = (refl, refl)

abbrev low_half : Environment
low_half = record { surfaces = 2; bpt = 11; low_cyl = 2; high_cyl = 39; dostype = 0x5046_5301 }

abbrev high_half : Environment
high_half = record { surfaces = 2; bpt = 11; low_cyl = 40; high_cyl = 79; dostype = 0x5046_5301 }

partition_info_example :
    (partition_info (chars "DH0") low_half).offset
      + (partition_info (chars "DH0") low_half).blocks * 512
    ≤ (partition_info (chars "DH1") high_half).offset
partition_info_example =
    partition_info-apart (chars "DH0") (chars "DH1") low_half high_half
      (record {
        ordered = omega arith;
        cylinders = omega arith;
        some_blocks = omega arith;
        in_range = omega arith;
      })
      (record {
        ordered = omega arith;
        cylinders = omega arith;
        some_blocks = omega arith;
        in_range = omega arith;
      })
      refl refl (omega arith)
