-- ===== src/Ondisk/Constants.antt =====
-- The constants of crates/libpfs3/src/ondisk/mod.rs and ondisk/rootblock.rs. An `i8` is given by its
-- byte, so a negative entry type is 128 or more.
use pfs.Prelude.{ℕ, ◌-◌, ◌/◌, List, [], ◌∷◌}

abbrev pub id_pfs_disk : ℕ
id_pfs_disk = 0x5046_5301

abbrev pub id_pfs2_disk : ℕ
id_pfs2_disk = 0x5046_5302

abbrev pub id_afs_disk : ℕ
id_afs_disk = 0x4146_5301

abbrev pub id_muaf_disk : ℕ
id_muaf_disk = 0x6D75_4146

abbrev pub id_mupfs_disk : ℕ
id_mupfs_disk = 0x6D75_5046

abbrev pub pfs_types : List ℕ
pfs_types = id_pfs_disk ∷ id_pfs2_disk ∷ id_afs_disk ∷ id_muaf_disk ∷ id_mupfs_disk ∷ []

abbrev pub dblkid : ℕ
dblkid = 0x4442

abbrev pub ablkid : ℕ
ablkid = 0x4142

abbrev pub iblkid : ℕ
iblkid = 0x4942

abbrev pub bmblkid : ℕ
bmblkid = 0x424D

abbrev pub bmiblkid : ℕ
bmiblkid = 0x4D49

abbrev pub deldirid : ℕ
deldirid = 0x4444

abbrev pub extensionid : ℕ
extensionid = 0x4558

abbrev pub mode_harddisk : ℕ
mode_harddisk = 1

abbrev pub mode_splitted_anodes : ℕ
mode_splitted_anodes = 2

abbrev pub mode_dir_extension : ℕ
mode_dir_extension = 4

abbrev pub mode_deldir : ℕ
mode_deldir = 8

abbrev pub mode_sizefield : ℕ
mode_sizefield = 16

abbrev pub mode_extension : ℕ
mode_extension = 32

abbrev pub mode_datestamp : ℕ
mode_datestamp = 64

abbrev pub mode_superindex : ℕ
mode_superindex = 128

abbrev pub mode_extroving : ℕ
mode_extroving = 512

abbrev pub mode_longfn : ℕ
mode_longfn = 1024

abbrev pub mode_largefile : ℕ
mode_largefile = 2048

abbrev pub maxsmallbitmapindex : ℕ
maxsmallbitmapindex = 4

abbrev pub maxbitmapindex : ℕ
maxbitmapindex = 103

abbrev pub maxsmallindexnr : ℕ
maxsmallindexnr = 98

abbrev pub maxsuper : ℕ
maxsuper = 15

abbrev pub anode_eof : ℕ
anode_eof = 0

abbrev pub anode_rootdir : ℕ
anode_rootdir = 5

abbrev pub anode_userfirst : ℕ
anode_userfirst = 6

-- The block of the rootblock.
abbrev pub rootblock_nr : ℕ
rootblock_nr = 2

abbrev pub st_file : ℕ
st_file = 0xFD

abbrev pub st_userdir : ℕ
st_userdir = 2

abbrev pub st_softlink : ℕ
st_softlink = 3

abbrev pub st_linkdir : ℕ
st_linkdir = 4

abbrev pub st_linkfile : ℕ
st_linkfile = 0xFC

abbrev pub st_rolloverfile : ℕ
st_rolloverfile = 0xF0

abbrev pub anode_size : ℕ
anode_size = 12

abbrev pub anode_block_header_size : ℕ
anode_block_header_size = 16

abbrev pub index_block_header_size : ℕ
index_block_header_size = 12

abbrev pub bitmap_block_header_size : ℕ
bitmap_block_header_size = 12

abbrev pub dir_block_header_size : ℕ
dir_block_header_size = 0x14

abbrev pub deldir_header_size : ℕ
deldir_header_size = 32

abbrev pub deldir_entry_size : ℕ
deldir_entry_size = 32

-- Here `-` is `saturating_sub`.
unfoldable pub deldir_entries_per_block : ℕ → ℕ
deldir_entries_per_block reserved_blksize =
    (reserved_blksize - deldir_header_size) / deldir_entry_size

abbrev pub rb_off_datestamp : ℕ
rb_off_datestamp = 0x08

abbrev pub rb_off_diskname : ℕ
rb_off_diskname = 0x14

abbrev pub rb_off_lastreserved : ℕ
rb_off_lastreserved = 0x34

abbrev pub rb_off_reserved_free : ℕ
rb_off_reserved_free = 0x3C

abbrev pub rb_off_blocksfree : ℕ
rb_off_blocksfree = 0x44

abbrev pub rb_off_index_union : ℕ
rb_off_index_union = 0x60
