-- ===== src/Lib.antt =====
-- A model of libpfs3, the library that reads and writes Amiga PFS3 volumes (crates/libpfs3), and of the
-- FUSE file system over it (crates/pfs3-fuse).
--
-- The program and its parts. A volume lies on a block device (io.rs). Its structures are big-endian
-- bytes (ondisk/mod.rs, ondisk/direntry.rs, ondisk/rootblock.rs). Reserved blocks are read through a
-- cache (cache.rs); through them go the anode reader (anode.rs), which turns an anode number into a chain
-- of extents, the bitmap reader (bitmap.rs) and the directory reader (dir.rs). A volume (volume.rs)
-- puts these together. The writer (writer.rs) owns a volume, keeps the bitmaps and the pending
-- writes of reserved blocks in memory, and commits them with the rootblock last. format.rs lays out an
-- empty volume, and rdb.rs finds the partitions of a disk image. util.rs has
-- the names, the protection bits and the dates. The FUSE file system (types.rs, main.rs) owns a volume
-- or a writer and keeps tables of inodes, of names, of the bytes of open files and of deleted files;
-- each request of the kernel is a handler on this state.
-- The consistency check (src/cmd/check.rs) walks over the directories of a volume and records which blocks
-- and anodes they use.
--
-- Which file models which part, all sources but those of Fuse and Check under crates/libpfs3/src:
--   Error      error.rs: `Error`, `Result` with a third outcome `panic`
--   Exec       methods that change an object: a function from the state to a result and the state
--   Bytes      slices, `put_u16` and `put_u32` of ondisk/mod.rs, `byteorder` reads
--   Io         io.rs: the trait `BlockDevice` (Io/Defs) and `FileBlockDevice` (Io/FileDevice)
--   Util       util.rs: Util/Names, Util/Protection, Util/Dates
--   Ondisk     ondisk/: one child for each structure; Ondisk/Constants has the constants
--   Cache      cache.rs: `BlockCache::read_reserved`, `invalidate`
--   Anode      anode.rs: `AnodeReader`, `get_anode`, `get_chain`, `resolve_anode_block`
--   Bitmap     bitmap.rs: `BitmapReader`, `count_free`, `get_bitmap_block`
--   Dir        dir.rs: `list_entries`, `lookup`, `resolve_path`, `resolve_dir_path`
--   Volume     volume.rs: `from_device` and every reading method over the loops of Volume/Reads
--   Writer     writer.rs: State (the struct), Pending, Bitmaps over Scan, Anodes over AnodeBytes and
--              Clusters, Entries over EntryBytes, Deldir over DeldirBytes, Files, Api, Sectors
--   Format     format.rs: Reserved (`ReservedAllocator`), Sizes (`calc_num_reserved`), Geometry (the
--              numbers of a volume), Blocks (the bytes of each block), Volume (`format_with_size`)
--   Rdb        rdb.rs: `detect_pfs3_partitions`; `find_partition_offset` and the offset of `open_auto` of
--              volume.rs
--   Fuse       crates/pfs3-fuse/src/types.rs: Types (the state and `make_attr`), Deldir
--              (`rebuild_deldir`), Mount (`Pfs3Fs::new` and the requests); crates/pfs3-fuse/src/main.rs: Reads
--              (getattr, lookup, readdir, read, readlink, statfs), Entries (mkdir, create, unlink,
--              rmdir, rename), Buffers (open, write, release, setattr), Xattrs; Reply has what a handler
--              answers, Maps the hash maps
--   Check      src/cmd/check.rs: Context (`CheckCtx`, `record_blocks`), Scan (`scan_dir`), Repair (`run`)
--   Examples   the theorems at concrete inputs, and runs
-- A method of Rust has the name of the method here. Its pure parts are functions of their own, so that
-- they can be stated and run by themselves.
--
-- How the code is read. Numbers are natural numbers, a sum, difference or product of u32 that can
-- leave its range has the remainder by 2^32 written out, as in a release build. These sums are
-- taken not to leave their range: the u64 offsets of `write_blocks` and `read_blocks`, the usize
-- `off + data.len()` of a FUSE write, and the u32 `start + count` of a run in `create_anode_chain`.
-- `calc_num_reserved` is not called with reserved blocks of less than 1024 bytes, for which it
-- would divide by zero. An i8 stands as its byte. A string is the list of its code points;
-- `as_bytes` is UTF-8. A hash map is a list of entries, a file is the list of its bytes. `now` and
-- `clock` are what the system clock shows. A method keeps what it changed when it fails. Index and
-- slice errors and a division by zero are `panic`. A FUSE handler holds the mutex from its first
-- access to its end, so that requests are run one after the other; one that panics answers nothing,
-- and what follows it is modelled as if the mutex were not poisoned. Names and values from the
-- kernel are `none` where they are not UTF-8; `full` is the answer of `reply.add` in a listing; the
-- caller's uid and gid are arguments.
--
-- Bounds and fuel. A chain is followed for at most 1,000,000 anodes, as in the source. The loop
-- over a directory block has one more round than the block has bytes, where an entry has at least
-- 18 bytes. The loops over the entries of a block in the writer have one more round than the block
-- has bytes, each round that goes on passes at least one byte, and without a round left they are
-- `panic`. The loop over the bitmap blocks has one round for each entry that the bitmap index can
-- have. `calc_num_reserved` doubles a u64 in 53 rounds until it overflows. The loop of a format
-- that sizes the reserved bitmap has as many rounds as the bitmap has words, where each round
-- passes 256 of them. `scan_dir` of the check takes the depth of the stack as fuel, and one that is
-- deeper is `panic`: its bound on the path does not bound the recursion in a volume whose root
-- directory has an entry without a name.
--
-- Not modelled: opening and locking files, `main` of the FUSE program, the command line tools of
-- src other than the check, tests and fuzz targets. They are glue over the parts above or input and
-- output. A caller's device is any `BlockDevice`.
pub mod Prelude
pub mod Error
pub mod Exec
pub mod Bytes
pub mod Io
pub mod Util
pub mod Ondisk
pub mod Cache
pub mod Anode
pub mod Bitmap
pub mod Dir
pub mod Volume
pub mod Writer
pub mod Rdb
pub mod Format
pub mod Fuse
pub mod Check
pub mod Examples
