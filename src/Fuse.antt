-- ===== src/Fuse.antt =====
-- crates/pfs3-fuse/src/types.rs and main.rs: a volume as a FUSE file system.
pub mod Reply
pub mod Safe
pub mod Maps
pub mod Types
pub mod Deldir
pub mod Reads
pub mod Entries
pub mod Buffers
pub mod Xattrs
pub mod Mount
pub mod Invariant
pub mod ReadOnly
pub mod Contents
pub mod Lookup
pub mod Listing
pub mod Protection
pub mod Untouched
