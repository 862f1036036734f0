-- ===== src/Writer.antt =====
-- crates/libpfs3/src/writer.rs: changing a volume.
pub mod State
pub mod Sectors
pub mod Pending
pub mod Scan
pub mod Bitmaps
pub mod Clusters
pub mod AnodeBytes
pub mod Anodes
pub mod EntryBytes
pub mod Entries
pub mod DeldirBytes
pub mod Deldir
pub mod Files
pub mod Api
