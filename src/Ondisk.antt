-- ===== src/Ondisk.antt =====
-- crates/libpfs3/src/ondisk: the on-disk structures and their parsers.
pub mod Constants
pub mod Anode
pub mod DelDir
pub mod DirEntry
pub mod Headers
pub mod Rootblock
