-- ===== src/Format.antt =====
-- crates/libpfs3/src/format.rs: creating a volume.
pub mod Reserved
pub mod Sizes
pub mod Geometry
pub mod Blocks
pub mod Volume
