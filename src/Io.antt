-- ===== src/Io.antt =====
-- crates/libpfs3/src/io.rs: the trait `BlockDevice` as a record of operations on a device state,
-- and the device over a file.
mod Defs
pub mod FileDevice
pub use Defs.{BlockDevice}
