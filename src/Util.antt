-- ===== src/Util.antt =====
-- crates/libpfs3/src/util.rs: dates, protection bits and names.
pub mod Dates
pub mod Protection
pub mod Names
