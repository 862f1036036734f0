-- ===== src/Check.antt =====
-- src/cmd/check.rs: the consistency check of a volume, without what it prints. The volume and, for the
-- repairs, the writer are opened by the caller.
pub mod Context
pub mod Scan
pub mod Repair
pub mod Claims
