-- ===== src/Scan.antt =====
-- crates/core/src/scan/mod.rs: what the scanner finds below `All/` and `Cat/`.
pub mod Tree
pub mod Scanning
pub mod Walking
pub mod Entries
pub mod Failing
