-- ===== src/Types.antt =====
-- crates/core/src/types/mod.rs: the validated identifiers that cross crate boundaries.
pub mod ItemId
pub mod CategoryPath
