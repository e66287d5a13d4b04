-- ===== src/Platformfs.antt =====
-- crates/core/src/platformfs/mod.rs: names that are safe on disk, and the links under `Cat/`.
pub mod Component
pub mod CatTree
pub mod Merging
pub mod Unique
