-- ===== src/Model.antt =====
-- crates/core/src/model/mod.rs: the metadata record and the edits of its text.
pub mod Toml
pub mod Membership
pub mod CategoryEdits
pub mod Manifest
