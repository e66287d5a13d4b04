-- ===== src/Config.antt =====
-- The configuration of crates/core/src/config/mod.rs.
pub mod Escape
pub mod Settings
pub mod Ranges
