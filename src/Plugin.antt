-- ===== src/Plugin.antt =====
-- The plugin library of crates/plugin.
pub mod Manifest
pub mod Registry
pub mod Protocol
