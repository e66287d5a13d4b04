-- ===== src/Csc.antt =====
-- crates/csc/src: the server for Zotero's browser connector.
pub mod Targets
pub mod Sessions
pub mod Uploads
pub mod Items
