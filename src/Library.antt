-- ===== src/Library.antt =====
-- The library on disk with its index, and the commands on categories of crates/core/src/lib.rs.
pub mod State
pub mod Categories
pub mod Traces
pub mod Filing
pub mod Outcome
pub mod Renaming
pub mod Merging
pub mod Reconcile
pub mod Commands
pub mod Deletion
