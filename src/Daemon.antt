-- ===== src/Daemon.antt =====
-- crates/core/src/lib.rs: the daemon facade, its task queue, and what its commands do with both.
pub mod Task
pub mod Queue
pub mod Command
pub mod Lifecycle
pub mod Indexing
pub mod Schedules
