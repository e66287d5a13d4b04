-- ===== src/Host.antt =====
-- The plugin host of crates/host: the health of the runtime and the restarts of its workers.
pub mod Health
pub mod Workers
pub mod PluginHost
pub mod Scheduler
