-- ===== src/Examples.antt =====
-- Runs of the modelled code at concrete inputs.
mod Queues
mod Documents
mod Components
mod Libraries
mod Logs
mod Plugins
mod Storages
mod Merges
mod Classification
mod Runtime
mod Reconciling
mod Trees
mod Configurations
mod Scans
mod Connectors
mod Sessions
