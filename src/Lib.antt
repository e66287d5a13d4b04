-- ===== src/Lib.antt =====
-- Localref keeps a library of papers on disk: each item a directory below `All/` with a
-- `metadata.toml`, each category a directory below `Cat/` with links to its items. A daemon
-- (crates/core/src/lib.rs) serves commands of a desktop application, of plugins and of a browser
-- connector: a command files a task, asks the pause modes for leave, changes the library, rebuilds
-- the index and settles the task with a completion event.
--
-- Base: text as lists of code points, the operations of slices and iterators, machine words, and the
--   error type and results of crates/core/src/error/mod.rs.
-- Types: `ItemId` and `CategoryPath` of crates/core/src/types/mod.rs.
-- Daemon: crates/core/src/lib.rs. Task has its data; Queue has `TaskQueueState` with the methods that
--   lock it (`enqueue`, `mark_running`, `finish`, `ensure_task_allowed`, `pause`, `resume`), each one
--   step, so that callers in several threads are a sequence of steps; Command has the methods that
--   commands are made of (`execute_task`, `finish_task_result`, `patch_metadata`,
--   `import_connector_item`) with the work on the library as an argument; Lifecycle and Indexing say
--   what a command comes to. Schedules has the scheduled calls that the daemon keeps.
-- Model: `Metadata::apply_category_edits` of crates/core/src/model/mod.rs. The crate `toml_edit` is the
--   record `TomlEdit` of Model/Toml.antt, with the laws of its maps and arrays that the code relies on.
--   Manifest is `CatManifest` of crates/core/src/manifest.rs, a list of sets keyed by item.
-- Platformfs: crates/core/src/platformfs/mod.rs. Component is `sanitize_ntfs_component`; CatTree the
--   directories and links below `Cat/` with `category_dir`, `create_category_link_named` and
--   `remove_category_link`; Merging has `merge_category`; Unique has `unique_all_item_path` and
--   `create_unique_item_dir`, whose loops have fuel: one more than there are names in `All/`.
-- Library: the work of the category commands of crates/core/src/lib.rs on the metadata of the items,
--   the index, the tree and the manifest (State). Categories has `add_item_category`,
--   `remove_item_category`, their forms for several items, `create_category` and `delete_item`;
--   Renaming has `remap_category_prefix` and `rename_category`, where the renaming of a directory by
--   the operating system is a parameter, and Merging `merge_category`. A method runs until its first
--   error and keeps the changes so far; of the calls that fail with the disk or the database it has
--   the writing of the manifest, the rebuilding of the index and the summary (`Faults`), while the
--   manifest and the indexed items can be read. Reconcile is `reconcile_categories`, which brings links
--   and metadata together. Traces, Filing and Outcome say what the commands leave behind, Deletion
--   what a deletion leaves, Commands what the daemon's methods around them do.
-- Rules: crates/core/src/rules/mod.rs. Query has the atoms of a query and their tests, Rules itself
--   `RuleSet::parse` and `match_metadata`; the `regex` crate is the record `RegexCrate`.
-- Plugin: Manifest has what the host reads of a plugin's `plugin.toml` and `ui.toml`, Protocol the
--   arguments of crates/plugin/src/invoke.rs with `parse_args` of crates/plugin-sdk/src/runtime.rs, and
--   Registry the table of live plugin runs of crates/plugin/src/registry.rs, whose operations interleave.
-- Host: Health and Workers are the runtime's health and the restarts of its workers
--   (crates/host/src/health.rs and scheduler.rs), Scheduler the hooks and cron jobs of scheduler.rs;
--   times are nanoseconds, and what is started is a value. PluginHost is crates/host/src/plugin_host.rs.
-- Config: Settings is `from_config_file` of crates/core/src/config/mod.rs, Escape `escape_toml_basic`.
-- Logging: crates/core/src/logging.rs. The parent has `SizeLimitedLogWriter` and `rotate_files`, where
--   every call of the operating system succeeds; Ring is `LogRingBuffer`.
-- Csc: crates/csc/src. Targets has `connector_save_targets` of lib.rs: Closed and Whole are about the
--   categories that are offered, Encoding about their ids. Sessions is the sink of daemon_sink.rs, its
--   methods in Sink: each holds the mutex and is one step. Pruning, Blocking, Waiting, Keeping and
--   Handing say what becomes of sessions, of imports and of attachments; the daemon is any that
--   answers, with no law. Uploads and Items are what lib.rs makes of the JSON of an attachment and of
--   an item.
-- Scan: crates/core/src/scan/mod.rs on a tree of the answers of the operating system, as a Unix gives
--   them (Tree). Scanning is the scanner; Walking says which entries it meets, Entries what it tells
--   of them and Failing when it fails.
-- Storage: what crates/core/src/storage/mod.rs answers from the indexed documents. Searching is about
--   `search`; Categories has `list_categories`, Listing and Summaries are about it, Extra about the index of plugins' fields.
-- Examples: runs of the code at concrete inputs.
--
-- The ids of tasks are 64-bit words that wrap around; the theorems about commands ask for an id below
-- the last. Of the loops only the search for an unused name has fuel, with a suffix that wraps around at
-- 32 bits; the digits of a number have as much as the number says. Every other loop is a recursion on
-- its list or its tree.
--
-- Log messages, locks and clocks are left out, as are the REST server, the database, the operating
-- system's calls, the bindings and the user interface.
pub mod Base
pub mod Types
pub mod Csc
pub mod Daemon
pub mod Model
pub mod Platformfs
pub mod Library
pub mod Rules
pub mod Scan
pub mod Host
pub mod Plugin
pub mod Config
pub mod Logging
pub mod Storage
pub mod Examples
