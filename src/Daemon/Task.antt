-- ===== src/Daemon/Task.antt =====
-- The data of crates/core/src/lib.rs: tasks, their records, pause modes and completion events.
use localref.Base.{ℕ, Text, String, List, Option, Bool}
use localref.Types.CategoryPath.{CategoryPath}

pub data DaemonTask : Type 0 where
  scan_all : DaemonTask
  import_connector save_connector_attachment patch_metadata : Text → DaemonTask
  import_all_directory import_file : Text → DaemonTask
  add_item_file : Text → Text → DaemonTask
  delete_item : Text → DaemonTask
  create_category : CategoryPath → DaemonTask
  normalize_cat_directory : Text → DaemonTask
  add_category remove_category : Text → CategoryPath → DaemonTask
  rename_category merge_category : CategoryPath → CategoryPath → DaemonTask

pub data DaemonTaskState : Type 0 where
  queued running completed failed : DaemonTaskState

pub data PauseMode : Type 0 where
  all writes watcher indexing : PauseMode

pub record DaemonTaskRecord : Type 0 where
  pub id : ℕ
  pub task : DaemonTask
  pub state : DaemonTaskState
  pub message : Option Text
  pub indexed_items : Option ℕ

pub record DaemonStatus : Type 0 where
  pub running : Bool
  pub queued_tasks : ℕ
  pub recent_tasks : List DaemonTaskRecord
  pub paused_modes : List PauseMode

pub data StatusKind : Type 0 where
  info success error : StatusKind

pub data DaemonEvent : Type 0 where
  item_imported item_deleted metadata_patched : Text → DaemonEvent
  category_changed : Option Text → Option Text → DaemonEvent
  scan_completed : ℕ → DaemonEvent
  item_file_added : Text → DaemonEvent
  rules_changed schedules_changed daemon_paused daemon_resumed : DaemonEvent
  status_message : Text → StatusKind → DaemonEvent

-- `DaemonEvent::event_name`
unfoldable pub event_name : DaemonEvent → String
event_name (item_imported _) = "item_imported"
event_name (item_deleted _) = "item_deleted"
event_name (metadata_patched _) = "metadata_patched"
event_name (category_changed _ _) = "category_changed"
event_name (scan_completed _) = "scan_completed"
event_name (item_file_added _) = "item_file_added"
event_name rules_changed = "rules_changed"
event_name schedules_changed = "schedules_changed"
event_name daemon_paused = "daemon_paused"
event_name daemon_resumed = "daemon_resumed"
event_name (status_message _ _) = "status_message"

-- The order of declaration, which `Ord` is derived from.
abbrev pub rank : PauseMode → ℕ
rank all = 0
rank writes = 1
rank watcher = 2
rank indexing = 3
