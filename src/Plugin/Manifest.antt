-- ===== src/Plugin/Manifest.antt =====
-- crates/plugin/src/manifest.rs and discovery.rs: what the host reads of a plugin's identity and of
-- its declared user interface. The TOML text itself is read by a third-party crate.
use localref.Base.{ℕ, Text, text, List, Option}

pub data HookEvent : Type 0 where
  item_imported category_changed item_deleted metadata_patched scan_completed : HookEvent
  item_file_added rules_changed schedules_changed daemon_paused daemon_resumed : HookEvent

-- `HookEvent::as_str`
unfoldable pub as_str : HookEvent → Text
unfolding text
as_str item_imported = text "item_imported"
as_str category_changed = text "category_changed"
as_str item_deleted = text "item_deleted"
as_str metadata_patched = text "metadata_patched"
as_str scan_completed = text "scan_completed"
as_str item_file_added = text "item_file_added"
as_str rules_changed = text "rules_changed"
as_str schedules_changed = text "schedules_changed"
as_str daemon_paused = text "daemon_paused"
as_str daemon_resumed = text "daemon_resumed"

pub record CronJob : Type 0 where
  pub id : Text
  pub schedule : Text
  pub timeout_secs : Option ℕ

pub record PluginManifest : Type 0 where
  pub name : Text
  pub executable : Option Text
  pub ui : Option Text
  pub hooks : List HookEvent
  pub cron : List CronJob

pub data UiTarget : Type 0 where
  selection active nothing : UiTarget

pub record UiAction : Type 0 where
  pub id : Text
  pub target : UiTarget
  pub timeout_secs : Option ℕ

pub record UiPage : Type 0 where
  pub action : Option Text
  pub target : UiTarget
  pub preview : Option Text
  pub timeout_secs : Option ℕ

pub record PluginUiSpec : Type 0 where
  pub actions : List UiAction
  pub pages : List UiPage

pub record DiscoveredPlugin : Type 0 where
  pub manifest : PluginManifest
  pub ui : Option PluginUiSpec
  pub executable : Text
