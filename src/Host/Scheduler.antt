-- ===== src/Host/Scheduler.antt =====
-- crates/host/src/scheduler.rs: the dispatch of daemon events to hooks, and the entries of the cron
-- scheduler. What is spawned is a value; times are nanoseconds since the epoch.
pub mod Dispatching
pub mod Entries
pub mod Rounds
use Prim.Native.Nat.{min}
use localref.Base.{
  ℕ, ◌+◌, ◌-◌, ◌*◌, Text, text, List, [], ◌∷◌, ◌++◌, map, Bool, true, false, not, if◌then◌else◌,
  leb, Option, none, some, any, all, retain, contains, str_eq, Result, ok, err,
}
use localref.Daemon.Task.{
  DaemonEvent, item_imported, item_deleted, metadata_patched, item_file_added, category_changed,
  scan_completed, rules_changed, schedules_changed, daemon_paused, daemon_resumed, status_message,
  event_name,
}
use localref.Daemon.Schedules.{CronCrate, ScheduledCall}
use localref.Plugin.Manifest.{HookEvent, as_str, CronJob, DiscoveredPlugin}
use localref.Plugin.Protocol.{ActionArgs, HookArgs, build_argv, build_hook_argv, build_cron_argv}
use localref.Plugin.Registry.{InvocationKind}

-- A process that a worker starts, with what the registry keeps of it.
pub record Spawned : Type 0 where
  pub executable : Text
  pub argv : List Text
  pub plugin : Text
  pub label : Text
  pub kind : InvocationKind
  pub timeout_secs : Option ℕ

unfoldable pub matching_plugins : List DiscoveredPlugin → Text → List DiscoveredPlugin
unfolding any retain as_str
matching_plugins plugins event_name =
    retain (λ (p : DiscoveredPlugin). any (λ h. str_eq (as_str h) event_name) p.manifest.hooks)
      plugins

unfoldable pub event_targets : DaemonEvent → Option Text × Option Text
event_targets (item_imported id) = (some id, none)
event_targets (item_deleted id) = (some id, none)
event_targets (metadata_patched id) = (some id, none)
event_targets (item_file_added id) = (some id, none)
event_targets (category_changed id category) = (id, category)
event_targets (scan_completed _) = (none, none)
event_targets rules_changed = (none, none)
event_targets schedules_changed = (none, none)
event_targets daemon_paused = (none, none)
event_targets daemon_resumed = (none, none)
event_targets (status_message _ _) = (none, none)

abbrev pub hook_run : Text → DaemonEvent → DiscoveredPlugin → Spawned
hook_run endpoint event plugin = record {
  executable = plugin.executable;
  argv = build_hook_argv (text (event_name event)) (record {
    endpoint = endpoint;
    item = (event_targets event).0;
    category = (event_targets event).1;
  });
  plugin = plugin.manifest.name;
  label = text (event_name event);
  kind = InvocationKind.hook;
  timeout_secs = none;
}

-- The loop over the plugins that match.
unfoldable pub spawn_hooks : Text → DaemonEvent → List Text → List DiscoveredPlugin → List Spawned
unfolding contains
spawn_hooks endpoint event disabled [] = []
spawn_hooks endpoint event disabled (p ∷ plugins) =
    let rest = spawn_hooks endpoint event disabled plugins in
    if contains disabled p.manifest.name then rest else hook_run endpoint event p ∷ rest

unfoldable pub dispatch_event :
    List DiscoveredPlugin → Text → DaemonEvent → List Text → List Spawned
unfolding spawn_hooks matching_plugins
dispatch_event plugins endpoint event disabled =
    spawn_hooks endpoint event disabled (matching_plugins plugins (text (event_name event)))

-- `HashMap::get` on the names of the plugins, where a later plugin replaces an earlier one.
unfoldable pub executable_of : Text → List DiscoveredPlugin → Option Text
executable_of name [] = none
executable_of name (p ∷ plugins) = elim (executable_of name plugins) [
  | some executable ↦ some executable
  | none ↦ (if str_eq p.manifest.name name then some p.executable else none)
]

pub data JobKind : Type 0 where
  manifest_cron : Text → Text → Option ℕ → JobKind
  scheduled_call : Text → Text → List (Text × Text) → JobKind

module _ (crate : CronCrate) where
  open crate use {Schedule, from_str, after}

  pub record ScheduleEntry : Type 0 where
    pub plugin_name : Text
    pub schedule : Schedule
    pub kind : JobKind

  abbrev pub job_entry : DiscoveredPlugin → CronJob → Option Schedule → List ScheduleEntry
  job_entry plugin job none = []
  job_entry plugin job (some schedule) =
      record {
        plugin_name = plugin.manifest.name;
        schedule = schedule;
        kind = manifest_cron plugin.executable job.id job.timeout_secs;
      }
      ∷ []

  unfoldable pub plugin_entries : DiscoveredPlugin → List CronJob → List ScheduleEntry
  plugin_entries plugin [] = []
  plugin_entries plugin (job ∷ jobs) =
      job_entry plugin job (from_str job.schedule) ++ plugin_entries plugin jobs

  unfoldable pub collect_manifest_entries : List DiscoveredPlugin → List ScheduleEntry
  unfolding plugin_entries
  collect_manifest_entries [] = []
  collect_manifest_entries (p ∷ plugins) =
      plugin_entries p p.manifest.cron ++ collect_manifest_entries plugins

  abbrev pub call_entry : ScheduledCall → Option Text → Option Schedule → List ScheduleEntry
  call_entry call none _ = []
  call_entry call (some executable) none = []
  call_entry call (some executable) (some schedule) =
      record {
        plugin_name = call.plugin;
        schedule = schedule;
        kind = scheduled_call executable call.action call.params;
      }
      ∷ []

  unfoldable pub collect_scheduled_call_entries :
      List ScheduledCall → List DiscoveredPlugin → List ScheduleEntry
  unfolding executable_of
  collect_scheduled_call_entries [] plugins = []
  collect_scheduled_call_entries (call ∷ calls) plugins =
      call_entry call (executable_of call.plugin plugins) (from_str call.schedule)
      ++ collect_scheduled_call_entries calls plugins

  abbrev pub calls_or_none : Result (List ScheduledCall) → List ScheduledCall
  calls_or_none (ok calls) = calls
  calls_or_none (err _) = []

  -- `reload_schedule`, which passes the snapshot to `build_schedule`
  unfoldable pub build_schedule :
      Result (List ScheduledCall) → List DiscoveredPlugin → List ScheduleEntry
  unfolding collect_manifest_entries collect_scheduled_call_entries
  build_schedule listed plugins =
      collect_manifest_entries plugins
      ++ collect_scheduled_call_entries (calls_or_none listed) plugins

  abbrev pub with_time : ScheduleEntry → Option ℕ → List (ScheduleEntry × ℕ)
  with_time entry none = []
  with_time entry (some next) = (entry, next) ∷ []

  unfoldable pub next_fire_times : ℕ → List ScheduleEntry → List (ScheduleEntry × ℕ)
  next_fire_times now [] = []
  next_fire_times now (entry ∷ entries) =
      with_time entry (after entry.schedule now) ++ next_fire_times now entries

  unfoldable pub fire_entry : Text → ScheduleEntry → Spawned
  unfolding build_argv build_cron_argv
  fire_entry endpoint entry = elim entry.kind [
    | manifest_cron executable job timeout ↦ record {
      executable = executable;
      argv = build_cron_argv job endpoint;
      plugin = entry.plugin_name;
      label = job;
      kind = InvocationKind.cron;
      timeout_secs = timeout;
    }
    | scheduled_call executable action params ↦ record {
      executable = executable;
      argv =
          build_argv action
            (record { endpoint = endpoint; selected = []; active = none; params = params });
      plugin = entry.plugin_name;
      label = action;
      kind = InvocationKind.cron;
      timeout_secs = none;
    }
  ]

  -- `TimeDelta::days(3650)`
  abbrev pub ten_years : ℕ
  ten_years = 3650 * 86400 * 1000000000

  abbrev pub or_later : ℕ → Option ℕ → ℕ
  or_later now none = now + ten_years
  or_later now (some next) = next

  -- One pass over the entries: what is spawned, and the entries with their next times.
  unfoldable pub fire_due :
      Text
      → List Text
      → Bool
      → ℕ
      → List (ScheduleEntry × ℕ)
      → List Spawned × List (ScheduleEntry × ℕ)
  unfolding fire_entry contains
  fire_due endpoint disabled paused now [] = ([], [])
  fire_due endpoint disabled paused now ((entry, next) ∷ schedule) =
      let (spawned, rest) = fire_due endpoint disabled paused now schedule in
      if not (leb next now) then (spawned, (entry, next) ∷ rest) else (
        if paused
            then spawned
            else if contains disabled entry.plugin_name
            then spawned
            else fire_entry endpoint entry ∷ spawned,
        (entry, or_later now (after entry.schedule now)) ∷ rest,
      )

  abbrev pub soonest : List (ScheduleEntry × ℕ) → Option ℕ
  soonest [] = none
  soonest ((entry, next) ∷ schedule) = elim (soonest schedule) [
    | none ↦ some next
    | some other ↦ some (min next other)
  ]

  abbrev pub wait_for : ℕ → Option ℕ → ℕ
  wait_for now none = 3600 * 1000000000
  wait_for now (some soonest) = soonest - now

  -- How long the loop sleeps.
  unfoldable pub due : ℕ → List (ScheduleEntry × ℕ) → ℕ
  due now schedule = wait_for now (soonest schedule)
