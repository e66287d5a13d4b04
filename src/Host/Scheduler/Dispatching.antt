-- ===== src/Host/Scheduler/Dispatching.antt =====
-- What `dispatch_event` of crates/host/src/scheduler.rs starts for an event of the daemon.
use localref.Base.{
  ℕ, ◌≡◌, refl, Text, text, List, [], ◌∷◌, map, Bool, false, not, ◌&&◌, ◌==◌, Option, none, some,
  any, retain, contains, str_eq, is_empty, arith, Bool-cases, inl, inr,
}
use localref.Daemon.Task.{DaemonEvent, event_name}
use localref.Plugin.Manifest.{HookEvent, as_str, DiscoveredPlugin}
use localref.Plugin.Protocol.{Invocation, hook, parse_args}
use localref.Plugin.Protocol.Reading.{parse_args-build_hook_argv}
use localref.Host.Scheduler.{Spawned, matching_plugins, event_targets, spawn_hooks, dispatch_event}

-- The hook that an event is for. A status message has none.
abbrev pub hook_of : DaemonEvent → Option HookEvent
hook_of (DaemonEvent.item_imported _) = some HookEvent.item_imported
hook_of (DaemonEvent.item_deleted _) = some HookEvent.item_deleted
hook_of (DaemonEvent.metadata_patched _) = some HookEvent.metadata_patched
hook_of (DaemonEvent.category_changed _ _) = some HookEvent.category_changed
hook_of (DaemonEvent.scan_completed _) = some HookEvent.scan_completed
hook_of (DaemonEvent.item_file_added _) = some HookEvent.item_file_added
hook_of DaemonEvent.rules_changed = some HookEvent.rules_changed
hook_of DaemonEvent.schedules_changed = some HookEvent.schedules_changed
hook_of DaemonEvent.daemon_paused = some HookEvent.daemon_paused
hook_of DaemonEvent.daemon_resumed = some HookEvent.daemon_resumed
hook_of (DaemonEvent.status_message _ _) = none

abbrev pub number : HookEvent → ℕ
number HookEvent.item_imported = 0
number HookEvent.category_changed = 1
number HookEvent.item_deleted = 2
number HookEvent.metadata_patched = 3
number HookEvent.scan_completed = 4
number HookEvent.item_file_added = 5
number HookEvent.rules_changed = 6
number HookEvent.schedules_changed = 7
number HookEvent.daemon_paused = 8
number HookEvent.daemon_resumed = 9

abbrev pub is_for : Option HookEvent → HookEvent → Bool
is_for none h = false
is_for (some k) h = number h == number k

str_eq-event_name :
    (h : HookEvent) (e : DaemonEvent)
    → str_eq (as_str h) (text (event_name e)) ≡ is_for (hook_of e) h
unfolding as_str text event_name str_eq
str_eq-event_name HookEvent.item_imported (DaemonEvent.item_imported _) = refl
str_eq-event_name HookEvent.item_imported _ = refl
str_eq-event_name HookEvent.category_changed (DaemonEvent.item_imported _) = refl
str_eq-event_name HookEvent.category_changed _ = refl
str_eq-event_name HookEvent.item_deleted (DaemonEvent.item_imported _) = refl
str_eq-event_name HookEvent.item_deleted _ = refl
str_eq-event_name HookEvent.metadata_patched (DaemonEvent.item_imported _) = refl
str_eq-event_name HookEvent.metadata_patched _ = refl
str_eq-event_name HookEvent.scan_completed (DaemonEvent.item_imported _) = refl
str_eq-event_name HookEvent.scan_completed _ = refl
str_eq-event_name HookEvent.item_file_added (DaemonEvent.item_imported _) = refl
str_eq-event_name HookEvent.item_file_added _ = refl
str_eq-event_name HookEvent.rules_changed (DaemonEvent.item_imported _) = refl
str_eq-event_name HookEvent.rules_changed _ = refl
str_eq-event_name HookEvent.schedules_changed (DaemonEvent.item_imported _) = refl
str_eq-event_name HookEvent.schedules_changed _ = refl
str_eq-event_name HookEvent.daemon_paused (DaemonEvent.item_imported _) = refl
str_eq-event_name HookEvent.daemon_paused _ = refl
str_eq-event_name HookEvent.daemon_resumed (DaemonEvent.item_imported _) = refl
str_eq-event_name HookEvent.daemon_resumed _ = refl

-- A plugin that declares a hook for the event.
abbrev pub binds : DaemonEvent → DiscoveredPlugin → Bool
binds event p = any (is_for (hook_of event)) p.manifest.hooks

matching-binds :
    (event : DaemonEvent) (hooks : List HookEvent)
    → any (λ h. str_eq (as_str h) (text (event_name event))) hooks
      ≡ any (is_for (hook_of event)) hooks
unfolding any
matching-binds event [] = refl
matching-binds event (h ∷ hooks) = rw (str_eq-event_name h event, matching-binds event hooks)

-- What is told of a plugin that starts: its name and its executable.
abbrev pub started : List Spawned → List (Text × Text)
started spawned = map (λ (s : Spawned). (s.plugin, s.executable)) spawned

abbrev pub told : List DiscoveredPlugin → List (Text × Text)
told plugins = map (λ (p : DiscoveredPlugin). (p.manifest.name, p.executable)) plugins

-- The hook that a plugin reads.
abbrev pub hook_for : Text → DaemonEvent → Invocation
hook_for endpoint event = hook (text (event_name event)) (record {
  endpoint = endpoint;
  item = (event_targets event).0;
  category = (event_targets event).1;
})

abbrev pub ReadAs : Invocation → List Spawned → Type 0
ReadAs invocation [] = Unit {0}
ReadAs invocation (s ∷ spawned) = (parse_args s.argv ≡ some invocation) × ReadAs invocation spawned

abbrev pub enabled : List Text → DiscoveredPlugin → Bool
enabled disabled p = not (contains disabled p.manifest.name)

spawn_hooks-ReadAs :
    (endpoint : Text) (event : DaemonEvent) (disabled : List Text) (plugins : List DiscoveredPlugin)
    → is_empty endpoint ≡ false
    → ReadAs (hook_for endpoint event) (spawn_hooks endpoint event disabled plugins)
unfolding spawn_hooks
spawn_hooks-ReadAs endpoint event disabled [] given = tt
spawn_hooks-ReadAs endpoint event disabled (p ∷ plugins) given =
    elim (Bool-cases (contains disabled p.manifest.name)) [
      | inl off ↦ rw off (spawn_hooks-ReadAs endpoint event disabled plugins given)
      | inr on ↦ rw on (
        (parse_args-build_hook_argv (text (event_name event)) [] _ given).0,
        spawn_hooks-ReadAs endpoint event disabled plugins given,
      )
    ]

spawn_hooks-plugin :
    (endpoint : Text) (event : DaemonEvent) (disabled : List Text) (plugins : List DiscoveredPlugin)
    → started
        (spawn_hooks endpoint event disabled (matching_plugins plugins (text (event_name event))))
      ≡ told (retain (λ p. binds event p && enabled disabled p) plugins)
unfolding spawn_hooks matching_plugins retain
spawn_hooks-plugin endpoint event disabled [] = refl
spawn_hooks-plugin endpoint event disabled (p ∷ plugins) = ground (
  arith,
  matching-binds event p.manifest.hooks,
  spawn_hooks-plugin endpoint event disabled plugins,
)

-- An event starts exactly the plugins that declare a hook for it and are not disabled, in their
-- order, and no plugin for a status message. Each reads the hook with the event's name, the endpoint,
-- which is not empty, and the item and the category that the event carries.
pub dispatch_event-hooks :
    (plugins : List DiscoveredPlugin) (endpoint : Text) (event : DaemonEvent) (disabled : List Text)
    → is_empty endpoint ≡ false
    → (started (dispatch_event plugins endpoint event disabled)
        ≡ told (retain (λ p. binds event p && enabled disabled p) plugins))
      × ReadAs (hook_for endpoint event) (dispatch_event plugins endpoint event disabled)
unfolding dispatch_event
dispatch_event-hooks plugins endpoint event disabled given = (
  spawn_hooks-plugin endpoint event disabled plugins,
  spawn_hooks-ReadAs endpoint event disabled (matching_plugins plugins (text (event_name event)))
      given,
)
