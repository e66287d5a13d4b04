-- ===== src/Examples/Plugins.antt =====
-- Runs of the plugin host, the schedules and the scheduler at concrete inputs.
use localref.Base.{
  ℕ, ◌+◌, ◌≡◌, ◌<◌, refl, Text, text, List, all, [], ◌∷◌, map, Option, none, some, true, false,
  ◌&&◌, if◌then◌else◌, str_eq, contains, arith, retain,
}
use localref.Daemon.Task.{item_imported}
use localref.Daemon.Queue
use localref.Daemon.Command.{Daemon}
use localref.Daemon.Schedules.{CronCrate, ScheduledCall, register_schedule}
use localref.Daemon.Schedules.Registered.{
  Reach, registers, start, next, is_schedule, Reach-is_schedule,
}
use localref.Plugin.Manifest.{HookEvent, DiscoveredPlugin, UiTarget, PluginUiSpec}
use localref.Plugin.Protocol.{RunFlags, run, build_argv, parse_args, split_ids}
use localref.Plugin.Protocol.Reading.{are_keys}
use localref.Host.PluginHost.{
  RunOutput, reserved, declared_target, get, non_empty, for_selection, for_active, unwrap_text,
  build_action_args,
}
use localref.Host.PluginHost.Forms.{is_map, parse_args-build_action_args}
use localref.Host.Scheduler.{ScheduleEntry, dispatch_event, fire_due, due, manifest_cron}
use localref.Host.Scheduler.Dispatching.{
  binds, enabled, started, told, hook_for, ReadAs, dispatch_event-hooks,
}
use localref.Host.Scheduler.Rounds.{advance, is_due, fired, fire_due-round}

abbrev export : Text
unfolding text
export = text "export"

abbrev endpoint : Text
unfolding text
endpoint = text "http://x"

abbrev form : List (Text × Text)
unfolding text
form =
    (text "action", export)
    ∷ (text "format", text "bib")
    ∷ (text "selected", text "lr:a:1,lr:a:2")
    ∷ []

abbrev ui : PluginUiSpec
ui = record {
  actions = record { id = export; target = UiTarget.selection; timeout_secs = none } ∷ [];
  pages = [];
}

form_has_keys : is_map form ≡ true
unfolding is_map text get str_eq
form_has_keys = refl

form_keys_plain : are_keys form ≡ true
unfolding all text
form_keys_plain = refl

parse_args-build_action_args_example :
    (f : RunFlags) × (parse_args
        (build_argv export (build_action_args (some ui) export endpoint form))
      ≡ some (run export f))
    × (f.endpoint ≡ endpoint)
    × (f.selected
        ≡ for_selection
            (declared_target (some ui) export)
            (split_ids (unwrap_text (get (text "selected") form))))
    × (f.active
        ≡ for_active (declared_target (some ui) export) (non_empty (get (text "active") form)))
    × ((key : Text) → get key f.params ≡ (if contains reserved key then none else get key form))
unfolding text
parse_args-build_action_args_example =
    parse_args-build_action_args (some ui) export endpoint form refl form_has_keys form_keys_plain

abbrev answer : RunOutput
unfolding text
answer = record {
  status = text "ok";
  result = some export;
  filename = some (text "my refs.bib");
  message = none;
}

abbrev offered : Text
unfolding text
offered = text "my-refs.bib"

-- A schedule is a period.
abbrev period_of : Text → Option ℕ
period_of [] = none
period_of (c ∷ s) = some c

period-later : (s now next : ℕ) → ◌≡◌ {A = Option ℕ} (some (now + s + 1)) (some next) → now < next
period-later s now after h = ground arith

abbrev periods : CronCrate
periods = record {
  Schedule = ℕ;
  from_str = period_of;
  after = λ s now. some (now + s + 1);
  after-later = period-later;
}

abbrev call : ScheduledCall
unfolding text
call = record {
  id = text "weekly";
  plugin = text "archiver";
  action = text "backup";
  params = [];
  schedule = text "7";
}

abbrev idle : Daemon (List ScheduledCall)
idle = record { queue = Queue.new; world = []; events = [] }

call_registered : Reach periods (register_schedule periods call idle).1
call_registered = next (start refl) (registers call)

Reach-is_schedule_example : is_schedule periods (register_schedule periods call idle).1.world ≡ true
Reach-is_schedule_example = Reach-is_schedule call_registered

abbrev archiver : DiscoveredPlugin
unfolding text
archiver = record {
  manifest = record {
    name = text "archiver";
    executable = none;
    ui = none;
    hooks = HookEvent.item_imported ∷ [];
    cron = [];
  };
  ui = none;
  executable = text "/plugins/archiver";
}

dispatch_event-hooks_example :
    let event = item_imported (text "lr:a:1") in
    (started (dispatch_event (archiver ∷ []) endpoint event [])
      ≡ told (retain (λ p. binds event p && enabled [] p) (archiver ∷ [])))
    × ReadAs (hook_for endpoint event) (dispatch_event (archiver ∷ []) endpoint event [])
unfolding text
dispatch_event-hooks_example =
    dispatch_event-hooks (archiver ∷ []) endpoint (item_imported (text "lr:a:1")) [] refl

abbrev nightly : ScheduleEntry periods
unfolding text
nightly = record {
  plugin_name = text "archiver";
  schedule = 7;
  kind = manifest_cron (text "/plugins/archiver") (text "nightly") none;
}

abbrev timetable : List (ScheduleEntry periods × ℕ)
timetable = (nightly, 100) ∷ (nightly, 300) ∷ []

fire_due-round_example :
    let (spawned, schedule') = fire_due periods endpoint [] false 200 timetable in
    (spawned
      ≡ (if false then [] else fired periods endpoint (retain (is_due periods [] 200) timetable)))
    × (schedule' ≡ map (advance periods 200) timetable)
    × ((fire_due periods endpoint [] false 200 schedule').0 ≡ [])
    × (0 < due periods 200 schedule')
fire_due-round_example = fire_due-round periods endpoint [] false 200 timetable
