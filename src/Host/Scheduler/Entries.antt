-- ===== src/Host/Scheduler/Entries.antt =====
-- The entries that the cron scheduler of crates/host/src/scheduler.rs makes of the scheduled calls
-- that the daemon keeps.
use localref.Base.{
  ◌≡◌, refl, ◌∙◌, Text, List, [], ◌∷◌, ◌++◌, map, Bool, true, if◌then◌else◌, Option, none, some,
  retain, ok, arith, Option-cases, inl, inr,
}
use mathlib.Core.List.{map-append}
use localref.Daemon.Command.{Daemon}
use localref.Daemon.Schedules.{CronCrate, ScheduledCall, is_some}
use localref.Daemon.Schedules.Registered.{Reach, is_schedule, Reach-is_schedule}
use localref.Plugin.Manifest.{DiscoveredPlugin}
use localref.Host.Scheduler.{
  ScheduleEntry, JobKind, scheduled_call, executable_of, call_entry, collect_manifest_entries,
  collect_scheduled_call_entries, build_schedule,
}

-- The plugin of the call is there.
abbrev pub is_found : List DiscoveredPlugin → ScheduledCall → Bool
is_found plugins call = is_some (executable_of call.plugin plugins)

abbrev pub unwrap : Option Text → Text
unwrap none = []
unwrap (some executable) = executable

-- The plugin to run and the job.
abbrev pub job_of : List DiscoveredPlugin → ScheduledCall → Text × JobKind
job_of plugins call = (
  call.plugin,
  scheduled_call (unwrap (executable_of call.plugin plugins)) call.action call.params,
)

module _ (crate : CronCrate) where
  abbrev pub jobs : List (ScheduleEntry crate) → List (Text × JobKind)
  jobs entries = map (λ (e : ScheduleEntry crate). (e.plugin_name, e.kind)) entries

  jobs-call_entry :
      (call : ScheduledCall) (plugins : List DiscoveredPlugin)
      → is_some (crate.from_str call.schedule) ≡ true
      → jobs
          (call_entry crate call (executable_of call.plugin plugins) (crate.from_str call.schedule))
        ≡ (if is_found plugins call then job_of plugins call ∷ [] else [])
  jobs-call_entry call plugins parses = elim (Option-cases (crate.from_str call.schedule)) [
    | inl bad ↦ absurd (ground arith)
    | inr (s, e) ↦ elim (Option-cases (executable_of call.plugin plugins)) [
      | inl lost ↦ rw (e, lost)
      | inr (x, found) ↦ rw (e, found)
    ]
  ]

  jobs-collect :
      (calls : List ScheduledCall) (plugins : List DiscoveredPlugin)
      → is_schedule crate calls ≡ true
      → jobs (collect_scheduled_call_entries crate calls plugins)
        ≡ map (job_of plugins) (retain (is_found plugins) calls)
  unfolding collect_scheduled_call_entries is_schedule retain
  jobs-collect [] plugins h = refl
  jobs-collect (c ∷ calls) plugins h =
      map-append _ (call_entry crate c (executable_of c.plugin plugins) (crate.from_str c.schedule))
        _
      ∙ ground (arith, jobs-call_entry c plugins, jobs-collect calls plugins)

  -- From the calls that the daemon keeps after any registering and removing, the scheduler makes an
  -- entry for each call whose plugin is there, in their order, behind the entries of the plugins' own
  -- jobs: to run the plugin of that name with the action and the parameters of the call. No call is
  -- dropped for its expression.
  pub build_schedule-jobs :
      (d : Daemon (List ScheduledCall)) (plugins : List DiscoveredPlugin)
      → Reach crate d
      → jobs (build_schedule crate (ok d.world) plugins)
        ≡ jobs (collect_manifest_entries crate plugins)
          ++ map (job_of plugins) (retain (is_found plugins) d.world)
  unfolding build_schedule
  build_schedule-jobs d plugins reached =
      map-append _ (collect_manifest_entries crate plugins) _
      ∙ rw (jobs-collect d.world plugins (Reach-is_schedule reached))
