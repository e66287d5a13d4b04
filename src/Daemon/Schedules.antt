-- ===== src/Daemon/Schedules.antt =====
-- crates/core/src/lib.rs and schedule.rs: the scheduled calls of plugins, which the daemon keeps in a
-- file, and whose changes it publishes.
pub mod Registered
use localref.Base.{
  ℕ, ◌<◌, ◌≡◌, Text, text, List, [], ◌∷◌, ◌++◌, Bool, not, ◌==◌, if◌then◌else◌, Option, none, some,
  any, retain, length, is_empty, trim, str_eq, Result, ok, err, rule,
}
use localref.Daemon.Task.{DaemonEvent, schedules_changed}
use localref.Daemon.Command.{Daemon, emit_event}

-- The `cron` crate: expressions, and the next time of an expression after a time.
pub record CronCrate : Type 1 where
  pub Schedule : Type 0
  pub from_str : Text → Option Schedule
  pub after : Schedule → ℕ → Option ℕ
  pub after-later : (s : Schedule) (now next : ℕ) → after s now ≡ some next → now < next

pub record ScheduledCall : Type 0 where
  pub id : Text
  pub plugin : Text
  pub action : Text
  pub params : List (Text × Text)
  pub schedule : Text

abbrev pub is_some {ℓ} : {A : Type ℓ} → Option A → Bool
is_some none = Bool.false
is_some (some _) = Bool.true

module _ (crate : CronCrate) where
  open crate use {from_str}

  unfoldable pub register_schedule :
      ScheduledCall → Daemon (List ScheduledCall) → Result (Unit {0}) × Daemon (List ScheduledCall)
  unfolding any emit_event
  register_schedule call d =
      if is_empty (trim call.id)
      then (err (rule (text "schedule id must not be empty")), d)
      else if not (is_some (from_str call.schedule))
      then (err (rule (text "invalid cron expression: " ++ call.schedule)), d)
      else if any (λ (existing : ScheduledCall). str_eq existing.id call.id) d.world
      then (err (rule (text "schedule id already exists: " ++ call.id)), d)
      else (ok tt, emit_event schedules_changed (record d { world = d.world ++ call ∷ [] }))

unfoldable pub remove_schedule :
    Text → Daemon (List ScheduledCall) → Bool × Daemon (List ScheduledCall)
unfolding retain emit_event
remove_schedule id d =
    let schedules = retain (λ (existing : ScheduledCall). not (str_eq existing.id id)) d.world in
    let removed = not (length schedules == length d.world) in
    if removed
    then (removed, emit_event schedules_changed (record d { world = schedules }))
    else (removed, d)
