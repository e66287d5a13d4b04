-- ===== src/Daemon/Schedules/Registered.antt =====
-- The registered calls of crates/core/src/lib.rs over any registering and removing.
use localref.Base.{
  ◌≡◌, ◌⊎◌, refl, Text, List, [], ◌∷◌, ◌++◌, Bool, true, false, not, ◌&&◌, if◌then◌else◌, any,
  any-append, retain, is_empty, trim, str_eq, str_eq_iff, ok, arith, Bool-cases, inl, inr,
  length-append, is_ok,
}
use localref.Daemon.Task.{schedules_changed}
use localref.Daemon.Command.{Daemon, emit_event}
use localref.Daemon.Schedules.{
  CronCrate, ScheduledCall, is_some, register_schedule, remove_schedule,
}

abbrev pub has_id : Text → ScheduledCall → Bool
has_id id call = str_eq call.id id

-- The test of the expression and of the id on one call.
abbrev pub is_valid : CronCrate → ScheduledCall → Bool
is_valid crate call = is_some (crate.from_str call.schedule) && not (is_empty (trim call.id))

-- Valid calls, of which no two have one id.
unfoldable pub is_schedule : CronCrate → List ScheduledCall → Bool
unfolding any
is_schedule crate [] = true
is_schedule crate (call ∷ calls) =
    is_valid crate call && not (any (has_id call.id) calls) && is_schedule crate calls

any-retain :
    (p q : ScheduledCall → Bool) (calls : List ScheduledCall)
    → any p calls ≡ false
    → any p (retain q calls) ≡ false
unfolding any retain
any-retain p q [] h = refl
any-retain p q (c ∷ calls) h = ground (arith, any-retain p q calls)

is_schedule-retain :
    (crate : CronCrate) (q : ScheduledCall → Bool) (calls : List ScheduledCall)
    → is_schedule crate calls ≡ true
    → is_schedule crate (retain q calls) ≡ true
unfolding is_schedule retain
is_schedule-retain crate q [] h = refl
is_schedule-retain crate q (c ∷ calls) h =
    ground (arith, is_schedule-retain crate q calls, any-retain (has_id c.id) q calls)

is_schedule-append :
    (crate : CronCrate) (calls : List ScheduledCall) (c : ScheduledCall)
    → is_schedule crate calls ≡ true
    → is_valid crate c ≡ true
    → any (has_id c.id) calls ≡ false
    → is_schedule crate (calls ++ c ∷ []) ≡ true
unfolding is_schedule any
is_schedule-append crate [] c h valid fresh = ground arith
is_schedule-append crate (d ∷ calls) c h valid fresh = ground (
  arith,
  is_schedule-append crate calls c,
  any-append (has_id d.id) calls (c ∷ []),
  str_eq_iff c.id d.id,
  str_eq_iff d.id c.id,
)

-- One call, of any client.
pub data Step (crate : CronCrate)
    : Daemon (List ScheduledCall) → Daemon (List ScheduledCall) → Type 1 where
  registers :
      {d : Daemon (List ScheduledCall)} (call : ScheduledCall)
      → Step crate d (register_schedule crate call d).1
  removes : {d : Daemon (List ScheduledCall)} (id : Text) → Step crate d (remove_schedule id d).1

-- From a daemon with no scheduled calls.
pub data Reach (crate : CronCrate) : Daemon (List ScheduledCall) → Type 1 where
  start : {d : Daemon (List ScheduledCall)} → d.world ≡ [] → Reach crate d
  next : {d e : Daemon (List ScheduledCall)} → Reach crate d → Step crate d e → Reach crate e

register_schedule-is_schedule :
    (crate : CronCrate) (call : ScheduledCall) (d : Daemon (List ScheduledCall))
    → is_schedule crate d.world ≡ true
    → is_schedule crate (register_schedule crate call d).1.world ≡ true
unfolding register_schedule emit_event
register_schedule-is_schedule crate call d h = elim (Bool-cases (any (has_id call.id) d.world)) [
  | inl taken ↦ ground arith
  | inr fresh ↦ ground (arith, is_schedule-append crate d.world call h)
]

remove_schedule-is_schedule :
    (crate : CronCrate) (id : Text) (d : Daemon (List ScheduledCall))
    → is_schedule crate d.world ≡ true
    → is_schedule crate (remove_schedule id d).1.world ≡ true
unfolding remove_schedule emit_event
remove_schedule-is_schedule crate id d h =
    ground (arith, is_schedule-retain crate (λ existing. not (str_eq existing.id id)) d.world h)

-- Whatever clients register and remove, the calls that the daemon keeps have an id that is not blank
-- and an expression that the scheduler can read, and no two of them have one id.
pub Reach-is_schedule :
    {crate : CronCrate} {d : Daemon (List ScheduledCall)}
    → Reach crate d
    → is_schedule crate d.world ≡ true
Reach-is_schedule {crate} (start {d} empty) = rw empty (unfold is_schedule in refl)
Reach-is_schedule {crate} (next {d} r (registers call)) =
    register_schedule-is_schedule crate call d (Reach-is_schedule r)
Reach-is_schedule {crate} (next {d} r (removes id)) =
    remove_schedule-is_schedule crate id d (Reach-is_schedule r)

retain-fresh :
    (id : Text) (calls : List ScheduledCall) (c : ScheduledCall)
    → any (has_id id) calls ≡ false
    → c.id ≡ id
    → retain (λ existing. not (str_eq existing.id id)) (calls ++ c ∷ []) ≡ calls
unfolding any retain
retain-fresh id [] c fresh own = ground (arith, str_eq_iff c.id id)
retain-fresh id (x ∷ calls) c fresh own = ground (arith, retain-fresh id calls c)

with_call : ScheduledCall → Daemon (List ScheduledCall) → Daemon (List ScheduledCall)
with_call call d = record d {
  world = d.world ++ call ∷ [];
  events = d.events ++ schedules_changed ∷ [];
}

register_schedule_fits :
    (crate : CronCrate) (call : ScheduledCall) (d : Daemon (List ScheduledCall))
    → (is_valid crate call && not (any (has_id call.id) d.world)) ≡ true
    → register_schedule crate call d ≡ (ok tt, with_call call d)
unfolding register_schedule emit_event with_call
register_schedule_fits crate call d fits = ground arith

remove_registered :
    (call : ScheduledCall) (d : Daemon (List ScheduledCall))
    → any (has_id call.id) d.world ≡ false
    → remove_schedule call.id (with_call call d)
      ≡ (true, record d { events = (d.events ++ schedules_changed ∷ []) ++ schedules_changed ∷ [] })
unfolding remove_schedule emit_event with_call
remove_registered call d fresh =
    ground (arith, retain-fresh call.id d.world call fresh refl, length-append d.world (call ∷ []))

-- A registration succeeds exactly for a call whose id is not blank and whose expression parses, where
-- no call has that id. It then adds the call at the end and publishes that the schedules changed, and
-- changes nothing otherwise. Removing the call again finds it, brings the calls back and publishes
-- once more.
pub remove_schedule-register :
    (crate : CronCrate) (call : ScheduledCall) (d : Daemon (List ScheduledCall))
    → let fits = is_valid crate call && not (any (has_id call.id) d.world) in
      let (result, d') = register_schedule crate call d in
      let (removed, d'') = remove_schedule call.id d' in
      (is_ok result ≡ fits)
      × (d' ≡ (
          if fits
          then record d {
            world = d.world ++ call ∷ [];
            events = d.events ++ schedules_changed ∷ [];
          }
          else d))
      × ((fits ≡ false)
          ⊎ ((removed ≡ true)
              × (d'' ≡ record d {
                events = (d.events ++ schedules_changed ∷ []) ++ schedules_changed ∷ [];
              })))
unfolding register_schedule emit_event
remove_schedule-register crate call d = (
  ground arith,
  ground arith,
  elim (Bool-cases (is_valid crate call && not (any (has_id call.id) d.world))) [
    | inr unfit ↦ inl unfit
    | inl fits ↦
        rw (register_schedule_fits crate call d fits, remove_registered call d (ground arith))
          (inr (refl, refl))
  ],
)
