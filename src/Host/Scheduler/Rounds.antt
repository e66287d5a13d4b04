-- ===== src/Host/Scheduler/Rounds.antt =====
-- One round of the cron scheduler of crates/host/src/scheduler.rs.
use localref.Base.{
  ℕ, ◌<◌, ◌≡◌, refl, ◌∙◌, Text, List, [], ◌∷◌, map, Bool, not, ◌&&◌, if◌then◌else◌, leb, some,
  retain, contains, arith, inl, inr, Option-cases,
}
use localref.Daemon.Schedules.{CronCrate}
use localref.Host.Scheduler.{Spawned, ScheduleEntry, fire_entry, fire_due, or_later, soonest, due}

module _ (crate : CronCrate) where
  abbrev pub Timed : Type 0
  Timed = ScheduleEntry crate × ℕ

  -- The entry after a round at `now`.
  abbrev pub advance : ℕ → Timed → Timed
  advance now (entry, next) =
      (entry, if leb next now then or_later crate now (crate.after entry.schedule now) else next)

  abbrev pub is_due : List Text → ℕ → Timed → Bool
  is_due disabled now (entry, next) = leb next now && not (contains disabled entry.plugin_name)

  abbrev pub AllLater : ℕ → List Timed → Type 0
  AllLater now [] = Unit {0}
  AllLater now ((entry, next) ∷ schedule) = (now < next) × AllLater now schedule

  or_later-lt : (s : crate.Schedule) (now : ℕ) → now < or_later crate now (crate.after s now)
  or_later-lt s now = elim (Option-cases (crate.after s now)) [
    | inl e ↦ rw e (omega arith)
    | inr (next, e) ↦ rw e (crate.after-later s now next e)
  ]

  AllLater-advance : (now : ℕ) (schedule : List Timed) → AllLater now (map (advance now) schedule)
  AllLater-advance now [] = tt
  AllLater-advance now ((entry, next) ∷ schedule) =
      (ground (arith, or_later-lt entry.schedule now), AllLater-advance now schedule)

  fire_due-entries :
      (endpoint : Text) (disabled : List Text) (paused : Bool) (now : ℕ) (schedule : List Timed)
      → (fire_due crate endpoint disabled paused now schedule).1 ≡ map (advance now) schedule
  unfolding fire_due
  fire_due-entries endpoint disabled paused now [] = refl
  fire_due-entries endpoint disabled paused now ((entry, next) ∷ schedule) =
      ground (arith, fire_due-entries endpoint disabled paused now schedule)

  -- What a round that is not paused starts.
  abbrev pub fired : Text → List Timed → List Spawned
  fired endpoint schedule = map (λ (t : Timed). fire_entry crate endpoint t.0) schedule

  fire_due-fired :
      (endpoint : Text) (disabled : List Text) (paused : Bool) (now : ℕ) (schedule : List Timed)
      → (fire_due crate endpoint disabled paused now schedule).0
        ≡ (if paused then [] else fired endpoint (retain (is_due disabled now) schedule))
  unfolding fire_due retain
  fire_due-fired endpoint disabled paused now [] = ground arith
  fire_due-fired endpoint disabled paused now ((entry, next) ∷ schedule) =
      ground (arith, fire_due-fired endpoint disabled paused now schedule)

  retain-AllLater :
      (disabled : List Text) (now : ℕ) (schedule : List Timed)
      → AllLater now schedule
      → retain (is_due disabled now) schedule ≡ []
  unfolding retain
  retain-AllLater disabled now [] later = refl
  retain-AllLater disabled now ((entry, next) ∷ schedule) later =
      ground (arith, retain-AllLater disabled now schedule)

  soonest-lt :
      (now t : ℕ) (schedule : List Timed)
      → AllLater now schedule
      → soonest crate schedule ≡ some t
      → now < t
  soonest-lt now t [] later h = cc
  soonest-lt now t ((entry, next) ∷ schedule) later h =
      elim (Option-cases (soonest crate schedule)) [
        | inl e ↦ ground arith
        | inr (other, e) ↦ ground (arith, soonest-lt now other schedule later.1 e)
      ]

  due-AllLater :
      (now : ℕ) (schedule : List Timed) → AllLater now schedule → 0 < due crate now schedule
  unfolding due
  due-AllLater now schedule later = elim (Option-cases (soonest crate schedule)) [
    | inl e ↦ rw e (omega arith)
    | inr (t, e) ↦ rw e (omega (arith, soonest-lt now t schedule later e))
  ]

  -- A round starts, where the daemon is not paused, exactly the entries that are due and whose plugin
  -- is not disabled, in their order. An entry that was due gets the next time of its expression after
  -- now, or one ten years ahead, and any other keeps its time. After a round no entry is due: another
  -- round at that time starts nothing, and the loop sleeps for a time that is not zero.
  pub fire_due-round :
      (endpoint : Text) (disabled : List Text) (paused : Bool) (now : ℕ) (schedule : List Timed)
      → let (spawned, schedule') = fire_due crate endpoint disabled paused now schedule in
        (spawned ≡ (if paused then [] else fired endpoint (retain (is_due disabled now) schedule)))
        × (schedule' ≡ map (advance now) schedule)
        × ((fire_due crate endpoint disabled paused now schedule').0 ≡ [])
        × (0 < due crate now schedule')
  fire_due-round endpoint disabled paused now schedule =
      let entries = fire_due-entries endpoint disabled paused now schedule in
      let later = AllLater-advance now schedule in
      (
        fire_due-fired endpoint disabled paused now schedule,
        entries,
        rw entries (
            fire_due-fired endpoint disabled paused now (map (advance now) schedule)
            ∙ ground (arith, retain-AllLater disabled now (map (advance now) schedule) later)),
        rw entries (due-AllLater now (map (advance now) schedule) later),
      )
