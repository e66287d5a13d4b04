-- ===== src/Daemon/Indexing.antt =====
-- What `execute_task` of crates/core/src/lib.rs comes to, and the status that `pause` and `resume`
-- answer with.
use localref.Base.{
  ℕ, ◌+◌, ◌<◌, ◌≡◌, refl, List, [], ◌∷◌, ◌++◌, some, true, false, not, arith, u64_mod, Text, text,
  err, if◌then◌else◌, LocalrefError, Bool-cases, inl, inr,
}
use localref.Daemon.Task.{
  DaemonTask, scan_all, import_connector, item_imported, PauseMode, daemon_paused, daemon_resumed,
}
use localref.Daemon.Queue.{enqueue, mark_running, ensure_task_allowed, pause, resume, status}
use localref.Daemon.Queue.Invariant.{QueueInv}
use localref.Daemon.Queue.Modes.{
  contains_mode, insert_mode, remove_mode, contains-insert, changed-insert, contains-remove,
}
use localref.Daemon.Queue.Pause.{remove_changed}
use localref.Daemon.Command.{
  Daemon, Work, emit_event, scan_event, task_work, execute_task, import_item, pause_daemon,
  resume_daemon, attempt,
}
use localref.Daemon.Lifecycle.{filed_record, outcome, permitted, settle-outcome}

module _ {W : Type 0} where
  -- From a queue in order, with an id left, `execute_task` comes to the result of the scan, done only for a scan task that the pause modes
  -- let through: its record gets the scan's message and the number of indexed items, and the
  -- completed scan is published with that number.
  pub execute_task-outcome :
      (scan : Work W (Text × ℕ)) (t : DaemonTask) (d : Daemon W)
      → QueueInv d.queue
      → d.queue.next_id + 1 < u64_mod
      → execute_task scan t d
        ≡ outcome
            (λ scanned. record (filed_record d.queue t) {
              message = some scanned.0;
              indexed_items = some scanned.1;
            })
            (λ scanned. scan_event t scanned.1)
            t
            d
            (permitted t (task_work scan t) d)
  unfolding execute_task attempt enqueue mark_running ensure_task_allowed
  execute_task-outcome scan t d v fits =
      settle-outcome
        (λ scanned. record (filed_record d.queue t) {
          message = some scanned.0;
          indexed_items = some scanned.1;
        })
        (λ scanned. scan_event t scanned.1) t d (permitted t (task_work scan t) d) (λ _. refl) v
        fits

  -- From a queue in order, with an id left, a connector import comes to the result of its work, done
  -- only if the pause modes let its task through: its record gets the item's id
  -- as its message and the number of indexed items, and the imported item is published.
  pub import_item-outcome :
      (title : Text) (work : Work W (Text × ℕ)) (d : Daemon W)
      → QueueInv d.queue
      → d.queue.next_id + 1 < u64_mod
      → let t = import_connector title in
        import_item title work d
        ≡ outcome
            (λ imported. record (filed_record d.queue t) {
              message = some (text "imported " ++ imported.0);
              indexed_items = some imported.1;
            })
            (λ imported. some (item_imported imported.0))
            t
            d
            (permitted t work d)
  unfolding import_item attempt enqueue mark_running ensure_task_allowed
  import_item-outcome title work d v fits =
      settle-outcome
        (λ imported. record (filed_record d.queue (import_connector title)) {
          message = some (text "imported " ++ imported.0);
          indexed_items = some imported.1;
        })
        (λ imported. some (item_imported imported.0)) (import_connector title) d
        (permitted (import_connector title) work d) (λ _. refl) v fits

  -- A task other than the scan fails in `execute_task` and leaves the library as it was.
  pub task_work_unsupported :
      (scan : Work W (Text × ℕ)) (t : DaemonTask) (w : W)
      → (t ≡ scan_all → ⊥)
      → (e : LocalrefError) × (task_work scan t w ≡ (err e, w))
  unfolding task_work
  task_work_unsupported scan scan_all w other = absurd (other refl)
  task_work_unsupported scan _ w other = (_, refl)

  -- From a queue in order: pausing answers with a status in which the mode is paused, resuming with
  -- one in which it is not. Each publishes its event exactly if it changed the set of modes, and
  -- neither touches the library.
  pub pause_daemon_events :
      (m : PauseMode) (d : Daemon W)
      → QueueInv d.queue
      → (contains_mode m (pause_daemon m d).0.paused_modes ≡ true)
        × (contains_mode m (resume_daemon m d).0.paused_modes ≡ false)
        × ((pause_daemon m d).1.events ≡ (
            if contains_mode m d.queue.paused_modes
            then d.events
            else d.events ++ daemon_paused ∷ []))
        × ((resume_daemon m d).1.events ≡ (
            if contains_mode m d.queue.paused_modes
            then d.events ++ daemon_resumed ∷ []
            else d.events))
        × ((pause_daemon m d).1.world ≡ d.world)
        × ((resume_daemon m d).1.world ≡ d.world)
  unfolding pause_daemon resume_daemon pause resume status emit_event
  pause_daemon_events m d v =
      let modes : List PauseMode = d.queue.paused_modes in
      let added : (insert_mode m modes).1 ≡ not (contains_mode m modes) =
        changed-insert m 0 modes v.sorted in
      let dropped : (remove_mode m modes).1 ≡ contains_mode m modes = remove_changed m modes in
      let present : contains_mode m (insert_mode m modes).0 ≡ true =
        ground (arith, contains-insert m m modes) in
      let absent : contains_mode m (remove_mode m modes).0 ≡ false =
        ground (arith, contains-remove m m 0 modes v.sorted) in
      elim (Bool-cases (contains_mode m modes)) [
        | inl c ↦ simp (added, dropped, present, absent, c) (refl, refl, refl, refl, refl, refl)
        | inr c ↦ simp (added, dropped, present, absent, c) (refl, refl, refl, refl, refl, refl)
      ]
