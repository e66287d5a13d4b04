-- ===== src/Daemon/Command.antt =====
-- The commands of `LocalrefDaemon` in crates/core/src/lib.rs: how each files its task, asks for
-- leave, does its work and settles the record. The work on the library is a parameter.
use localref.Base.{
  ℕ, Text, text, ◌++◌, List, [], ◌∷◌, Option, none, some, not, if◌then◌else◌, str_eq, Result, ok,
  err, unsupported, display, LocalrefError,
}
use localref.Daemon.Task.{
  DaemonTask, scan_all, import_connector, save_connector_attachment, patch_metadata,
  import_all_directory, import_file, add_item_file, delete_item, create_category,
  normalize_cat_directory, add_category, remove_category, rename_category, merge_category,
  DaemonTaskRecord, completed, failed, PauseMode, DaemonEvent, item_imported, item_deleted,
  metadata_patched, category_changed, scan_completed, daemon_paused, daemon_resumed, DaemonStatus,
}
use localref.Daemon.Queue.{
  TaskQueueState, enqueue, mark_running, finish, ensure_task_allowed, pause, resume, status,
}

-- The daemon: the queue behind its mutex, the library on disk with its index, and the events that
-- it has published, oldest first.
pub record Daemon (W : Type 0) : Type 0 where
  pub queue : TaskQueueState
  pub world : W
  pub events : List DaemonEvent

-- What a command does to the library, and with what result.
abbrev pub Work : Type 0 → Type 0 → Type 0
Work W A = W → Result A × W

-- The event that `finish_task_result` derives from a completed task.
unfoldable pub completion_event : DaemonTask → Option DaemonEvent
completion_event (delete_item id) = some (item_deleted id)
completion_event (create_category c) = some (category_changed none (some c.value))
completion_event (rename_category from to) = some (category_changed none (some to.value))
completion_event (merge_category from to) = some (category_changed none (some to.value))
completion_event (add_category id c) = some (category_changed (some id) (some c.value))
completion_event (remove_category id c) = some (category_changed (some id) (some c.value))
completion_event _ = none

abbrev pub scan_event : DaemonTask → ℕ → Option DaemonEvent
scan_event scan_all n = some (scan_completed n)
scan_event _ n = none

abbrev pub complete : DaemonTaskRecord → DaemonTaskRecord
complete r = record r { state = completed }

abbrev pub fail : LocalrefError → DaemonTaskRecord → DaemonTaskRecord
fail e r = record r { state = failed; message = some (display e) }

module _ {W : Type 0} where
  unfoldable pub emit_event : DaemonEvent → Daemon W → Daemon W
  emit_event e d = record d { events = d.events ++ e ∷ [] }

  abbrev pub emit_some : Option DaemonEvent → Daemon W → Daemon W
  emit_some none d = d
  emit_some (some e) d = emit_event e d

  unfoldable pub file : DaemonTaskRecord → Daemon W → Daemon W
  file r d = record d { queue = finish r d.queue }

  -- The tail that every command has: a completed record and perhaps an event, or a failed record.
  unfoldable pub settle :
      {A : Type 0}
      → (A → DaemonTaskRecord)
      → (A → Option DaemonEvent)
      → DaemonTaskRecord
      → Result A × Daemon W
      → Result A × Daemon W
  unfolding emit_event file
  settle done event r (ok a, d) = (ok a, file (complete (done a)) (emit_some (event a) d))
  settle done event r (err e, d) = (err e, file (fail e r) d)

  unfoldable pub finish_task_result :
      {A : Type 0} → DaemonTaskRecord → Result A × Daemon W → Result A × Daemon W
  unfolding settle completion_event
  finish_task_result r = settle (λ _. r) (λ _. completion_event r.task) r

  -- `ensure_task_allowed(..).and_then(work)`
  abbrev pub perform : {A : Type 0} → Result (Unit {0}) → Work W A → W → Result A × W
  perform (ok _) work w = work w
  perform (err e) work w = (err e, w)

  -- The head that every command has: the task is filed and marked, and the work done if allowed.
  unfoldable pub attempt :
      {A : Type 0} → DaemonTask → Work W A → Daemon W → DaemonTaskRecord × (Result A × Daemon W)
  attempt task work d =
      let (r, q) = enqueue task d.queue in
      let q' = mark_running r.id q in
      let (result, w) = perform (ensure_task_allowed task q') work d.world in
      (r, (result, record d { queue = q'; world = w }))

  -- `delete_item`, `create_category`, `add_item_category`, `remove_item_category`,
  -- `rename_category` and `merge_category`, each with its task and its work
  unfoldable pub command : {A : Type 0} → DaemonTask → Work W A → Daemon W → Result A × Daemon W
  unfolding attempt finish_task_result
  command task work d = let (r, attempted) = attempt task work d in finish_task_result r attempted

  -- `patch_metadata`: the id in the payload must be the item's own.
  unfoldable pub patch_item : {A : Type 0} → Text → Text → Work W A → Daemon W → Result A × Daemon W
  unfolding attempt settle
  patch_item item_id payload_id work d =
      if not (str_eq payload_id item_id)
      then (err (unsupported "metadata id cannot be changed"), d)
      else let (r, attempted) = attempt (patch_metadata item_id) work d in
        settle (λ _. record r { message = some (text "patched metadata for " ++ item_id) })
          (λ _. some (metadata_patched item_id)) r attempted

  -- `import_connector_item`: the work returns the outcome's item id and the number of items.
  unfoldable pub import_item : Text → Work W (Text × ℕ) → Daemon W → Result (Text × ℕ) × Daemon W
  unfolding attempt settle
  import_item title work d =
      let (r, attempted) = attempt (import_connector title) work d in
      settle
        (λ outcome. record r {
          message = some (text "imported " ++ outcome.0);
          indexed_items = some outcome.1;
        })
        (λ outcome. some (item_imported outcome.0)) r attempted

  -- The match in `execute_task`: only the scan has work of its own.
  unfoldable pub task_work : Work W (Text × ℕ) → DaemonTask → Work W (Text × ℕ)
  task_work scan scan_all w = scan w
  task_work scan (import_connector _) w =
      (err (unsupported "use import_connector_item for import tasks"), w)
  task_work scan (save_connector_attachment _) w =
      (err (unsupported "use save_connector_attachment_to_item for attachment tasks"), w)
  task_work scan (patch_metadata _) w =
      (err (unsupported "use patch_metadata for metadata patch tasks"), w)
  task_work scan (import_all_directory _) w =
      (err (unsupported "use import_all_directory for manual imports"), w)
  task_work scan (import_file _) w = (err (unsupported "use import_file for file imports"), w)
  task_work scan (add_item_file _ _) w =
      (err (unsupported "use add_file_to_item for item file additions"), w)
  task_work scan (delete_item _) w = (err (unsupported "use delete_item for item deletion"), w)
  task_work scan (create_category _) w =
      (err (unsupported "use create_category for category creation"), w)
  task_work scan (normalize_cat_directory _) w =
      (err (unsupported "use normalize_cat_directory for Cat normalization"), w)
  task_work scan (add_category _ _) w =
      (err (unsupported "use category command methods for category tasks"), w)
  task_work scan (remove_category _ _) w =
      (err (unsupported "use category command methods for category tasks"), w)
  task_work scan (rename_category _ _) w =
      (err (unsupported "use category command methods for category tasks"), w)
  task_work scan (merge_category _ _) w =
      (err (unsupported "use category command methods for category tasks"), w)

  -- `execute_task`: the scan returns its message and the number of indexed items.
  unfoldable pub execute_task :
      Work W (Text × ℕ) → DaemonTask → Daemon W → Result (Text × ℕ) × Daemon W
  unfolding attempt settle task_work
  execute_task scan task d =
      let (r, attempted) = attempt task (task_work scan task) d in
      settle (λ scanned. record r { message = some scanned.0; indexed_items = some scanned.1 })
        (λ scanned. scan_event task scanned.1) r attempted

  -- `pause` and `resume`: an event tells of a change of the set, and of nothing else.
  unfoldable pub pause_daemon : PauseMode → Daemon W → DaemonStatus × Daemon W
  unfolding emit_event
  pause_daemon mode d =
      let (changed, q) = pause mode d.queue in
      let d' = record d { queue = q } in
      (status q, if changed then emit_event daemon_paused d' else d')

  unfoldable pub resume_daemon : PauseMode → Daemon W → DaemonStatus × Daemon W
  unfolding emit_event
  resume_daemon mode d =
      let (changed, q) = resume mode d.queue in
      let d' = record d { queue = q } in
      (status q, if changed then emit_event daemon_resumed d' else d')
