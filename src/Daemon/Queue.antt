-- ===== src/Daemon/Queue.antt =====
-- `TaskQueueState` of crates/core/src/lib.rs and the methods that lock it. Each takes the mutex
-- once, so an interleaving of callers is a sequence of these operations.
pub mod Modes
pub mod Numbering
pub mod Invariant
pub mod Pause
pub mod Running
use localref.Base.{
  ℕ, String, Text, List, [], ◌∷◌, ◌++◌, Option, none, some, Bool, true, false, not, ◌||◌, ◌==◌,
  if◌then◌else◌, length, find, retain, Result, ok, err, unsupported, succ64, is_empty,
}
use localref.Daemon.Task.{
  DaemonTask, scan_all, DaemonTaskState, queued, running, PauseMode, all, writes, indexing,
  DaemonTaskRecord, DaemonStatus, import_connector, save_connector_attachment,
}
use Modes.{contains_mode, insert_mode, remove_mode}

pub record TaskQueueState : Type 0 where
  pub next_id : ℕ
  pub running : Bool
  pub queued : List DaemonTaskRecord
  pub history : List DaemonTaskRecord
  pub paused_modes : List PauseMode

-- The queue that `LocalrefDaemon::new` makes.
unfoldable pub new : TaskQueueState
new = record { next_id = 1; running = false; queued = []; history = []; paused_modes = [] }

-- `enqueue` returns the record that it files.
unfoldable pub enqueue : DaemonTask → TaskQueueState → DaemonTaskRecord × TaskQueueState
enqueue task q = (
  new_record,
  record q {
    next_id = succ64 q.next_id;
    queued = q.queued ++ new_record ∷ [];
    history = q.history ++ new_record ∷ [];
  },
)
  where
    new_record : DaemonTaskRecord
    new_record = record {
      id = q.next_id;
      task = task;
      state = queued;
      message = none;
      indexed_items = none;
    }

-- The first record with this id, changed in place.
unfoldable pub update_first :
    ℕ → (DaemonTaskRecord → DaemonTaskRecord) → List DaemonTaskRecord → List DaemonTaskRecord
update_first id f [] = []
update_first id f (r ∷ rs) =
    let rest = update_first id f rs in if r.id == id then f r ∷ rs else r ∷ rest

abbrev pub set_running : DaemonTaskRecord → DaemonTaskRecord
set_running r = record r { state = running }

unfoldable pub mark_running : ℕ → TaskQueueState → TaskQueueState
unfolding update_first
mark_running id q = record q { running = true; history = update_first id set_running q.history }

-- Whether a record of this id is on file.
unfoldable pub knows : ℕ → List DaemonTaskRecord → Bool
knows id [] = false
knows id (r ∷ rs) = r.id == id || knows id rs

unfoldable pub finish : DaemonTaskRecord → TaskQueueState → TaskQueueState
unfolding retain update_first knows
finish r q = record q {
  running = false;
  queued = retain (λ (x : DaemonTaskRecord). not (x.id == r.id)) q.queued;
  history =
      if knows r.id q.history then update_first r.id (λ _. r) q.history else q.history ++ r ∷ [];
}

unfoldable pub status : TaskQueueState → DaemonStatus
status q = record {
  running = q.running;
  queued_tasks = length q.queued;
  recent_tasks = q.history;
  paused_modes = q.paused_modes;
}

-- The two arms of the match in `ensure_task_allowed`: the scan, and the thirteen other tasks.
abbrev arm : DaemonTask → List PauseMode → Result (Unit {0})
arm scan_all modes =
    if contains_mode indexing modes || contains_mode writes modes
    then err (unsupported "indexing is paused")
    else ok tt
arm _ modes = if contains_mode writes modes then err (unsupported "writes are paused") else ok tt

unfoldable pub ensure_task_allowed : DaemonTask → TaskQueueState → Result (Unit {0})
unfolding contains_mode
ensure_task_allowed task q =
    if contains_mode all q.paused_modes
    then err (unsupported "daemon is paused")
    else arm task q.paused_modes

-- `pause` and `resume` up to the event: the Boolean says whether the set changed.
unfoldable pub pause : PauseMode → TaskQueueState → Bool × TaskQueueState
unfolding insert_mode
pause mode q =
    let (modes, changed) = insert_mode mode q.paused_modes in
    (changed, record q { paused_modes = modes })

unfoldable pub resume : PauseMode → TaskQueueState → Bool × TaskQueueState
unfolding remove_mode
resume mode q =
    let (modes, changed) = remove_mode mode q.paused_modes in
    (changed, record q { paused_modes = modes })
