-- ===== src/Examples/Queues.antt =====
-- Runs of the task queue and of the commands of crates/core/src/lib.rs.
use localref.Base.{ℕ, ◌≡◌, ◌↔◌, Text, text, List, [], ◌∷◌, true, false, ok, arith}
use localref.Types.CategoryPath.{CategoryPath}
use localref.Daemon.Task.{
  DaemonTask, scan_all, create_category, PauseMode, writes, DaemonTaskRecord,
}
use localref.Daemon.Queue.{TaskQueueState, new, enqueue, pause, ensure_task_allowed}
use localref.Daemon.Queue.Invariant.{
  QueueInv, pauses, enqueues, Reach, start, next, Reach-QueueInv, new-QueueInv,
}
use localref.Daemon.Queue.Modes.{contains_mode}
use localref.Daemon.Queue.Pause.{blocks, ensure_task_allowed_iff}
use localref.Daemon.Command.{Daemon, Work, completion_event, command, complete}
use localref.Daemon.Lifecycle.{filed_record, outcome, permitted, command-outcome}

abbrev robotics : CategoryPath
robotics = record { value = text "Robotics" }

abbrev creates : DaemonTask
creates = create_category robotics

-- A queue in which writes are paused.
abbrev paused_queue : TaskQueueState
paused_queue = (pause writes new).1

paused_queue-Reach : Reach paused_queue
paused_queue-Reach = next start (pauses new writes)

abbrev queued_once : TaskQueueState
queued_once = (enqueue scan_all paused_queue).1

queued_once-Reach : Reach queued_once
unfolding pause new
queued_once-Reach = next paused_queue-Reach (enqueues paused_queue scan_all (omega arith))

-- The library is the list of its item ids.
abbrev Library : Type 0
Library = List Text

abbrev add_demo : Work Library ℕ
add_demo w = (ok 1, text "demo" ∷ w)

abbrev count_items : Work Library (Text × ℕ)
count_items w = (ok (text "scan complete", 3), w)

abbrev daemon : Daemon Library
daemon = record { queue = new; world = []; events = [] }

abbrev paused_daemon : Daemon Library
paused_daemon = record { queue = paused_queue; world = []; events = [] }

Reach-QueueInv_example : QueueInv queued_once
Reach-QueueInv_example = Reach-QueueInv queued_once-Reach

ensure_task_allowed_iff_example : (ensure_task_allowed scan_all queued_once ≡ ok tt) ↔ (
    (m : PauseMode) → contains_mode m queued_once.paused_modes ≡ true → blocks m scan_all ≡ false)
ensure_task_allowed_iff_example = ensure_task_allowed_iff scan_all queued_once

-- The final record of the first task.
abbrev first_done : DaemonTaskRecord
first_done = complete (filed_record new scan_all)

command-outcome_example :
    command creates add_demo daemon
    ≡ outcome
        (λ _. filed_record new creates)
        (λ _. completion_event creates)
        creates
        daemon
        (permitted creates add_demo daemon)
unfolding new
command-outcome_example = command-outcome creates add_demo daemon new-QueueInv (omega arith)
