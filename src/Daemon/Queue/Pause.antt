-- ===== src/Daemon/Queue/Pause.antt =====
-- What the pause modes let through, and how `pause` and `resume` undo one another.
use localref.Base.{◌≡◌, refl, ◌↔◌, List, [], ◌∷◌, Bool, true, false, not, arith, ok, ap}
use localref.Daemon.Task.{DaemonTask, scan_all, PauseMode, all, writes, watcher, indexing}
use localref.Daemon.Queue.{TaskQueueState, ensure_task_allowed, pause, resume}
use localref.Daemon.Queue.Modes.{
  contains_mode, insert_mode, remove_mode, contains-insert, changed-insert,
}
use localref.Daemon.Queue.Invariant.{QueueInv}

-- Which mode stops which task.
abbrev pub blocks : PauseMode → DaemonTask → Bool
blocks all _ = true
blocks writes _ = true
blocks watcher _ = false
blocks indexing scan_all = true
blocks indexing _ = false

allowed-blocks :
    (t : DaemonTask) (q : TaskQueueState)
    → ensure_task_allowed t q ≡ ok tt
    → (m : PauseMode) → contains_mode m q.paused_modes ≡ true
    → blocks m t ≡ false
unfolding ensure_task_allowed
allowed-blocks scan_all q h all c = ground arith
allowed-blocks scan_all q h writes c = ground arith
allowed-blocks scan_all q h watcher c = refl
allowed-blocks scan_all q h indexing c = ground arith
allowed-blocks _ q h all c = ground arith
allowed-blocks _ q h writes c = ground arith
allowed-blocks _ q h watcher c = refl
allowed-blocks _ q h indexing c = refl

blocks-allowed :
    (t : DaemonTask) (q : TaskQueueState)
    → ((m : PauseMode) → contains_mode m q.paused_modes ≡ true → blocks m t ≡ false)
    → ensure_task_allowed t q ≡ ok tt
unfolding ensure_task_allowed
blocks-allowed scan_all q h = ground (arith, h all, h writes, h indexing)
blocks-allowed _ q h = ground (arith, h all, h writes)

-- A task is let through exactly if no paused mode blocks it: `all` and `writes` block every task,
-- `indexing` blocks the scan alone, and `watcher` blocks nothing.
pub ensure_task_allowed_iff :
    (t : DaemonTask) (q : TaskQueueState)
    → (ensure_task_allowed t q ≡ ok tt)
      ↔ ((m : PauseMode) → contains_mode m q.paused_modes ≡ true → blocks m t ≡ false)
ensure_task_allowed_iff t q = (allowed-blocks t q, blocks-allowed t q)

remove-insert :
    (m : PauseMode) (xs : List PauseMode)
    → contains_mode m xs ≡ false
    → (remove_mode m (insert_mode m xs).0).0 ≡ xs
unfolding contains_mode insert_mode remove_mode
remove-insert m [] h = ground arith
remove-insert m (x ∷ xs) h = ground (arith, remove-insert m xs)

pub remove_changed :
    (m : PauseMode) (xs : List PauseMode) → (remove_mode m xs).1 ≡ contains_mode m xs
unfolding contains_mode remove_mode
remove_changed m [] = refl
remove_changed m (x ∷ xs) = ground (arith, remove_changed m xs)

-- From a queue in order: pausing reports a change exactly if the mode was not paused, afterwards it
-- is paused, and resuming it then reports a change; if it was not paused before, that gives back
-- the queue itself.
pub resume-pause :
    (m : PauseMode) (q : TaskQueueState)
    → QueueInv q
    → ((pause m q).0 ≡ not (contains_mode m q.paused_modes))
      × (contains_mode m (pause m q).1.paused_modes ≡ true)
      × ((resume m (pause m q).1).0 ≡ true)
      × (contains_mode m q.paused_modes ≡ false → (resume m (pause m q).1).1 ≡ q)
unfolding pause resume
resume-pause m q v = (
  changed-insert m 0 q.paused_modes v.sorted,
  ground (arith, contains-insert m m q.paused_modes),
  ground (
    arith,
    contains-insert m m q.paused_modes,
    remove_changed m (insert_mode m q.paused_modes).0,
  ),
  λ fresh. ap (λ ms. record q { paused_modes = ms }) (remove-insert m q.paused_modes fresh),
)
