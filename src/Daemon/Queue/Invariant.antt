-- ===== src/Daemon/Queue/Invariant.antt =====
-- The invariant of the task queue, kept by every interleaving of the callers' operations.
use localref.Base.{
  ℕ, ◌+◌, ◌<◌, ◌≡◌, refl, [], ◌∷◌, true, false, arith, u64_mod, succ64-eq, retain, retain-append,
}
use localref.Daemon.Task.{DaemonTask, DaemonTaskRecord, PauseMode}
use localref.Daemon.Queue.{
  TaskQueueState, new, enqueue, set_running, mark_running, knows, finish, pause, resume,
}
use localref.Daemon.Queue.Modes.{SortedFrom, insert-SortedFrom, remove-SortedFrom}
use localref.Daemon.Queue.Numbering.{
  ids, Numbered, is_unfinished, pending, ids-append, Numbered-append, knows_same_ids, knows-retain,
  ids-drop, Numbered-update, pending-mark, pending-finish,
}

-- The history holds the ids from 1 to `next_id - 1` in order, the queue holds exactly the
-- unfinished ones, and the pause modes are sorted without repetition.
pub record QueueInv (q : TaskQueueState) : Type 0 where
  pub numbered : Numbered 1 q.history q.next_id
  pub unfinished : ids q.queued ≡ ids (pending q.history)
  pub sorted : SortedFrom 0 q.paused_modes

-- One operation of some caller. A caller marks or finishes only a task that is still queued.
pub data Step : TaskQueueState → TaskQueueState → Type 0 where
  enqueues :
      (q : TaskQueueState) (t : DaemonTask) → q.next_id + 1 < u64_mod → Step q (enqueue t q).1
  marks : (q : TaskQueueState) (k : ℕ) → knows k q.queued ≡ true → Step q (mark_running k q)
  finishes :
      (q : TaskQueueState) (r : DaemonTaskRecord)
      → knows r.id q.queued ≡ true
      → is_unfinished r.state ≡ false
      → Step q (finish r q)
  pauses : (q : TaskQueueState) (m : PauseMode) → Step q (pause m q).1
  resumes : (q : TaskQueueState) (m : PauseMode) → Step q (resume m q).1

pub data Reach : TaskQueueState → Type 0 where
  start : Reach new
  next : {q r : TaskQueueState} → Reach q → Step q r → Reach r

enqueue-QueueInv :
    (q : TaskQueueState) (t : DaemonTask)
    → q.next_id + 1 < u64_mod
    → QueueInv q
    → QueueInv (enqueue t q).1
unfolding enqueue pending retain
enqueue-QueueInv q t fits v = record {
  numbered = ground (
    arith,
    succ64-eq q.next_id,
    Numbered-append 1 q.next_id q.history (enqueue t q).0 v.numbered,
  );
  unfinished = ground (
    arith,
    ids-append q.queued ((enqueue t q).0 ∷ []),
    retain-append (λ (r : DaemonTaskRecord). is_unfinished r.state) q.history
        ((enqueue t q).0 ∷ []),
    ids-append (pending q.history) ((enqueue t q).0 ∷ []),
  );
  sorted = v.sorted;
}

knows-pending :
    (q : TaskQueueState) (k : ℕ)
    → QueueInv q
    → knows k q.queued ≡ true
    → knows k (pending q.history) ≡ true
knows-pending q k v h = cc (knows_same_ids k q.queued (pending q.history) v.unfinished)

mark-QueueInv :
    (q : TaskQueueState) (k : ℕ)
    → knows k q.queued ≡ true
    → QueueInv q
    → QueueInv (mark_running k q)
unfolding mark_running
mark-QueueInv q k h v = record {
  numbered = Numbered-update k 1 q.next_id set_running q.history (λ r e. e) v.numbered;
  unfinished =
      cc (v.unfinished, pending-mark k 1 q.next_id q.history v.numbered (knows-pending q k v h));
  sorted = v.sorted;
}

-- A queued id is on file in the history.
pub knows-history :
    (q : TaskQueueState) (k : ℕ) → QueueInv q → knows k q.queued ≡ true → knows k q.history ≡ true
unfolding pending
knows-history q k v h =
    knows-retain (λ (r : DaemonTaskRecord). is_unfinished r.state) k q.history
      (knows-pending q k v h)

finish-QueueInv :
    (q : TaskQueueState) (r : DaemonTaskRecord)
    → knows r.id q.queued ≡ true
    → is_unfinished r.state ≡ false
    → QueueInv q
    → QueueInv (finish r q)
unfolding finish
finish-QueueInv q r h final v = record {
  numbered = ground (
    arith,
    knows-history q r.id v h,
    Numbered-update r.id 1 q.next_id (λ _. r) q.history (λ _ _. refl) v.numbered,
  );
  unfinished = ground (
    arith,
    knows-history q r.id v h,
    ids-drop r.id q.queued,
    pending-finish r 1 q.next_id q.history v.numbered final,
  );
  sorted = v.sorted;
}

-- Every operation keeps the invariant.
pub Step-QueueInv : {q r : TaskQueueState} → Step q r → QueueInv q → QueueInv r
unfolding pause resume
Step-QueueInv (enqueues q t fits) v = enqueue-QueueInv q t fits v
Step-QueueInv (marks q k h) v = mark-QueueInv q k h v
Step-QueueInv (finishes q r h final) v = finish-QueueInv q r h final v
Step-QueueInv (pauses q m) v = record {
  numbered = v.numbered;
  unfinished = v.unfinished;
  sorted = insert-SortedFrom m 0 q.paused_modes v.sorted (omega arith);
}
Step-QueueInv (resumes q m) v = record {
  numbered = v.numbered;
  unfinished = v.unfinished;
  sorted = remove-SortedFrom m 0 q.paused_modes v.sorted;
}

pub new-QueueInv : QueueInv new
unfolding new pending
new-QueueInv = record { numbered = refl; unfinished = refl; sorted = tt }

-- In every state that interleaved callers can reach before the ids wrap around, each marking or
-- finishing only a task that is still queued, the history holds the ids from 1 up in order, the queue
-- holds exactly the records that are queued or running, and the pause modes are sorted.
pub Reach-QueueInv : {q : TaskQueueState} → Reach q → QueueInv q
Reach-QueueInv start = new-QueueInv
Reach-QueueInv (next r s) = Step-QueueInv s (Reach-QueueInv r)
