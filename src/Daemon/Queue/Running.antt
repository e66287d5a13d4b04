-- ===== src/Daemon/Queue/Running.antt =====
-- The `running` flag of the queue when two callers overlap.
use localref.Base.{
  ℕ, ◌+◌, ◌<◌, ◌≡◌, refl, List, [], ◌∷◌, ◌++◌, Bool, true, false, ◌||◌, ◌&&◌, ◌==◌, arith, u64_mod,
  succ64-eq,
}
use localref.Daemon.Task.{DaemonTask, DaemonTaskRecord, DaemonTaskState, running}
use localref.Daemon.Queue.{
  TaskQueueState, enqueue, update_first, set_running, mark_running, knows, finish,
}
use localref.Daemon.Queue.Numbering.{is_unfinished}
use localref.Daemon.Queue.Invariant.{
  Reach, next, enqueues, marks, finishes, Reach-QueueInv, knows-history,
}

abbrev pub is_running : DaemonTaskState → Bool
is_running running = true
is_running _ = false

-- Whether the record with this id is marked as running.
abbrev pub runs : ℕ → List DaemonTaskRecord → Bool
runs k [] = false
runs k (r ∷ rs) = (r.id == k && is_running r.state) || runs k rs

-- A caller files its task and starts it.
abbrev pub begin : DaemonTask → TaskQueueState → TaskQueueState
begin t q = mark_running q.next_id (enqueue t q).1

runs-mark :
    (k : ℕ) (hs : List DaemonTaskRecord) (r : DaemonTaskRecord)
    → r.id ≡ k
    → runs k (update_first k set_running (hs ++ r ∷ [])) ≡ true
unfolding update_first
runs-mark k [] r e = ground arith
runs-mark k (x ∷ xs) r e = ground (arith, runs-mark k xs r)

runs-update :
    (k : ℕ) (x : DaemonTaskRecord) (hs : List DaemonTaskRecord)
    → (x.id == k) ≡ false
    → runs k (update_first x.id (λ _. x) hs) ≡ runs k hs
unfolding update_first
runs-update k x [] ne = refl
runs-update k x (r ∷ rs) ne = ground (arith, runs-update k x rs)

knows-append :
    (k : ℕ) (xs ys : List DaemonTaskRecord) → knows k (xs ++ ys) ≡ (knows k xs || knows k ys)
unfolding knows
knows-append k [] ys = refl
knows-append k (x ∷ xs) ys = ground (arith, knows-append k xs ys)

begin-Reach :
    (t : DaemonTask) (q : TaskQueueState) → Reach q → q.next_id + 1 < u64_mod → Reach (begin t q)
unfolding enqueue knows
begin-Reach t q reached fits = next (next reached (enqueues q t fits)) (
    marks (enqueue t q).1 q.next_id
      (ground (arith, knows-append q.next_id q.queued ((enqueue t q).0 ∷ []))))

-- A task that has begun takes the next id and is queued and running.
begin_facts :
    (t : DaemonTask) (q : TaskQueueState)
    → q.next_id + 1 < u64_mod
    → ((begin t q).next_id ≡ q.next_id + 1)
      × (runs q.next_id (begin t q).history ≡ true)
      × (knows q.next_id (begin t q).queued ≡ true)
unfolding enqueue mark_running knows
begin_facts t q fits = (
  succ64-eq q.next_id fits,
  runs-mark q.next_id q.history (enqueue t q).0 refl,
  ground (arith, knows-append q.next_id q.queued ((enqueue t q).0 ∷ [])),
)

knows-begin :
    (k : ℕ) (t : DaemonTask) (q : TaskQueueState)
    → knows k q.queued ≡ true
    → knows k (begin t q).queued ≡ true
unfolding enqueue mark_running
knows-begin k t q h = ground (arith, knows-append k q.queued ((enqueue t q).0 ∷ []))

-- Two callers overlap: the first to finish clears the `running` flag, though the record of the
-- other is still marked as running. This happens from every reachable state that
-- has two ids left.
pub running-finish_overlap :
    (t u : DaemonTask) (q : TaskQueueState) (x : DaemonTaskRecord)
    → Reach q
    → q.next_id + 2 < u64_mod
    → x.id ≡ q.next_id
    → is_unfinished x.state ≡ false
    → let r = finish x (begin u (begin t q)) in
      Reach r × (r.running ≡ false) × (runs (q.next_id + 1) r.history ≡ true)
unfolding finish
running-finish_overlap t u q x reached fits e final =
    let (id, _, filed) = begin_facts t q (omega arith) in
    let (_, marked, _) = begin_facts u (begin t q) (omega arith) in
    let once : Reach (begin t q) = begin-Reach t q reached (omega arith) in
    let twice : Reach (begin u (begin t q)) = begin-Reach u (begin t q) once (omega arith) in
    let known : knows x.id (begin u (begin t q)).queued ≡ true =
      knows-begin x.id u (begin t q) (rw e filed) in
    let on_file : knows x.id (begin u (begin t q)).history ≡ true =
      knows-history (begin u (begin t q)) x.id (Reach-QueueInv twice) known in
    (
      next twice (finishes (begin u (begin t q)) x known final),
      refl,
      ground
          (arith, on_file, marked, id, runs-update (q.next_id + 1) x (begin u (begin t q)).history),
    )
