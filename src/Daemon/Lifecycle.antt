-- ===== src/Daemon/Lifecycle.antt =====
-- What a command leaves behind: its record in the history, the queue as it was, and its event.
use localref.Base.{
  ℕ, suc, ◌+◌, ◌<◌, ◌≤◌, ◌≡◌, refl, ap, List, [], ◌∷◌, ◌++◌, Option, none, some, Bool, true, false,
  not, ◌==◌, arith, u64_mod, Text, text, str_eq, unsupported, ◌∙◌, Result, ok, err, LocalrefError,
  retain, Bool-cases, inl, inr, if◌then◌else◌, succ64-eq,
}
use localref.Daemon.Task.{
  DaemonTask, DaemonTaskRecord, queued, DaemonEvent, PauseMode, patch_metadata, metadata_patched,
}
use localref.Daemon.Queue.{
  TaskQueueState, enqueue, update_first, set_running, mark_running, knows, finish,
  ensure_task_allowed,
}
use localref.Daemon.Queue.Numbering.{Numbered, pending, is_unfinished, knows_same_ids}
use localref.Daemon.Queue.Invariant.{QueueInv}
use localref.Daemon.Queue.Modes.{contains_mode}
use localref.Daemon.Queue.Pause.{blocks, ensure_task_allowed_iff}
use localref.Daemon.Command.{
  Daemon, Work, completion_event, complete, fail, emit_event, emit_some, perform, file, settle,
  finish_task_result, attempt, command, patch_item,
}

Numbered-le : (n m : ℕ) (hs : List DaemonTaskRecord) → Numbered n hs m → n ≤ m
Numbered-le n m [] h = omega arith
Numbered-le n m (r ∷ rs) h = omega (arith, Numbered-le (suc n) m rs h.1)

knows-above :
    (p : DaemonTaskRecord → Bool) (k n m : ℕ) (hs : List DaemonTaskRecord)
    → Numbered n hs m
    → m ≤ k
    → knows k (retain p hs) ≡ false
unfolding knows retain
knows-above p k n m [] h le = refl
knows-above p k n m (r ∷ rs) h le =
    ground (arith, Numbered-le (suc n) m rs h.1, knows-above p k (suc n) m rs)

knows-last : (hs : List DaemonTaskRecord) (r : DaemonTaskRecord) → knows r.id (hs ++ r ∷ []) ≡ true
unfolding knows
knows-last [] r = ground arith
knows-last (x ∷ xs) r = ground (arith, knows-last xs r)

update-last :
    (f : DaemonTaskRecord → DaemonTaskRecord) (n m : ℕ) (hs : List DaemonTaskRecord)
    (r : DaemonTaskRecord)
    → Numbered n hs m
    → r.id ≡ m
    → update_first m f (hs ++ r ∷ []) ≡ hs ++ f r ∷ []
unfolding update_first
update-last f n m [] r h e = ground arith
update-last f n m (x ∷ xs) r h e =
    ground (arith, Numbered-le (suc n) m xs h.1, update-last f (suc n) m xs r)

drop-last :
    (k : ℕ) (qs : List DaemonTaskRecord) (r : DaemonTaskRecord)
    → knows k qs ≡ false
    → r.id ≡ k
    → retain (λ (x : DaemonTaskRecord). not (x.id == k)) (qs ++ r ∷ []) ≡ qs
unfolding knows retain
drop-last k [] r h e = ground arith
drop-last k (x ∷ xs) r h e = ground (arith, drop-last k xs r)

-- A blocked task is refused with some error.
refused :
    (m : PauseMode) (t : DaemonTask) (q : TaskQueueState)
    → contains_mode m q.paused_modes ≡ true
    → blocks m t ≡ true
    → (e : LocalrefError) × (ensure_task_allowed t q ≡ err e)
refused m t q paused stops = go (ensure_task_allowed t q) refl
  where
    go :
        (r : Result (Unit {0}))
        → ensure_task_allowed t q ≡ r
        → (e : LocalrefError) × (ensure_task_allowed t q ≡ err e)
    go (err e) h = (e, h)
    go (ok tt) h = cc ((ensure_task_allowed_iff t q).0 h m paused, stops)

-- A queue after one more task that ran to its end: nothing runs, nothing new is queued, and the
-- task's final record is the last of the history.
abbrev pub settled : TaskQueueState → DaemonTaskRecord → TaskQueueState
settled q x = record q { next_id = q.next_id + 1; running = false; history = q.history ++ x ∷ [] }

fresh_id : (q : TaskQueueState) → QueueInv q → knows q.next_id q.queued ≡ false
unfolding pending
fresh_id q v = cc (
  knows_same_ids q.next_id q.queued (pending q.history) v.unfinished,
  knows-above (λ (r : DaemonTaskRecord). is_unfinished r.state) q.next_id 1 q.next_id q.history
      v.numbered (omega arith),
)

finish-mark-enqueue :
    (q : TaskQueueState) (t : DaemonTask) (x : DaemonTaskRecord)
    → QueueInv q
    → q.next_id + 1 < u64_mod
    → x.id ≡ q.next_id
    → finish x (mark_running q.next_id (enqueue t q).1) ≡ settled q x
unfolding enqueue mark_running finish
finish-mark-enqueue q t x v fits e =
    let r : DaemonTaskRecord = (enqueue t q).0 in
    simp (
      update-last set_running 1 q.next_id q.history r v.numbered refl,
      e,
      knows-last q.history (set_running r),
      update-last (λ _. x) 1 q.next_id q.history (set_running r) v.numbered refl,
      drop-last q.next_id q.queued r (fresh_id q v) refl,
      succ64-eq q.next_id fits,
    )

-- The record that a command files: as it was queued, and then completed or failed.
abbrev pub filed_record : TaskQueueState → DaemonTask → DaemonTaskRecord
filed_record q t = record {
  id = q.next_id;
  task = t;
  state = queued;
  message = none;
  indexed_items = none;
}

module _ {W : Type 0} where
  file-emit :
      (x : DaemonTaskRecord) (e : Option DaemonEvent) (d : Daemon W) (q : TaskQueueState)
      → finish x d.queue ≡ q
      → file x (emit_some e d) ≡ emit_some e (record d { queue = q })
  unfolding file emit_event
  file-emit x none d q h = ap (λ y. record d { queue = y }) h
  file-emit x (some e) d q h =
      ap (λ y. record { queue = y; world = d.world; events = d.events ++ e ∷ [] }) h

module _ {W A : Type 0} where
  -- What a command comes to, given its record and its event on success and the result of its work.
  abbrev pub outcome :
      (A → DaemonTaskRecord)
      → (A → Option DaemonEvent)
      → DaemonTask
      → Daemon W
      → Result A × W
      → Result A × Daemon W
  outcome done event t d (ok a, w) = (
    ok a,
    emit_some (event a) (record d { queue = settled d.queue (complete (done a)); world = w }),
  )
  outcome done event t d (err e, w) =
      (err e, record d { queue = settled d.queue (fail e (filed_record d.queue t)); world = w })

  -- The work of a command, done only if the pause modes let its task through.
  abbrev pub permitted : DaemonTask → Work W A → Daemon W → Result A × W
  permitted t work d = perform (ensure_task_allowed t d.queue) work d.world

  module _ (done : A → DaemonTaskRecord) (event : A → Option DaemonEvent) where
    pub settle-outcome :
        (t : DaemonTask) (d : Daemon W) (r : Result A × W)
        → ((a : A) → (done a).id ≡ d.queue.next_id)
        → QueueInv d.queue
        → d.queue.next_id + 1 < u64_mod
        → settle done event (filed_record d.queue t) (
          r.0,
          record d { queue = mark_running d.queue.next_id (enqueue t d.queue).1; world = r.1 },
        )
          ≡ outcome done event t d r
    unfolding settle
    settle-outcome t d (ok a, w) own v fits =
        let x : DaemonTaskRecord = complete (done a) in
        ap (λ y. (ok a, y))
          (file-emit x (event a) _ (settled d.queue x)
            (finish-mark-enqueue d.queue t x v fits (own a)))
    settle-outcome t d (err e, w) own v fits =
        let x : DaemonTaskRecord = fail e (filed_record d.queue t) in
        ap (λ y. (err e, y))
          (file-emit x none _ (settled d.queue x) (finish-mark-enqueue d.queue t x v fits refl))

  -- From a queue in order, with an id left, a category or delete command comes to the result of its
  -- work, done only if the pause modes let its task through: its one record is the last of the history, completed or failed with the
  -- error's text, nothing more is queued, and its completion event is published exactly if it
  -- succeeded.
  pub command-outcome :
      (t : DaemonTask) (work : Work W A) (d : Daemon W)
      → QueueInv d.queue
      → d.queue.next_id + 1 < u64_mod
      → command t work d
        ≡ outcome (λ _. filed_record d.queue t) (λ _. completion_event t) t d (permitted t work d)
  unfolding command attempt enqueue mark_running ensure_task_allowed finish_task_result
  command-outcome t work d v fits =
      settle-outcome (λ _. filed_record d.queue t) (λ _. completion_event t) t d
        (permitted t work d) (λ _. refl) v fits

  -- A metadata patch with another id in its payload changes nothing, not even the history.
  -- Otherwise, from a queue in order with an id left, it comes to the result of its work in the same
  -- way, and publishes that the metadata of the item changed.
  pub patch_item-outcome :
      (item_id payload_id : Text) (work : Work W A) (d : Daemon W)
      → QueueInv d.queue
      → d.queue.next_id + 1 < u64_mod
      → let t = patch_metadata item_id in
        patch_item item_id payload_id work d ≡ (
          if str_eq payload_id item_id
          then outcome
              (λ _. record (filed_record d.queue t) {
                message = some (text "patched metadata for " ++ item_id);
              })
              (λ _. some (metadata_patched item_id))
              t
              d
              (permitted t work d)
          else (err (unsupported "metadata id cannot be changed"), d))
  unfolding patch_item attempt enqueue mark_running ensure_task_allowed
  patch_item-outcome item_id payload_id work d v fits =
      elim (Bool-cases (str_eq payload_id item_id)) [
        | inl own ↦ rw own (
            settle-outcome
              (λ _. record (filed_record d.queue (patch_metadata item_id)) {
                message = some (text "patched metadata for " ++ item_id);
              })
              (λ _. some (metadata_patched item_id)) (patch_metadata item_id) d
              (permitted (patch_metadata item_id) work d) (λ _. refl) v fits)
        | inr other ↦ rw other
      ]

  -- While a mode that blocks its task is paused, a command on a queue in order with an id left fails, leaves the library alone,
  -- publishes nothing, and files one failed record.
  pub command_paused :
      (m : PauseMode) (t : DaemonTask) (work : Work W A) (d : Daemon W)
      → QueueInv d.queue
      → d.queue.next_id + 1 < u64_mod
      → contains_mode m d.queue.paused_modes ≡ true
      → blocks m t ≡ true
      → (e : LocalrefError) × (command t work d
          ≡ (err e, record d { queue = settled d.queue (fail e (filed_record d.queue t)) }))
  command_paused m t work d v fits paused stops =
      let (e, h) = refused m t d.queue paused stops in (e, command-outcome t work d v fits ∙ rw h)
