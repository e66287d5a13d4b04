-- ===== src/Library/Commands.antt =====
-- The category commands of crates/core/src/lib.rs as the daemon runs them: with their task, the pause
-- modes and the completion event around their work on the library.
use localref.Base.{
  ◌+◌, ◌<◌, Text, ◌≡◌, refl, sym, subst, ap, ◌∙◌, [], ◌∷◌, ◌++◌, Bool, some, Result, ok, err,
  u64_mod,
}
use localref.Types.CategoryPath.{CategoryPath}
use localref.Model.Manifest.Laws.{IsTidy}
use localref.Library.State.{LibraryState, ItemDocument, get_item}
use localref.Library.Categories.{
  create_category, add_item_category, remove_item_category, delete_item,
}
use localref.Library.Outcome.{Listed, add_item_category-Listed}
use localref.Daemon.Task.{
  DaemonTask, DaemonTaskRecord, DaemonEvent, category_changed, add_category, remove_category,
}
use localref.Daemon.Queue.{ensure_task_allowed}
use localref.Daemon.Queue.Invariant.{QueueInv}
use localref.Daemon.Command.{Daemon, Work, command, completion_event, complete, perform, emit_event}
use localref.Daemon.Lifecycle.{filed_record, settled, outcome, permitted, command-outcome}

abbrev pub Method : Type 0 → Type 0
Method A = Daemon LibraryState → Result A × Daemon LibraryState

unfoldable pub create_category_command : CategoryPath → Method (Unit {0})
create_category_command category =
    command (DaemonTask.create_category category) (create_category category)

unfoldable pub add_item_category_command : Text → CategoryPath → Method (Unit {0})
add_item_category_command id category =
    command (add_category id category) (add_item_category id category)

unfoldable pub remove_item_category_command : Text → CategoryPath → Method (Unit {0})
remove_item_category_command id category =
    command (remove_category id category) (remove_item_category id category)

unfoldable pub delete_item_command : Text → Method Bool
delete_item_command id = command (DaemonTask.delete_item id) (delete_item id)

module _ {W A : Type 0} where
  performed :
      (r : Result (Unit {0})) (work : Work W A) (w : W) (a : A) (w' : W)
      → perform r work w ≡ (ok a, w')
      → (r ≡ ok tt) × (work w ≡ (ok a, w'))
  performed (ok tt) work w a w' h = (refl, h)
  performed (err e) work w a w' h = cc

  succeeded :
      (x : DaemonTaskRecord) (e : DaemonEvent) (t : DaemonTask) (d d' : Daemon W) (r : Result A × W)
      (a : A)
      → outcome (λ _. x) (λ _. some e) t d r ≡ (ok a, d')
      → (w : W) × (r ≡ (ok a, w))
        × (d' ≡ record {
          queue = settled d.queue (complete x);
          world = w;
          events = d.events ++ e ∷ [];
        })
  unfolding emit_event
  succeeded x e t d d' (ok b, w) a h = (
    w,
    ap (λ (p : Result A × Daemon W). (p.0, w)) h,
    sym (ap (λ (p : Result A × Daemon W). p.1) h),
  )
  succeeded x e t d d' (err problem, w) a h = cc

  -- A command that succeeds was let through, its work succeeded, and it left its record and event.
  ran :
      (t : DaemonTask) (e : DaemonEvent) (work : Work W A) (d d' : Daemon W) (a : A)
      → QueueInv d.queue
      → d.queue.next_id + 1 < u64_mod
      → completion_event t ≡ some e
      → command t work d ≡ (ok a, d')
      → (ensure_task_allowed t d.queue ≡ ok tt)
        × (w : W) × (work d.world ≡ (ok a, w))
        × (d' ≡ record {
          queue = settled d.queue (complete (filed_record d.queue t));
          world = w;
          events = d.events ++ e ∷ [];
        })
  ran t e work d d' a v fits event h =
      let x : DaemonTaskRecord = filed_record d.queue t in
      let o : outcome (λ _. x) (λ _. completion_event t) t d (permitted t work d) ≡ (ok a, d') =
        sym (command-outcome t work d v fits) ∙ h in
      let o' : outcome (λ _. x) (λ _. some e) t d (permitted t work d) ≡ (ok a, d') =
        subst (λ y. outcome (λ _. x) (λ _. y) t d (permitted t work d) ≡ (ok a, d')) event o in
      let (w, done, left) = succeeded x e t d d' (permitted t work d) a o' in
      let (allowed, worked) = performed (ensure_task_allowed t d.queue) work d.world a w done in
      (allowed, w, worked, left)

-- When the daemon's `add_item_category` succeeds, from a queue in order with an id left and with a
-- tidy manifest, no pause mode was in its way, it published that the
-- category of the item changed and filed one completed record, and the item's metadata lists the
-- category without a tombstone.
pub add_item_category_command-Listed :
    (id : Text) (category : CategoryPath) (d d' : Daemon LibraryState)
    → QueueInv d.queue
    → d.queue.next_id + 1 < u64_mod
    → IsTidy d.world.manifest
    → add_item_category_command id category d ≡ (ok tt, d')
    → let t = add_category id category in
      (ensure_task_allowed t d.queue ≡ ok tt)
      × (d'.queue ≡ settled d.queue (complete (filed_record d.queue t)))
      × (d'.events ≡ d.events ++ category_changed (some id) (some category.value) ∷ [])
      × (doc : ItemDocument) × (get_item id d.world.index ≡ some doc)
      × Listed doc.dir category.value d'.world.stored
unfolding add_item_category_command completion_event
add_item_category_command-Listed id category d d' v fits tidy h =
    let (allowed, w, worked, left) =
      ran (add_category id category) (category_changed (some id) (some category.value))
        (add_item_category id category) d d' tt v fits refl h in
    let (doc, found, _, listed, _) = add_item_category-Listed id category d.world w tidy worked in
    (
      allowed,
      ap (λ (x : Daemon LibraryState). x.queue) left,
      ap (λ (x : Daemon LibraryState). x.events) left,
      doc,
      found,
      subst (λ (x : Daemon LibraryState). Listed doc.dir category.value x.world.stored) (sym left)
          listed,
    )
