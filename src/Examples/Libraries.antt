-- ===== src/Examples/Libraries.antt =====
-- Runs of the manifest and of the category commands on a small library.
use localref.Base.{
  io, Text, text, ◌≡◌, refl, subst, arith, ◌∙◌, ◌++◌, [], ◌∷◌, true, false, not, ◌&&◌, ◌||◌, none,
  some, str_eq, contains, ok, err, missing_field, trim, to_ascii_uppercase, split,
}
use localref.Types.CategoryPath.{CategoryPath, new}
use localref.Daemon.Queue
use localref.Daemon.Queue.{ensure_task_allowed}
use localref.Daemon.Queue.Modes.{contains_mode}
use localref.Daemon.Queue.Invariant.{new-QueueInv}
use localref.Daemon.Task.{DaemonTask, add_category, category_changed}
use localref.Daemon.Command.{Daemon, completion_event, complete, emit_event}
use localref.Daemon.Lifecycle.{settled, filed_record, command-outcome}
use localref.Library.Commands.{add_item_category_command, add_item_category_command-Listed}
use localref.Model.Membership.{Membership}
use localref.Model.Manifest.{CatManifest, insert, remove, remove_item, contains_pair}
use localref.Model.Manifest.Laws.{IsTidy, operations-IsTidy, contains_pair-operations}
use localref.Platformfs.CatTree.{
  create_category_link_named, remove_category_link, category_dir, find_link, has_directory,
}
use localref.Platformfs.CatTree.Paths.{path_eq}
use localref.Platformfs.Component.{
  sanitize_ntfs_component, replaced, cap_component_length, is_reserved, reserved_names,
}
use localref.Library.State.{
  save_manifest, rebuild_index, list_summary, LibraryState, StoredItem, ItemDocument, get_item,
  edit_item_categories,
}
use localref.Library.Categories.{
  unmatched_category, add_item_category, remove_item_category, delete_item, ensure_inside_all,
  unlink_categories, file_item_into_category, unfile_item_from_category, clear_unmatched, link_item,
  unlink_item, save_and_rebuild, remove_directory,
}
use localref.Library.Deletion.{Gone, delete_item-Gone}
use localref.Library.Traces.{stored_at}
use localref.Library.Filing.{unfiled}
use localref.Library.Outcome.{OneEdited, Listed, Tombstoned, remove_item_category-Tombstoned}
use localref.Library.Renaming.{remap, remap_category_prefix, remap_item, remap_items}
use localref.Library.Renaming.Remap.{
  Apart, is_moved, targets, remap_edits, remap_edits-moves, remap_edits_self,
}
use localref.Library.Renaming.Loops.{remapped, remap_category_prefix-stored}

abbrev demo : Text
demo = text "demo"

abbrev vision : Text
vision = text "vision"

abbrev robotics : CategoryPath
robotics = record { value = text "robotics" }

abbrev small_manifest : CatManifest
small_manifest = record { entries = (demo, vision ∷ []) ∷ [] }

abbrev stored_demo : StoredItem
stored_demo = record {
  dir = text "Demo";
  id = demo;
  membership = record {
    categories = vision ∷ text "unmatched" ∷ [];
    removed = text "robotics" ∷ [];
  };
}

abbrev small_library : LibraryState
small_library = record {
  stored = stored_demo ∷ [];
  index = record { id = demo; dir = text "Demo"; categories = vision ∷ text "unmatched" ∷ [] } ∷ [];
  tree = record { directories = []; links = [] };
  manifest = small_manifest;
  faults = record { save = none; rebuild = none; listing = none };
}

small_manifest-IsTidy : IsTidy small_manifest
small_manifest-IsTidy = (refl, refl, tt)

operations-IsTidy_example :
    IsTidy (insert demo vision small_manifest)
    × IsTidy (remove demo vision small_manifest)
    × IsTidy (remove_item demo small_manifest)
operations-IsTidy_example = operations-IsTidy demo vision small_manifest small_manifest-IsTidy

contains_pair-operations_example :
    (contains_pair demo vision (insert demo vision small_manifest)
      ≡ (contains_pair demo vision small_manifest || (str_eq demo demo && str_eq vision vision)))
    × (contains_pair demo vision (remove demo vision small_manifest) ≡ (
        contains_pair demo vision small_manifest && not (str_eq demo demo && str_eq vision vision)))
    × (contains_pair demo vision (remove_item demo small_manifest)
        ≡ (contains_pair demo vision small_manifest && not (str_eq demo demo)))
contains_pair-operations_example =
    contains_pair-operations demo vision demo vision small_manifest small_manifest-IsTidy

abbrev after_add : LibraryState
after_add = (add_item_category demo robotics small_library).1

adds : add_item_category demo robotics small_library ≡ (ok tt, after_add)
unfolding add_item_category file_item_into_category clear_unmatched edit_item_categories str_eq text
    link_item unlink_item create_category_link_named remove_category_link category_dir
    sanitize_ntfs_component trim replaced find_link has_directory path_eq cap_component_length
    is_reserved reserved_names contains to_ascii_uppercase split unmatched_category save_and_rebuild
    save_manifest rebuild_index list_summary
adds = refl

-- When the index cannot be rebuilt, the command fails and has changed all but the index.
abbrev full_disk : LibraryState
full_disk = record small_library {
  faults = record { save = none; rebuild = some (io [] []); listing = none };
}

fails_late :
    let (result, L) = add_item_category demo robotics full_disk in
    (result ≡ err (io [] []))
    × (L.index ≡ full_disk.index)
    × (L.manifest ≡ after_add.manifest)
    × (L.stored ≡ after_add.stored)
unfolding add_item_category file_item_into_category clear_unmatched edit_item_categories str_eq text
    link_item unlink_item create_category_link_named remove_category_link category_dir
    sanitize_ntfs_component trim replaced find_link has_directory path_eq cap_component_length
    is_reserved reserved_names contains to_ascii_uppercase split unmatched_category save_and_rebuild
    save_manifest rebuild_index list_summary
fails_late = (refl, refl, refl, refl)

abbrev after_remove : LibraryState
after_remove = (remove_item_category demo robotics small_library).1

removes : remove_item_category demo robotics small_library ≡ (ok tt, after_remove)
unfolding remove_item_category unfile_item_from_category edit_item_categories str_eq text
    unlink_item category_dir sanitize_ntfs_component trim replaced find_link has_directory
    save_and_rebuild save_manifest rebuild_index list_summary
removes = refl

remove_item_category-Tombstoned_example :
    (doc : ItemDocument) × (get_item demo small_library.index ≡ some doc)
    × OneEdited doc.dir (unfiled robotics.value) small_library.stored after_remove.stored
    × Tombstoned doc.dir robotics.value after_remove.stored
    × ((k e : Text)
        → contains_pair k e after_remove.manifest ≡ (
            contains_pair k e small_library.manifest
            && not (str_eq demo k && str_eq robotics.value e)))
remove_item_category-Tombstoned_example =
    remove_item_category-Tombstoned demo robotics small_library after_remove small_manifest-IsTidy
      removes

fails :
    add_item_category (text "nobody") robotics small_library
    ≡ (err (missing_field "item"), small_library)
unfolding add_item_category file_item_into_category edit_item_categories str_eq text
fails = refl

abbrev nested : Membership
nested = record { categories = text "a/x" ∷ text "b" ∷ []; removed = [] }

nested-Apart : Apart (text "a") (text "c") nested.categories
unfolding remap str_eq text
nested-Apart =
    ((
      λ new e.
          let moved : text "c/x" ≡ new = cc in
          subst (λ n. remap (text "a") (text "c") n ≡ none) moved refl,
      (λ new e. cc, tt),
    ))

remap_edits-moves_example :
    contains (remap_edits (text "a") (text "c") nested.categories nested).categories (text "c/x")
    ≡ ((contains nested.categories (text "c/x")
          && not (is_moved (remap (text "a") (text "c") (text "c/x"))))
        || targets (text "a") (text "c") (text "c/x") nested.categories)
remap_edits-moves_example = remap_edits-moves (text "a") (text "c") (text "c/x") nested nested-Apart

remap_edits_self_example :
    contains (remap_edits (text "b") (text "b") nested.categories nested).categories (text "b")
    ≡ false
unfolding remap str_eq text
remap_edits_self_example = remap_edits_self (text "b") (text "b") nested refl

abbrev art : CategoryPath
art = record { value = text "art" }

abbrev vision_path : CategoryPath
vision_path = record { value = vision }

abbrev after_remap : LibraryState
after_remap = (remap_category_prefix vision_path art small_library).1

remaps : remap_category_prefix vision_path art small_library ≡ (ok tt, after_remap)
unfolding remap_category_prefix remap_items remap_item remap str_eq text edit_item_categories
remaps = refl

remap_category_prefix-stored_example :
    (after_remap.index ≡ small_library.index)
    × ((e : Text)
        → stored_at e after_remap.stored
          ≡ remapped vision_path.value art.value small_library.index e
              (stored_at e small_library.stored))
unfolding get_item str_eq text
remap_category_prefix-stored_example =
    remap_category_prefix-stored vision_path art small_library after_remap (refl, tt) remaps

abbrev daemon : Daemon LibraryState
daemon = record { queue = Queue.new; world = small_library; events = [] }

abbrev adds_robotics : DaemonTask
adds_robotics = add_category demo robotics

abbrev after_command : Daemon LibraryState
after_command = record {
  queue = settled Queue.new (complete (filed_record Queue.new adds_robotics));
  world = after_add;
  events = category_changed (some demo) (some robotics.value) ∷ [];
}

commands : add_item_category_command demo robotics daemon ≡ (ok tt, after_command)
unfolding add_item_category_command completion_event emit_event ensure_task_allowed contains_mode
    Queue.new
commands =
    command-outcome adds_robotics (add_item_category demo robotics) daemon new-QueueInv
      (omega arith)
    ∙ rw adds

add_item_category_command-Listed_example :
    (ensure_task_allowed adds_robotics daemon.queue ≡ ok tt)
    × (after_command.queue ≡ settled Queue.new (complete (filed_record Queue.new adds_robotics)))
    × (after_command.events ≡ [] ++ category_changed (some demo) (some robotics.value) ∷ [])
    × (doc : ItemDocument) × (get_item demo small_library.index ≡ some doc)
    × Listed doc.dir robotics.value after_command.world.stored
unfolding Queue.new
add_item_category_command-Listed_example =
    add_item_category_command-Listed demo robotics daemon after_command new-QueueInv (omega arith)
      small_manifest-IsTidy commands

abbrev after_delete : LibraryState
after_delete = (delete_item demo small_library).1

deletes : delete_item demo small_library ≡ (ok true, after_delete)
unfolding ensure_inside_all delete_item text str_eq get_item unlink_categories remove_directory
    save_manifest rebuild_index new unlink_item category_dir sanitize_ntfs_component trim replaced
    find_link has_directory
deletes = refl

delete_item-Gone_example :
    (doc : ItemDocument) × (get_item demo small_library.index ≡ some doc)
    × Gone demo doc.dir small_library after_delete
delete_item-Gone_example =
    delete_item-Gone demo small_library after_delete small_manifest-IsTidy deletes
