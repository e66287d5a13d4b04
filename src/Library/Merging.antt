-- ===== src/Library/Merging.antt =====
-- `merge_category` of crates/core/src/lib.rs: the directories, then the metadata and the manifest.
use localref.Types.CategoryPath.{CategoryPath}
use localref.Platformfs.Merging
use localref.Platformfs.Merging.{stands}
use localref.Library.State.{LibraryState, item_exists, rebuild_index, list_summary}
use localref.Library.State.Actions.{Action, ◌>>=◌}
use localref.Library.Categories.{with_tree}
use localref.Library.Renaming.{remap_category_prefix}

unfoldable pub merge_category : CategoryPath → CategoryPath → Action LibraryState (Unit {0})
unfolding Merging.merge_category remap_category_prefix rebuild_index list_summary
merge_category from to = do
  _ ← (λ L. with_tree L (Merging.merge_category (item_exists L) from to L.tree))
  _ ← remap_category_prefix from to
  _ ← rebuild_index
  list_summary
