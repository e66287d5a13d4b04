-- ===== src/Library/Categories.antt =====
-- The commands on categories of crates/core/src/lib.rs: the work that each does once its task is
-- allowed. The summary of the category that it answers with is left out, but not its failure.
use localref.Base.{
  Text, text, List, [], ◌∷◌, Bool, true, false, if◌then◌else◌, Option, none, some, str_eq, Result,
  ok, err, io, invalid_path_component, ok_or, retain, not,
}
use localref.Types.CategoryPath.{CategoryPath, new}
use localref.Model.Manifest.{CatManifest, insert, remove, remove_item}
use localref.Platformfs.CatTree.{
  CatTree, create_category_dir, create_category_link, remove_category_link,
}
use localref.Library.State.{
  LibraryState, StoredItem, ItemDocument, get_item, item_exists, edit_item_categories,
  save_manifest, rebuild_index, list_summary,
}
use localref.Library.State.Actions.{Action, ◌>>=◌, lift, return}

unfoldable pub unmatched_category : Text
unfolding text
unmatched_category = text "unmatched"

-- A change of the tree below `Cat/`, or its error.
abbrev pub put_tree : LibraryState → Result CatTree → Result (Unit {0}) × LibraryState
put_tree L (ok tree) = (ok tt, record L { tree = tree })
put_tree L (err problem) = (err problem, L)

abbrev pub with_tree : LibraryState → Result (Unit {0}) × CatTree → Result (Unit {0}) × LibraryState
with_tree L (result, tree) = (result, record L { tree = tree })

unfoldable pub link_item : CategoryPath → Text → Action LibraryState (Unit {0})
unfolding create_category_link
link_item category dir L = with_tree L (create_category_link category dir L.tree)

abbrev pub put_unlinked : LibraryState → Result (Bool × CatTree) → Result (Unit {0}) × LibraryState
put_unlinked L (ok (_, tree)) = (ok tt, record L { tree = tree })
put_unlinked L (err problem) = (err problem, L)

unfoldable pub unlink_item : CategoryPath → Text → Action LibraryState (Unit {0})
unfolding remove_category_link
unlink_item category dir L =
    put_unlinked L (remove_category_link (item_exists L) category dir L.tree)

abbrev pub unmatched_path : CategoryPath
unmatched_path = record { value = unmatched_category }

-- The `unmatched` membership goes once the item is in a category of its own.
unfoldable pub clear_unmatched : Text → Text → CatManifest → Action LibraryState CatManifest
clear_unmatched id dir manifest = do
  _ ← edit_item_categories id [] [] (unmatched_category ∷ [])
  _ ← unlink_item unmatched_path dir
  return (remove id unmatched_category manifest)

abbrev pub cleared_unless : Bool → Text → Text → CatManifest → Action LibraryState CatManifest
cleared_unless true id dir manifest = return manifest
cleared_unless false id dir manifest = clear_unmatched id dir manifest

unfoldable pub file_item_into_category :
    Text → CategoryPath → CatManifest → Action LibraryState CatManifest
file_item_into_category id category manifest = do
  dir ← edit_item_categories id (category.value ∷ []) [] []
  _ ← link_item category dir
  cleared_unless (str_eq category.value unmatched_category) id dir
      (insert id category.value manifest)

unfoldable pub unfile_item_from_category :
    Text → CategoryPath → CatManifest → Action LibraryState CatManifest
unfile_item_from_category id category manifest = do
  dir ← edit_item_categories id [] (category.value ∷ []) []
  _ ← unlink_item category dir
  return (remove id category.value manifest)

-- How the commands on memberships end: the manifest, the index and the summary.
unfoldable pub save_and_rebuild : CatManifest → Action LibraryState (Unit {0})
unfolding save_manifest rebuild_index list_summary
save_and_rebuild manifest = do _ ← save_manifest manifest; _ ← rebuild_index; list_summary

unfoldable pub make_directory : CategoryPath → Action LibraryState (Unit {0})
unfolding create_category_dir
make_directory category L = put_tree L (create_category_dir category L.tree)

unfoldable pub create_category : CategoryPath → Action LibraryState (Unit {0})
unfolding make_directory rebuild_index list_summary
create_category category = do _ ← make_directory category; _ ← rebuild_index; list_summary

unfoldable pub add_item_category : Text → CategoryPath → Action LibraryState (Unit {0})
add_item_category id category L =
    (file_item_into_category id category L.manifest >>= save_and_rebuild) L

unfoldable pub remove_item_category : Text → CategoryPath → Action LibraryState (Unit {0})
remove_item_category id category L =
    (unfile_item_from_category id category L.manifest >>= save_and_rebuild) L

unfoldable pub file_items : List Text → CategoryPath → CatManifest → Action LibraryState CatManifest
file_items [] category manifest = return manifest
file_items (id ∷ ids) category manifest =
    file_item_into_category id category manifest >>= λ m. file_items ids category m

unfoldable pub add_items_category : List Text → CategoryPath → Action LibraryState (Unit {0})
add_items_category ids category L = (file_items ids category L.manifest >>= save_and_rebuild) L

unfoldable pub unfile_items :
    List Text → CategoryPath → CatManifest → Action LibraryState CatManifest
unfile_items [] category manifest = return manifest
unfile_items (id ∷ ids) category manifest =
    unfile_item_from_category id category manifest >>= λ m. unfile_items ids category m

unfoldable pub remove_items_category : List Text → CategoryPath → Action LibraryState (Unit {0})
remove_items_category ids category L = (unfile_items ids category L.manifest >>= save_and_rebuild) L

-- The links of a deleted item, category by category.
unfoldable pub unlink_categories : List Text → Text → Action LibraryState (Unit {0})
unfolding unlink_item new
unlink_categories [] dir = return tt
unlink_categories (c ∷ cs) dir = do
  category ← lift (ok_or (new c) (invalid_path_component c "indexed category path is invalid"))
  _ ← unlink_item category dir
  unlink_categories cs dir

-- `remove_dir_all`
unfoldable pub remove_directory : Text → LibraryState → LibraryState
unfolding retain
remove_directory dir L = record L {
  stored = retain (λ (s : StoredItem). not (str_eq s.dir dir)) L.stored;
}

-- `ensure_inside_all`: an item directory that is there lies below `All/` by its construction.
unfoldable pub ensure_inside_all : Text → Action LibraryState (Unit {0})
unfolding item_exists
ensure_inside_all dir L =
    if item_exists L dir then (ok tt, L) else (err (io dir (text "not found")), L)

abbrev pub delete_found : Text → Option ItemDocument → Action LibraryState Bool
delete_found id none = return false
delete_found id (some d) = do
  _ ← ensure_inside_all d.dir
  _ ← unlink_categories d.categories d.dir
  _ ← (λ L. (ok tt, remove_directory d.dir L))
  _ ← (λ L. save_manifest (remove_item id L.manifest) L)
  _ ← rebuild_index
  return true

-- `delete_item`: whether the item was there.
unfoldable pub delete_item : Text → Action LibraryState Bool
delete_item id L = delete_found id (get_item id L.index) L
