-- ===== src/Library/Renaming.antt =====
-- `remap_category_prefix` of crates/core/src/lib.rs, which renaming and merging a category rest on,
-- with the renaming of a directory by the operating system as a parameter.
pub mod Remap
pub mod Loops
use localref.Base.{
  Text, text, List, [], ◌∷◌, ◌++◌, Bool, true, false, if◌then◌else◌, Option, none, some, str_eq,
  strip_prefix, Result, ok, err,
}
use localref.Types.CategoryPath.{CategoryPath}
use localref.Model.Manifest.{CatManifest, insert, remove}
use localref.Platformfs.CatTree.{CatTree, category_dir, create_dir_all, made_or_kept}
use localref.Library.State.{
  LibraryState, ItemDocument, edit_item_categories, save_manifest, rebuild_index, list_summary,
}
use localref.Library.State.Actions.{Action, ◌>>=◌, lift, return}
use localref.Library.Categories.{with_tree}

-- The path below `to` that takes the place of a path at or below `from`.
abbrev pub below : Text → Option Text → Option Text
below to none = none
below to (some rest) = some (to ++ b'/' ∷ rest)

unfoldable pub remap : Text → Text → Text → Option Text
unfolding strip_prefix
remap from to category =
    if str_eq category from then some to else below to (strip_prefix (from ++ b'/' ∷ []) category)

abbrev pub remap_one : Text → Text → Option Text → CatManifest → Action LibraryState CatManifest
remap_one id category none manifest = return manifest
remap_one id category (some new_category) manifest = do
  _ ← edit_item_categories id (new_category ∷ []) [] (category ∷ [])
  return (insert id new_category (remove id category manifest))

unfoldable pub remap_item :
    Text → Text → Text → List Text → CatManifest → Action LibraryState CatManifest
remap_item from to id [] manifest = return manifest
remap_item from to id (c ∷ cs) manifest =
    remap_one id c (remap from to c) manifest >>= λ m. remap_item from to id cs m

unfoldable pub remap_items :
    Text → Text → List ItemDocument → CatManifest → Action LibraryState CatManifest
remap_items from to [] manifest = return manifest
remap_items from to (item ∷ items) manifest =
    remap_item from to item.id item.categories manifest >>= λ m. remap_items from to items m

unfoldable pub remap_category_prefix : CategoryPath → CategoryPath → Action LibraryState (Unit {0})
unfolding save_manifest
remap_category_prefix from to L =
    (remap_items from.value to.value L.index L.manifest >>= save_manifest) L

-- `path.parent()` of a directory below `Cat/`
unfoldable pub parent : List Text → List Text
parent [] = []
parent (c ∷ []) = []
parent (c ∷ d ∷ cs) = c ∷ parent (d ∷ cs)

module _ (rename_dir : List Text → List Text → CatTree → Result CatTree) where
  -- `LibraryFs::rename_category`
  abbrev pub move_category : CategoryPath → CategoryPath → CatTree → Result (Unit {0}) × CatTree
  move_category from to tree = elim (category_dir from) [
    | err problem ↦ (err problem, tree)
    | ok from_path ↦ elim (category_dir to) [
      | err problem ↦ (err problem, tree)
      | ok to_path ↦
          let base = create_dir_all (parent to_path) tree in
          made_or_kept base (rename_dir from_path to_path base)
    ]
  ]

  unfoldable pub rename_category : CategoryPath → CategoryPath → Action LibraryState (Unit {0})
  unfolding rebuild_index list_summary
  rename_category from to = do
    _ ← (λ L. with_tree L (move_category from to L.tree))
    _ ← remap_category_prefix from to
    _ ← rebuild_index
    list_summary
