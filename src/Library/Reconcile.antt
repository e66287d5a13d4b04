-- ===== src/Library/Reconcile.antt =====
-- `scan_cat_memberships` of crates/core/src/storage/mod.rs and `reconcile_categories` of
-- crates/core/src/lib.rs.
pub mod Growth
pub mod Adoption
use localref.Base.{
  ℕ, ◌+◌, String, Text, text, List, [], ◌∷◌, ◌++◌, Bool, true, false, not, ◌||◌, ◌&&◌, ◌==◌, ltb,
  if◌then◌else◌, Option, none, some, find, str_eq, contains, Result, ok, err,
  invalid_path_component, ok_or,
}
use localref.Types.CategoryPath.{CategoryPath, new}
use localref.Model.Manifest.{CatManifest, insert, remove, contains_pair}
use localref.Platformfs.CatTree.{CatTree, Link}
use localref.Library.State.{
  LibraryState, StoredItem, ItemDocument, edit_item_categories, item_exists, save_manifest,
}
use localref.Library.State.Actions.{Action, ◌>>=◌, lift, return}
use localref.Library.Categories.{link_item, unlink_item}

-- The order of texts, and of pairs of them.
unfoldable pub text_lt : Text → Text → Bool
text_lt [] [] = false
text_lt [] (b ∷ t) = true
text_lt (a ∷ s) [] = false
text_lt (a ∷ s) (b ∷ t) = ltb a b || ((a == b) && text_lt s t)

abbrev pub pair_eq : Text × Text → Text × Text → Bool
pair_eq p q = str_eq p.0 q.0 && str_eq p.1 q.1

abbrev pub pair_lt : Text × Text → Text × Text → Bool
pair_lt p q = text_lt p.0 q.0 || (str_eq p.0 q.0 && text_lt p.1 q.1)

-- `sort` and `dedup`, one pair at a time
unfoldable pub insert_pair : Text × Text → List (Text × Text) → List (Text × Text)
unfolding text_lt
insert_pair p [] = p ∷ []
insert_pair p (q ∷ qs) =
    let rest = insert_pair p qs in
    if pair_eq p q then q ∷ qs else if pair_lt p q then p ∷ q ∷ qs else q ∷ rest

-- A directory below `Cat/` as the text of a category.
unfoldable pub join : List Text → Text
join [] = []
join (c ∷ []) = c
join (c ∷ d ∷ ds) = c ++ b'/' ∷ join (d ∷ ds)

-- The category that a link stands for; a link in `Cat/` itself has none.
unfoldable pub link_category : Link → Option CategoryPath
unfolding join new
link_category link = new (join link.directory)

-- The item that a link leads to, if its directory is there: the scanner calls a link to what is gone
-- broken, and such a path has no canonical form.
unfoldable pub link_item_id : (Text → Bool) → List ItemDocument → Link → Option ItemDocument
unfolding find
link_item_id lives items link =
    if lives link.target then find (λ (d : ItemDocument). str_eq d.dir link.target) items else none

abbrev pub insert_found :
    Option CategoryPath → Option ItemDocument → List (Text × Text) → List (Text × Text)
insert_found (some category) (some item) pairs = insert_pair (item.id, category.value) pairs
insert_found _ _ pairs = pairs

unfoldable pub memberships : (Text → Bool) → List ItemDocument → List Link → List (Text × Text)
unfolding link_category link_item_id insert_pair
memberships lives items [] = []
memberships lives items (link ∷ links) =
    insert_found (link_category link) (link_item_id lives items link)
      (memberships lives items links)

unfoldable pub scan_cat_memberships :
    (Text → Bool) → CatTree → List ItemDocument → List (Text × Text)
unfolding memberships
scan_cat_memberships lives tree items = memberships lives items tree.links

unfoldable pub holds_pair : Text → Text → List (Text × Text) → Bool
holds_pair id category [] = false
holds_pair id category (p ∷ ps) = pair_eq p (id, category) || holds_pair id category ps

-- The tombstones of the item in a directory, none if it cannot be read.
unfoldable pub tombstones : Text → List StoredItem → List Text
tombstones dir [] = []
tombstones dir (s ∷ ss) =
    let rest = tombstones dir ss in if str_eq s.dir dir then s.membership.removed else rest

abbrev pub checked_path : Text → String → Result CategoryPath
checked_path category reason = ok_or (new category) (invalid_path_component category reason)

-- A category that the metadata lists: its link is made if it is not on disk.
abbrev pub project : Bool → ItemDocument → CategoryPath → ℕ → Action LibraryState ℕ
project true item category changes = return changes
project false item category changes = do _ ← link_item category item.dir; return (changes + 1)

unfoldable pub reconcile_listed :
    ItemDocument
    → List (Text × Text)
    → List Text
    → CatManifest
    → ℕ
    → Action LibraryState (CatManifest × ℕ)
unfolding holds_pair
reconcile_listed item on_disk [] manifest changes = return (manifest, changes)
reconcile_listed item on_disk (c ∷ cs) manifest changes = do
  path ← lift (checked_path c "indexed category path is invalid")
  changes' ← project (holds_pair item.id c on_disk) item path changes
  reconcile_listed item on_disk cs (insert item.id c manifest) changes'

-- A link that the metadata does not list: it is removed if the daemon made it or the category has a
-- tombstone, and adopted otherwise.
abbrev pub settle_link :
    Bool → ItemDocument → Text → CategoryPath → CatManifest → Action LibraryState CatManifest
settle_link true item category path manifest = do
  _ ← unlink_item path item.dir
  return (remove item.id category manifest)
settle_link false item category path manifest = do
  _ ← edit_item_categories item.id (category ∷ []) [] []
  return (insert item.id category manifest)

abbrev pub reconcile_link :
    Bool → ItemDocument → List Text → Text → CatManifest → ℕ → Action LibraryState (CatManifest × ℕ)
reconcile_link true item removed category manifest changes = return (manifest, changes)
reconcile_link false item removed category manifest changes = do
  path ← lift (checked_path category "Cat junction category is invalid")
  manifest' ←
      settle_link (contains_pair item.id category manifest || contains removed category) item
        category path manifest
  return (manifest', changes + 1)

unfoldable pub reconcile_links :
    ItemDocument
    → List Text
    → List (Text × Text)
    → CatManifest
    → ℕ
    → Action LibraryState (CatManifest × ℕ)
reconcile_links item removed [] manifest changes = return (manifest, changes)
reconcile_links item removed ((id, category) ∷ pairs) manifest changes = do
  (manifest', changes') ←
      reconcile_link (not (str_eq id item.id) || contains item.categories category) item removed
        category manifest changes
  reconcile_links item removed pairs manifest' changes'

-- The loop over the items, with the tombstones and the links as they were before it.
unfoldable pub reconcile_items :
    List StoredItem
    → List (Text × Text)
    → List ItemDocument
    → CatManifest
    → ℕ
    → Action LibraryState (CatManifest × ℕ)
unfolding tombstones
reconcile_items before on_disk [] manifest changes = return (manifest, changes)
reconcile_items before on_disk (item ∷ items) manifest changes = do
  (manifest', changes') ← reconcile_listed item on_disk item.categories manifest changes
  (manifest'', changes'') ←
      reconcile_links item (tombstones item.dir before) on_disk manifest' changes'
  reconcile_items before on_disk items manifest'' changes''

-- The number of changes.
unfoldable pub reconcile_categories : Action LibraryState ℕ
unfolding scan_cat_memberships item_exists save_manifest
reconcile_categories L =
    (reconcile_items L.stored (scan_cat_memberships (item_exists L) L.tree L.index) L.index
          L.manifest 0
        >>= λ result. save_manifest result.0 >>= λ _. return result.1)
      L
