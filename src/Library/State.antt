-- ===== src/Library/State.antt =====
-- What the commands of crates/core/src/lib.rs change: the metadata of the items, the index, the
-- tree below `Cat/` and the manifest. Locks are left out. Of the failures
-- of the operating system and the database it has the `Faults`.
pub mod Actions
use localref.Base.{
  Text, text, List, [], ◌∷◌, ◌++◌, map, Bool, true, false, not, if◌then◌else◌, Option, none, some,
  find, str_eq, any, Result, ok, err, missing_field, io, LocalrefError, ◌≡◌,
}
use localref.Model.Membership.{Membership, edit}
use localref.Model.Manifest.{CatManifest}
use localref.Platformfs.CatTree.{CatTree}
use Actions.{Action}

-- An item directory below `All/` with what its `metadata.toml` states. Model.CategoryEdits has the
-- edits on the document itself.
pub record StoredItem : Type 0 where
  pub dir : Text
  pub id : Text
  pub membership : Membership

-- What the commands read of an `ItemDocument`.
pub record ItemDocument : Type 0 where
  pub id : Text
  pub dir : Text
  pub categories : List Text

-- What the operating system or the database refuses: to write the manifest, to rebuild the index,
-- which is one transaction, or to list the categories for the summary that a command answers with.
pub record Faults : Type 0 where
  pub save : Option LocalrefError
  pub rebuild : Option LocalrefError
  pub listing : Option LocalrefError

pub record LibraryState : Type 0 where
  pub stored : List StoredItem
  pub index : List ItemDocument
  pub tree : CatTree
  pub manifest : CatManifest
  pub faults : Faults

-- `document_from_metadata`
abbrev pub document_of : StoredItem → ItemDocument
document_of s = record { id = s.id; dir = s.dir; categories = s.membership.categories }

-- The table of items has one document for each id, the last that was inserted.
unfoldable pub insert_document : ItemDocument → List ItemDocument → List ItemDocument
insert_document d [] = d ∷ []
insert_document d (x ∷ xs) =
    let rest = insert_document d xs in if str_eq x.id d.id then d ∷ xs else x ∷ rest

unfoldable pub index_documents : List StoredItem → List ItemDocument → List ItemDocument
unfolding insert_document
index_documents [] table = table
index_documents (s ∷ ss) table = index_documents ss (insert_document (document_of s) table)

unfoldable pub rebuild_from_all : LibraryState → LibraryState
unfolding index_documents
rebuild_from_all L = record L { index = index_documents L.stored [] }

abbrev pub unless_fault :
    Option LocalrefError → LibraryState → LibraryState → Result (Unit {0}) × LibraryState
unless_fault none L changed = (ok tt, changed)
unless_fault (some problem) L changed = (err problem, L)

unfoldable pub rebuild_index : Action LibraryState (Unit {0})
unfolding rebuild_from_all
rebuild_index L = unless_fault L.faults.rebuild L (rebuild_from_all L)

unfoldable pub save_manifest : CatManifest → Action LibraryState (Unit {0})
save_manifest manifest L = unless_fault L.faults.save L (record L { manifest = manifest })

-- `category_summary_for` reads only.
unfoldable pub list_summary : Action LibraryState (Unit {0})
list_summary L = unless_fault L.faults.listing L L

done-eq :
    (fault : Option LocalrefError) (L changed L' : LibraryState)
    → unless_fault fault L changed ≡ (ok tt, L')
    → L' ≡ changed
done-eq none L changed L' h = cc
done-eq (some problem) L changed L' h = cc

pub save_manifest-done :
    (m : CatManifest) (L L' : LibraryState)
    → save_manifest m L ≡ (ok tt, L')
    → L' ≡ record L { manifest = m }
unfolding save_manifest
save_manifest-done m L L' h = done-eq L.faults.save L (record L { manifest = m }) L' h

pub rebuild_index-done :
    (L L' : LibraryState) → rebuild_index L ≡ (ok tt, L') → L' ≡ rebuild_from_all L
unfolding rebuild_index
rebuild_index-done L L' h = done-eq L.faults.rebuild L (rebuild_from_all L) L' h

pub list_summary-done : (L L' : LibraryState) → list_summary L ≡ (ok tt, L') → L' ≡ L
unfolding list_summary
list_summary-done L L' h = done-eq L.faults.listing L L L' h

unfoldable pub get_item : Text → List ItemDocument → Option ItemDocument
unfolding find
get_item id documents = find (λ (d : ItemDocument). str_eq d.id id) documents

-- Whether the directory is one of an item.
unfoldable pub item_exists : LibraryState → Text → Bool
unfolding any
item_exists L dir = any (λ (s : StoredItem). str_eq s.dir dir) L.stored

abbrev pub set_membership : (Membership → Membership) → StoredItem → StoredItem
set_membership f s = record s { membership = f s.membership }

-- The metadata of the item in a directory, changed in place.
unfoldable pub update_stored : Text → (Membership → Membership) → List StoredItem → List StoredItem
update_stored dir f [] = []
update_stored dir f (s ∷ ss) =
    let rest = update_stored dir f ss in
    if str_eq s.dir dir then set_membership f s ∷ ss else s ∷ rest

-- `edit_item_categories` once the item is looked up
abbrev pub edit_found :
    List Text → List Text → List Text → Option ItemDocument → Action LibraryState Text
edit_found add remove drop none L = (err (missing_field "item"), L)
edit_found add remove drop (some d) L =
    if item_exists L d.dir
    then (ok d.dir, record L { stored = update_stored d.dir (edit add remove drop) L.stored })
    else (err (io d.dir (text "metadata.toml")), L)

unfoldable pub edit_item_categories :
    Text → List Text → List Text → List Text → Action LibraryState Text
unfolding get_item item_exists update_stored
edit_item_categories id add remove drop L = edit_found add remove drop (get_item id L.index) L
