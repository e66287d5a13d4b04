-- ===== src/Library/Traces.antt =====
-- What the parts of a category command leave behind when they succeed.
use localref.Base.{
  Text, ◌≡◌, refl, List, [], ◌∷◌, Bool, true, if◌then◌else◌, Option, none, some, str_eq, str_eq_iff,
  Result, ok, err, arith,
}
use localref.Types.CategoryPath.{CategoryPath}
use localref.Model.Membership.{Membership, edit}
use localref.Platformfs.CatTree.{CatTree, create_category_link, remove_category_link}
use localref.Library.State.{
  LibraryState, StoredItem, ItemDocument, get_item, item_exists, edit_item_categories, edit_found,
  update_stored, set_membership,
}
use localref.Library.Categories.{link_item, with_tree, unlink_item, put_unlinked}

-- The item in a directory, as its metadata states it.
abbrev pub stored_at : Text → List StoredItem → Option StoredItem
stored_at dir [] = none
stored_at dir (s ∷ ss) = let rest = stored_at dir ss in if str_eq s.dir dir then some s else rest

abbrev pub update_option : (Membership → Membership) → Option StoredItem → Option StoredItem
update_option f none = none
update_option f (some s) = some (set_membership f s)

pub stored_at-update :
    (e dir : Text) (f : Membership → Membership) (ss : List StoredItem)
    → stored_at e (update_stored dir f ss)
      ≡ (if str_eq e dir then update_option f (stored_at e ss) else stored_at e ss)
unfolding update_stored
stored_at-update e dir f [] = ground arith
stored_at-update e dir f (s ∷ ss) =
    ground (
      arith,
      stored_at-update e dir f ss,
      str_eq_iff e dir,
      str_eq_iff s.dir dir,
      str_eq_iff s.dir e,
    )

edit_found-through :
    (a r d : List Text) (o : Option ItemDocument) (dir : Text) (L L' : LibraryState)
    → edit_found a r d o L ≡ (ok dir, L')
    → (doc : ItemDocument) × (o ≡ some doc)
      × (doc.dir ≡ dir)
      × (item_exists L dir ≡ true)
      × (L' ≡ record L { stored = update_stored dir (edit a r d) L.stored })
edit_found-through a r d none dir L L' h = cc
edit_found-through a r d (some doc) dir L L' h =
    (doc, refl, ground arith, ground arith, ground arith)

pub edit-through :
    (id : Text) (a r d : List Text) (dir : Text) (L L' : LibraryState)
    → edit_item_categories id a r d L ≡ (ok dir, L')
    → (doc : ItemDocument) × (get_item id L.index ≡ some doc)
      × (doc.dir ≡ dir)
      × (item_exists L dir ≡ true)
      × (L' ≡ record L { stored = update_stored dir (edit a r d) L.stored })
unfolding edit_item_categories
edit-through id a r d dir L L' h = edit_found-through a r d (get_item id L.index) dir L L' h

with_tree-through :
    (L L' : LibraryState) (r : Result (Unit {0}) × CatTree)
    → with_tree L r ≡ (ok tt, L')
    → (tree : CatTree) × (r ≡ (ok tt, tree)) × (L' ≡ record L { tree = tree })
with_tree-through L L' (ok a, tree) h = (tree, refl, cc)
with_tree-through L L' (err problem, tree) h = cc

pub link-through :
    (category : CategoryPath) (dir : Text) (L L' : LibraryState)
    → link_item category dir L ≡ (ok tt, L')
    → (tree : CatTree) × (create_category_link category dir L.tree ≡ (ok tt, tree))
      × (L' ≡ record L { tree = tree })
unfolding link_item
link-through category dir L L' h =
    with_tree-through L L' (create_category_link category dir L.tree) h

put_unlinked-through :
    (L L' : LibraryState) (r : Result (Bool × CatTree))
    → put_unlinked L r ≡ (ok tt, L')
    → (found : Bool) × (tree : CatTree) × (r ≡ ok (found, tree)) × (L' ≡ record L { tree = tree })
put_unlinked-through L L' (ok (found, tree)) h = (found, tree, refl, cc)
put_unlinked-through L L' (err problem) h = cc

pub unlink-through :
    (category : CategoryPath) (dir : Text) (L L' : LibraryState)
    → unlink_item category dir L ≡ (ok tt, L')
    → (found : Bool) × (tree : CatTree) × (remove_category_link (item_exists L) category dir L.tree
        ≡ ok (found, tree))
      × (L' ≡ record L { tree = tree })
unfolding unlink_item
unlink-through category dir L L' h =
    put_unlinked-through L L' (remove_category_link (item_exists L) category dir L.tree) h
