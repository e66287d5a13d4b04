-- ===== src/Library/Deletion.antt =====
-- What deleting an item leaves of it.
use localref.Base.{
  Text, ◌≡◌, refl, ap, sym, subst, ◌∙◌, List, [], ◌∷◌, true, not, ◌&&◌, if◌then◌else◌, Option, none,
  some, retain, str_eq, str_eq_iff, ok, arith, Bool-cases, inl, inr, invalid_path_component, ok_or,
}
use localref.Types.CategoryPath.{new}
use localref.Model.Manifest.{remove_item, contains_pair}
use localref.Model.Manifest.Laws.{IsTidy, contains_pair-operations}
use localref.Library.State.{
  LibraryState, StoredItem, ItemDocument, get_item, rebuild_from_all, save_manifest, rebuild_index,
  save_manifest-done, rebuild_index-done, item_exists,
}
use localref.Library.State.Actions.{lift, through}
use localref.Library.Categories.{
  unlink_item, unlink_categories, remove_directory, delete_found, delete_item, ensure_inside_all,
}
use localref.Library.Traces.{stored_at, unlink-through}

unlink_categories-keeps :
    (cs : List Text) (dir : Text) (L L' : LibraryState)
    → unlink_categories cs dir L ≡ (ok tt, L')
    → (L'.stored ≡ L.stored) × (L'.manifest ≡ L.manifest)
unfolding unlink_categories
unlink_categories-keeps [] dir L L' h = (cc, cc)
unlink_categories-keeps (c ∷ cs) dir L L' h =
    let (path, L1, valid, h1) =
      through (lift (ok_or (new c) (invalid_path_component c "indexed category path is invalid")) L)
        _ h in
    let (_, L2, unlinked, h2) = through (unlink_item path dir L1) _ h1 in
    let (_, _, _, eq) = unlink-through path dir L1 L2 unlinked in
    let (s, m) = unlink_categories-keeps cs dir L2 L' h2 in
    let e : L1 ≡ L = sym (ap (λ p. p.1) valid) in
    (
      s ∙ ap (λ (x : LibraryState). x.stored) eq ∙ ap (λ (x : LibraryState). x.stored) e,
      m ∙ ap (λ (x : LibraryState). x.manifest) eq ∙ ap (λ (x : LibraryState). x.manifest) e,
    )

stored_at-retain :
    (e dir : Text) (ss : List StoredItem)
    → stored_at e (retain (λ (s : StoredItem). not (str_eq s.dir dir)) ss)
      ≡ (if str_eq e dir then none else stored_at e ss)
unfolding retain
stored_at-retain e dir [] = ground arith
stored_at-retain e dir (s ∷ ss) =
    ground
      (arith, stored_at-retain e dir ss, str_eq_iff s.dir dir, str_eq_iff s.dir e, str_eq_iff e dir)

-- The item in a directory is gone, the others are as they were, and so are the records of the manifest
-- but those of the item's id.
abbrev pub Gone : Text → Text → LibraryState → LibraryState → Type 0
Gone id dir L L' =
    ((e : Text) → stored_at e L'.stored ≡ (if str_eq e dir then none else stored_at e L.stored))
    × ((k c : Text)
        → contains_pair k c L'.manifest ≡ (contains_pair k c L.manifest && not (str_eq id k)))

cleared : Text → Text → LibraryState → LibraryState
unfolding rebuild_from_all
cleared id dir L =
    let L1 = remove_directory dir L in
    rebuild_from_all (record L1 { manifest = remove_item id L1.manifest })

cleared-Gone :
    (id dir : Text) (L L1 : LibraryState)
    → IsTidy L.manifest
    → L1.stored ≡ L.stored
    → L1.manifest ≡ L.manifest
    → Gone id dir L (cleared id dir L1)
unfolding cleared remove_directory rebuild_from_all
cleared-Gone id dir L L1 tidy s m = (
  λ e. rw s (stored_at-retain e dir L.stored),
  λ k c. let (_, _, gone) = contains_pair-operations id c k c L.manifest tidy in rw m gone,
)

ensure_inside_all-keeps :
    (dir : Text) (L L0 : LibraryState) → ensure_inside_all dir L ≡ (ok tt, L0) → L0 ≡ L
unfolding ensure_inside_all
ensure_inside_all-keeps dir L L0 h = elim (Bool-cases (item_exists L dir)) [
  | inl e ↦ ground arith
  | inr e ↦ ground arith
]

found-Gone :
    (id : Text) (o : Option ItemDocument) (L L' : LibraryState)
    → IsTidy L.manifest
    → get_item id L.index ≡ o
    → delete_found id o L ≡ (ok true, L')
    → (doc : ItemDocument) × (get_item id L.index ≡ some doc) × Gone id doc.dir L L'
unfolding cleared save_manifest remove_directory
found-Gone id none L L' tidy e h = cc
found-Gone id (some doc) L L' tidy e h =
    let (_, L0, inside, h0) = through (ensure_inside_all doc.dir L) _ h in
    let here : L0 ≡ L = ensure_inside_all-keeps doc.dir L L0 inside in
    let (_, L1, unlinked, h1) = through (unlink_categories doc.categories doc.dir L0) _ h0 in
    let (s, m) = unlink_categories-keeps doc.categories doc.dir L0 L1 unlinked in
    let (_, L2, written, h2) =
      through (save_manifest (remove_item id L1.manifest) (remove_directory doc.dir L1)) _ h1 in
    let (_, L3, rebuilt, h3) = through (rebuild_index L2) _ h2 in
    let left : cleared id doc.dir L1 ≡ L' =
      sym (
        rebuild_index-done L2 L3 rebuilt
        ∙ ap rebuild_from_all (
            save_manifest-done (remove_item id L1.manifest) (remove_directory doc.dir L1) L2
              written))
      ∙ ap (λ p. p.1) h3 in
    (
      doc,
      e,
      subst (Gone id doc.dir L) left (
          cleared-Gone id doc.dir L L1 tidy (s ∙ ap (λ (x : LibraryState). x.stored) here)
            (m ∙ ap (λ (x : LibraryState). x.manifest) here)),
    )

-- When `delete_item` reports, on a tidy manifest, that it deleted an item, the item was indexed, its
-- directory is gone, the other items are as they were, and the manifest has lost the item's pairs and
-- no other.
pub delete_item-Gone :
    (id : Text) (L L' : LibraryState)
    → IsTidy L.manifest
    → delete_item id L ≡ (ok true, L')
    → (doc : ItemDocument) × (get_item id L.index ≡ some doc) × Gone id doc.dir L L'
unfolding delete_item
delete_item-Gone id L L' tidy h = found-Gone id (get_item id L.index) L L' tidy refl h
