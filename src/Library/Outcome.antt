-- ===== src/Library/Outcome.antt =====
-- What the commands on one item and one category leave behind, on success and on failure.
use localref.Base.{
  ◌∙◌, ap, sym, Text, ◌≡◌, refl, subst, List, [], ◌∷◌, true, false, not, some, str_eq, str_eq_iff,
  str_eq_refl, contains, ok, arith, any, Bool-cases, inl, inr, ◌&&◌, ◌||◌,
}
use localref.Types.CategoryPath.{CategoryPath}
use localref.Model.Membership.{Membership, edit, contains-edit}
use localref.Model.Manifest.{CatManifest, insert, contains_pair}
use localref.Model.Manifest.Laws.{IsTidy, operations-IsTidy, contains_pair-operations}
use localref.Library.State.{
  LibraryState, StoredItem, ItemDocument, get_item, item_exists, set_membership, rebuild_from_all,
  save_manifest, rebuild_index, save_manifest-done, rebuild_index-done, list_summary-done,
}
use localref.Library.State.Actions.{through}
use localref.Library.Categories.{
  unmatched_category, file_item_into_category, unfile_item_from_category, add_item_category,
  remove_item_category, save_and_rebuild,
}
use localref.Library.Traces.{stored_at}
use localref.Library.Filing.{Edited, filed, unfiled, filed_manifest, file-Edited, unfile-Edited}

exists-stored :
    (dir : Text) (ss : List StoredItem)
    → any (λ (s : StoredItem). str_eq s.dir dir) ss ≡ true
    → (s : StoredItem) × (stored_at dir ss ≡ some s)
unfolding any
exists-stored dir [] h = cc
exists-stored dir (s ∷ ss) h = elim (Bool-cases (str_eq s.dir dir)) [
  | inl here ↦ (s, rw here)
  | inr there ↦ let (x, e) = exists-stored dir ss (ground arith) in (x, rw there e)
]

-- The item in `dir` has the membership that `f` makes of what it was, and the other items have theirs.
abbrev pub OneEdited : Text → (Membership → Membership) → List StoredItem → List StoredItem → Type 0
OneEdited dir f ss ss' =
    ((s : StoredItem) × (stored_at dir ss ≡ some s)
      × (stored_at dir ss' ≡ some (set_membership f s)))
    × ((e : Text) → str_eq e dir ≡ false → stored_at e ss' ≡ stored_at e ss)

Edited-OneEdited :
    (dir : Text) (f : Membership → Membership) (L L' : LibraryState)
    → item_exists L dir ≡ true
    → Edited dir f L L'
    → OneEdited dir f L.stored L'.stored
unfolding item_exists
Edited-OneEdited dir f L L' there v =
    let (s, e) = exists-stored dir L.stored there in
    ((s, e, ground (arith, v.stored dir, str_eq_refl dir)), λ x other. ground (arith, v.stored x))

pub contains-one : (v c : Text) → contains (v ∷ []) c ≡ str_eq v c
unfolding contains any
contains-one v c = ground arith

pub contains-nil : (c : Text) → contains [] c ≡ false
unfolding contains any
contains-nil c = refl

-- A membership that lists a category and has no tombstone of it, with `unmatched` gone unless it is
-- the category itself.
filed-lists :
    (c : Text) (m : Membership)
    → (contains (filed c m).categories c ≡ true)
      × (contains (filed c m).removed c ≡ false)
      × (contains (filed c m).categories unmatched_category ≡ str_eq c unmatched_category)
filed-lists c m =
    let u : Text = unmatched_category in
    let m1 : Membership = edit (c ∷ []) [] [] m in
    ground (
      arith,
      contains-edit (c ∷ []) [] [] m c,
      contains-edit (c ∷ []) [] [] m u,
      contains-edit [] [] (u ∷ []) m1 c,
      contains-edit [] [] (u ∷ []) m1 u,
      contains-one c c,
      contains-one c u,
      contains-one u c,
      contains-one u u,
      contains-nil c,
      contains-nil u,
      str_eq_refl c,
      str_eq_refl u,
      str_eq_iff c u,
      str_eq_iff u c,
    )

unfiled-lists :
    (c : Text) (m : Membership)
    → (contains (unfiled c m).categories c ≡ false) × (contains (unfiled c m).removed c ≡ true)
unfiled-lists c m =
    ground
      (arith, contains-edit [] (c ∷ []) [] m c, contains-one c c, contains-nil c, str_eq_refl c)

-- What the metadata in a directory says of a category after the change.
abbrev pub Listed : Text → Text → List StoredItem → Type 0
Listed dir c ss =
    (s : StoredItem) × (stored_at dir ss ≡ some s)
    × (contains s.membership.categories c ≡ true)
    × (contains s.membership.removed c ≡ false)

abbrev pub Tombstoned : Text → Text → List StoredItem → Type 0
Tombstoned dir c ss =
    (s : StoredItem) × (stored_at dir ss ≡ some s)
    × (contains s.membership.categories c ≡ false)
    × (contains s.membership.removed c ≡ true)

filed_manifest-contains :
    (id c k e : Text) (m : CatManifest)
    → IsTidy m
    → contains_pair k e (filed_manifest id c m) ≡ (
        (contains_pair k e m || (str_eq id k && str_eq c e))
        && not (not (str_eq c unmatched_category) && (str_eq id k && str_eq unmatched_category e)))
filed_manifest-contains id c k e m t =
    let (added, _, _) = contains_pair-operations id c k e m t in
    let (tidy, _, _) = operations-IsTidy id c m t in
    let (_, cleared, _) = contains_pair-operations id unmatched_category k e (insert id c m) tidy in
    elim (Bool-cases (str_eq c unmatched_category)) [
      | inl own ↦ rw own (ground arith)
      | inr other ↦ rw other (ground arith)
    ]

saved :
    (m : CatManifest) (L L' : LibraryState)
    → save_and_rebuild m L ≡ (ok tt, L')
    → (L.stored ≡ L'.stored) × (L'.manifest ≡ m)
unfolding save_and_rebuild rebuild_from_all
saved m L L' h =
    let (_, L1, written, h1) = through (save_manifest m L) _ h in
    let (_, L2, rebuilt, h2) = through (rebuild_index L1) _ h1 in
    let e1 = save_manifest-done m L L1 written in
    let e2 = rebuild_index-done L1 L2 rebuilt in
    let e3 = list_summary-done L2 L' h2 in
    (
      sym (
          ap (λ (x : LibraryState). x.stored) e3
          ∙ ap (λ (x : LibraryState). x.stored) e2
          ∙ ap (λ (x : LibraryState). x.stored) e1),
      ap (λ (x : LibraryState). x.manifest) e3
          ∙ ap (λ (x : LibraryState). x.manifest) e2
          ∙ ap (λ (x : LibraryState). x.manifest) e1,
    )

-- When `add_item_category` succeeds on a tidy manifest, the item was indexed, its metadata lists the category without a
-- tombstone, no other item's metadata has changed, and the manifest has gained the one pair and
-- lost that of `unmatched`, unless `unmatched` is the category.
pub add_item_category-Listed :
    (id : Text) (category : CategoryPath) (L L' : LibraryState)
    → IsTidy L.manifest
    → add_item_category id category L ≡ (ok tt, L')
    → (doc : ItemDocument) × (get_item id L.index ≡ some doc)
      × OneEdited doc.dir (filed category.value) L.stored L'.stored
      × Listed doc.dir category.value L'.stored
      × ((k e : Text)
          → contains_pair k e L'.manifest ≡ (
              (contains_pair k e L.manifest || (str_eq id k && str_eq category.value e))
              && not (
                  not (str_eq category.value unmatched_category)
                  && (str_eq id k && str_eq unmatched_category e))))
unfolding add_item_category
add_item_category-Listed id category L L' tidy h =
    let (m', L1, done, e) = through (file_item_into_category id category L.manifest L) _ h in
    let (doc, found, there, v, pairs) = file-Edited id category L.manifest m' L L1 done in
    let (same, kept) = saved m' L1 L' e in
    let edited : OneEdited doc.dir (filed category.value) L.stored L'.stored =
      subst (OneEdited doc.dir (filed category.value) L.stored) same
        (Edited-OneEdited doc.dir _ L L1 there v) in
    let (s, _, now) = edited.0 in
    let (listed, kept_in, _) = filed-lists category.value s.membership in
    (
      doc,
      found,
      edited,
      (set_membership (filed category.value) s, now, listed, kept_in),
      λ k e. rw (kept, pairs) (filed_manifest-contains id category.value k e L.manifest tidy),
    )

-- When `remove_item_category` succeeds on a tidy manifest, the item was indexed, its metadata lists the category no
-- more and has a tombstone of it, no other item's metadata has changed, and the manifest has lost
-- the one pair.
pub remove_item_category-Tombstoned :
    (id : Text) (category : CategoryPath) (L L' : LibraryState)
    → IsTidy L.manifest
    → remove_item_category id category L ≡ (ok tt, L')
    → (doc : ItemDocument) × (get_item id L.index ≡ some doc)
      × OneEdited doc.dir (unfiled category.value) L.stored L'.stored
      × Tombstoned doc.dir category.value L'.stored
      × ((k e : Text)
          → contains_pair k e L'.manifest
            ≡ (contains_pair k e L.manifest && not (str_eq id k && str_eq category.value e)))
unfolding remove_item_category
remove_item_category-Tombstoned id category L L' tidy h =
    let (m', L1, done, e) = through (unfile_item_from_category id category L.manifest L) _ h in
    let (doc, found, there, v, pairs) = unfile-Edited id category L.manifest m' L L1 done in
    let (same, kept) = saved m' L1 L' e in
    let edited : OneEdited doc.dir (unfiled category.value) L.stored L'.stored =
      subst (OneEdited doc.dir (unfiled category.value) L.stored) same
        (Edited-OneEdited doc.dir _ L L1 there v) in
    let (s, _, now) = edited.0 in
    let (dropped, marked) = unfiled-lists category.value s.membership in
    (
      doc,
      found,
      edited,
      (set_membership (unfiled category.value) s, now, dropped, marked),
      λ k e.
          let (_, gone, _) = contains_pair-operations id category.value k e L.manifest tidy in
          rw (kept, pairs) gone,
    )
