-- ===== src/Library/Filing.antt =====
-- What filing an item into a category and taking it out again do to its metadata, to the manifest
-- and to the other items.
use localref.Base.{
  Text, ◌≡◌, refl, ap, sym, subst, ◌∙◌, List, [], ◌∷◌, Bool, true, false, if◌then◌else◌, Option,
  none, some, str_eq, ok, arith,
}
use localref.Types.CategoryPath.{CategoryPath}
use localref.Model.Membership.{Membership, edit}
use localref.Model.Manifest.{CatManifest, insert, remove}
use localref.Library.State.{
  LibraryState, StoredItem, ItemDocument, get_item, item_exists, edit_item_categories,
}
use localref.Library.State.Actions.{through}
use localref.Library.Categories.{
  unmatched_category, unmatched_path, clear_unmatched, file_item_into_category,
  unfile_item_from_category, cleared_unless, link_item, unlink_item,
}
use localref.Library.Traces.{
  stored_at, update_option, stored_at-update, edit-through, link-through, unlink-through,
}

-- One item's metadata is edited by `f`, and nothing else of what is stored or indexed changes.
pub record Edited (dir : Text) (f : Membership → Membership) (L L' : LibraryState) : Type 0 where
  pub stored :
      (e : Text)
      → stored_at e L'.stored
        ≡ (if str_eq e dir then update_option f (stored_at e L.stored) else stored_at e L.stored)
  pub index : L'.index ≡ L.index
  pub manifest : L'.manifest ≡ L.manifest

-- The metadata of an item that is filed into a category.
abbrev pub filed : Text → Membership → Membership
filed c m =
    if str_eq c unmatched_category
    then edit (c ∷ []) [] [] m
    else edit [] [] (unmatched_category ∷ []) (edit (c ∷ []) [] [] m)

abbrev pub unfiled : Text → Membership → Membership
unfiled c m = edit [] (c ∷ []) [] m

abbrev pub filed_manifest : Text → Text → CatManifest → CatManifest
filed_manifest id c m =
    if str_eq c unmatched_category
    then insert id c m
    else remove id unmatched_category (insert id c m)

pub edit-Edited :
    (id : Text) (a r d : List Text) (dir : Text) (L L' : LibraryState)
    → edit_item_categories id a r d L ≡ (ok dir, L')
    → (doc : ItemDocument) × (get_item id L.index ≡ some doc)
      × (doc.dir ≡ dir)
      × (item_exists L dir ≡ true)
      × Edited dir (edit a r d) L L'
edit-Edited id a r d dir L L' h =
    let (doc, found, own, there, e) = edit-through id a r d dir L L' h in
    (
      doc,
      found,
      own,
      there,
      record {
        stored = λ x. rw e (stored_at-update x dir (edit a r d) L.stored);
        index = ap (λ (s : LibraryState). s.index) e;
        manifest = ap (λ (s : LibraryState). s.manifest) e;
      },
    )

pub link-Edited :
    (category : CategoryPath) (dir : Text) (e : Text) (f : Membership → Membership)
    (L L' L'' : LibraryState)
    → Edited e f L L'
    → link_item category dir L' ≡ (ok tt, L'')
    → Edited e f L L''
link-Edited category dir e f L L' L'' v h =
    let (tree, _, eq) = link-through category dir L' L'' h in
    record {
      stored = λ x. rw eq (v.stored x);
      index = ap (λ (s : LibraryState). s.index) eq ∙ v.index;
      manifest = ap (λ (s : LibraryState). s.manifest) eq ∙ v.manifest;
    }

pub unlink-Edited :
    (category : CategoryPath) (dir : Text) (e : Text) (f : Membership → Membership)
    (L L' L'' : LibraryState)
    → Edited e f L L'
    → unlink_item category dir L' ≡ (ok tt, L'')
    → Edited e f L L''
unlink-Edited category dir e f L L' L'' v h =
    let (_, tree, _, eq) = unlink-through category dir L' L'' h in
    record {
      stored = λ x. rw eq (v.stored x);
      index = ap (λ (s : LibraryState). s.index) eq ∙ v.index;
      manifest = ap (λ (s : LibraryState). s.manifest) eq ∙ v.manifest;
    }

pub update_option-twice :
    (f g : Membership → Membership) (o : Option StoredItem)
    → update_option g (update_option f o) ≡ update_option (λ m. g (f m)) o
update_option-twice f g none = refl
update_option-twice f g (some s) = refl

-- Two edits of one item, one after the other.
pub Edited-twice :
    (dir : Text) (f g : Membership → Membership) (L L' L'' : LibraryState)
    → Edited dir f L L'
    → Edited dir g L' L''
    → Edited dir (λ m. g (f m)) L L''
Edited-twice dir f g L L' L'' v w = record {
  stored =
      λ x. ground (arith, v.stored x, w.stored x, update_option-twice f g (stored_at x L.stored));
  index = w.index ∙ v.index;
  manifest = w.manifest ∙ v.manifest;
}

clear-Edited :
    (id dir : Text) (doc : ItemDocument) (m m' : CatManifest) (L L' : LibraryState)
    → get_item id L.index ≡ some doc
    → doc.dir ≡ dir
    → clear_unmatched id dir m L ≡ (ok m', L')
    → Edited dir (edit [] [] (unmatched_category ∷ [])) L L' × (m' ≡ remove id unmatched_category m)
unfolding clear_unmatched
clear-Edited id dir doc m m' L L' found own h =
    let (dir', L1, edited, h1) =
      through (edit_item_categories id [] [] (unmatched_category ∷ []) L) _ h in
    let (_, L2, unlinked, h2) = through (unlink_item unmatched_path dir L1) _ h1 in
    let (doc', found', own', _, v) =
      edit-Edited id [] [] (unmatched_category ∷ []) dir' L L1 edited in
    let same : dir' ≡ dir = cc in
    let v1 : Edited dir (edit [] [] (unmatched_category ∷ [])) L L1 =
      subst (λ x. Edited x (edit [] [] (unmatched_category ∷ [])) L L1) same v in
    let e : L2 ≡ L' = cc in
    (
      subst (Edited dir (edit [] [] (unmatched_category ∷ [])) L) e
          (unlink-Edited unmatched_path dir dir _ L L1 L2 v1 unlinked),
      cc,
    )

cleared-Edited :
    (b : Bool) (id dir : Text) (doc : ItemDocument) (f : Membership → Membership)
    (m m' : CatManifest) (L L1 L' : LibraryState)
    → get_item id L.index ≡ some doc
    → doc.dir ≡ dir
    → Edited dir f L L1
    → cleared_unless b id dir m L1 ≡ (ok m', L')
    → Edited dir (λ x. if b then f x else edit [] [] (unmatched_category ∷ []) (f x)) L L'
      × (m' ≡ (if b then m else remove id unmatched_category m))
cleared-Edited true id dir doc f m m' L L1 L' found own v h =
    let e : L1 ≡ L' = cc in (subst (Edited dir f L) e v, cc)
cleared-Edited false id dir doc f m m' L L1 L' found own v h =
    let found1 : get_item id L1.index ≡ some doc = cc v.index in
    let (w, e) = clear-Edited id dir doc m m' L1 L' found1 own h in
    (Edited-twice dir f _ L L1 L' v w, e)

-- A successful filing edits the metadata of the one item, and returns the manifest with its pair.
pub file-Edited :
    (id : Text) (category : CategoryPath) (m m' : CatManifest) (L L' : LibraryState)
    → file_item_into_category id category m L ≡ (ok m', L')
    → (doc : ItemDocument) × (get_item id L.index ≡ some doc)
      × (item_exists L doc.dir ≡ true)
      × Edited doc.dir (filed category.value) L L'
      × (m' ≡ filed_manifest id category.value m)
unfolding file_item_into_category
file-Edited id category m m' L L' h =
    let (dir, L1, edited, h1) =
      through (edit_item_categories id (category.value ∷ []) [] [] L) _ h in
    let (_, L2, linked, h2) = through (link_item category dir L1) _ h1 in
    let (doc, found, own, there, v) = edit-Edited id (category.value ∷ []) [] [] dir L L1 edited in
    let v2 = link-Edited category dir dir _ L L1 L2 v linked in
    let (w, e) =
      cleared-Edited (str_eq category.value unmatched_category) id dir doc _
        (insert id category.value m) m' L L2 L' found own v2 h2 in
    (
      doc,
      found,
      subst (λ x. item_exists L x ≡ true) (sym own) there,
      subst (λ x. Edited x (filed category.value) L L') (sym own) w,
      e,
    )

-- A successful removal edits the metadata of the one item, and returns the manifest without its
-- pair.
pub unfile-Edited :
    (id : Text) (category : CategoryPath) (m m' : CatManifest) (L L' : LibraryState)
    → unfile_item_from_category id category m L ≡ (ok m', L')
    → (doc : ItemDocument) × (get_item id L.index ≡ some doc)
      × (item_exists L doc.dir ≡ true)
      × Edited doc.dir (unfiled category.value) L L'
      × (m' ≡ remove id category.value m)
unfolding unfile_item_from_category
unfile-Edited id category m m' L L' h =
    let (dir, L1, edited, h1) =
      through (edit_item_categories id [] (category.value ∷ []) [] L) _ h in
    let (_, L2, unlinked, h2) = through (unlink_item category dir L1) _ h1 in
    let (doc, found, own, there, v) = edit-Edited id [] (category.value ∷ []) [] dir L L1 edited in
    let w = unlink-Edited category dir dir _ L L1 L2 v unlinked in
    let e : L2 ≡ L' = cc in
    (
      doc,
      found,
      subst (λ x. item_exists L x ≡ true) (sym own) there,
      subst (λ x. Edited x (unfiled category.value) L L') (sym own)
          (subst (Edited dir (unfiled category.value) L) e w),
      cc,
    )
