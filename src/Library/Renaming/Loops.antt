-- ===== src/Library/Renaming/Loops.antt =====
-- The loops of `remap_category_prefix` over the items and their categories.
use localref.Base.{
  Text, ◌≡◌, refl, ap, sym, subst, ◌∙◌, List, [], ◌∷◌, if◌then◌else◌, Option, none, some, str_eq,
  ok, arith,
}
use localref.Types.CategoryPath.{CategoryPath}
use localref.Model.Membership.{edit}
use localref.Model.Manifest.{CatManifest}
use localref.Library.State.{
  LibraryState, StoredItem, ItemDocument, get_item, edit_item_categories, save_manifest-done,
}
use localref.Library.State.Actions.{through}
use localref.Library.Traces.{stored_at, update_option}
use localref.Library.Filing.{Edited, edit-Edited, Edited-twice}
use localref.Library.Renaming.{remap, remap_one, remap_item, remap_items, remap_category_prefix}
use localref.Library.Renaming.Remap.{remap_edit, remap_edits}

update_option_id : (o : Option StoredItem) → update_option (λ m. m) o ≡ o
update_option_id none = refl
update_option_id (some s) = refl

Edited-id : (dir : Text) (L : LibraryState) → Edited dir (λ m. m) L L
Edited-id dir L = record {
  stored = λ e. ground (arith, update_option_id (stored_at e L.stored));
  index = refl;
  manifest = refl;
}

remap_one-Edited :
    (id c : Text) (o : Option Text) (doc : ItemDocument) (m m' : CatManifest) (L L' : LibraryState)
    → get_item id L.index ≡ some doc
    → remap_one id c o m L ≡ (ok m', L')
    → Edited doc.dir (remap_edit c o) L L'
remap_one-Edited id c none doc m m' L L' found h =
    let e : L ≡ L' = cc in subst (Edited doc.dir (λ x. x) L) e (Edited-id doc.dir L)
remap_one-Edited id c (some new) doc m m' L L' found h =
    let (dir, L1, edited, h1) = through (edit_item_categories id (new ∷ []) [] (c ∷ []) L) _ h in
    let (doc', found', own, _, v) = edit-Edited id (new ∷ []) [] (c ∷ []) dir L L1 edited in
    let same : dir ≡ doc.dir = cc in
    let e : L1 ≡ L' = cc in
    subst (λ x. Edited x (edit (new ∷ []) [] (c ∷ [])) L L') same
      (subst (Edited dir (edit (new ∷ []) [] (c ∷ [])) L) e v)

remap_item-Edited :
    (from to id : Text) (cs : List Text) (doc : ItemDocument) (m m' : CatManifest)
    (L L' : LibraryState)
    → get_item id L.index ≡ some doc
    → remap_item from to id cs m L ≡ (ok m', L')
    → Edited doc.dir (remap_edits from to cs) L L'
unfolding remap_item remap_edits
remap_item-Edited from to id [] doc m m' L L' found h =
    let e : L ≡ L' = cc in subst (Edited doc.dir (λ x. x) L) e (Edited-id doc.dir L)
remap_item-Edited from to id (c ∷ cs) doc m m' L L' found h =
    let (m1, L1, one, h1) = through (remap_one id c (remap from to c) m L) _ h in
    let v = remap_one-Edited id c (remap from to c) doc m m1 L L1 found one in
    let found1 : get_item id L1.index ≡ some doc = cc v.index in
    Edited-twice doc.dir _ _ L L1 L' v (remap_item-Edited from to id cs doc m1 m' L1 L' found1 h1)

-- The documents that the loop goes through are those that their ids stand for.
abbrev pub Resolves : List ItemDocument → List ItemDocument → Type 0
Resolves [] index = Unit {0}
Resolves (d ∷ ds) index = (get_item d.id index ≡ some d) × Resolves ds index

-- What the loop makes of the item in a directory.
unfoldable pub remapped :
    Text → Text → List ItemDocument → Text → Option StoredItem → Option StoredItem
remapped from to [] e o = o
remapped from to (d ∷ ds) e o =
    remapped from to ds e
      (if str_eq e d.dir then update_option (remap_edits from to d.categories) o else o)

remap_items-stored :
    (from to : Text) (docs : List ItemDocument) (m m' : CatManifest) (L L' : LibraryState)
    → Resolves docs L.index
    → remap_items from to docs m L ≡ (ok m', L')
    → (L'.index ≡ L.index)
      × ((e : Text) → stored_at e L'.stored ≡ remapped from to docs e (stored_at e L.stored))
unfolding remap_items remapped
remap_items-stored from to [] m m' L L' all h =
    let e : L ≡ L' = cc in
    (
      ap (λ (s : LibraryState). s.index) (sym e),
      λ x. ap (λ (s : LibraryState). stored_at x s.stored) (sym e),
    )
remap_items-stored from to (d ∷ ds) m m' L L' (here, rest) h =
    let (m1, L1, one, h1) = through (remap_item from to d.id d.categories m L) _ h in
    let v = remap_item-Edited from to d.id d.categories d m m1 L L1 here one in
    let (kept, later) =
      remap_items-stored from to ds m1 m' L1 L' (subst (Resolves ds) (sym v.index) rest) h1 in
    (kept ∙ v.index, λ x. later x ∙ ap (remapped from to ds x) (v.stored x))

-- When `remap_category_prefix` succeeds on an index whose ids stand for its documents, the index is
-- as before, and each stored item has had the edits of the documents of its directory, in their order.
pub remap_category_prefix-stored :
    (from to : CategoryPath) (L L' : LibraryState)
    → Resolves L.index L.index
    → remap_category_prefix from to L ≡ (ok tt, L')
    → (L'.index ≡ L.index)
      × ((e : Text)
          → stored_at e L'.stored ≡ remapped from.value to.value L.index e (stored_at e L.stored))
unfolding remap_category_prefix
remap_category_prefix-stored from to L L' all h =
    let (m', L1, done, e) = through (remap_items from.value to.value L.index L.manifest L) _ h in
    let (kept, stored) =
      remap_items-stored from.value to.value L.index L.manifest m' L L1 all done in
    let after : L' ≡ record L1 { manifest = m' } = save_manifest-done m' L1 L' e in
    let same : L1.stored ≡ L'.stored = sym (ap (λ (x : LibraryState). x.stored) after) in
    let index : L1.index ≡ L'.index = sym (ap (λ (x : LibraryState). x.index) after) in
    (sym index ∙ kept, λ x. ap (stored_at x) (sym same) ∙ stored x)
