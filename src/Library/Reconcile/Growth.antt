-- ===== src/Library/Reconcile/Growth.antt =====
-- What reconciling does to the metadata: no category is lost, and a category is gained only from a
-- link on disk, and never against a tombstone.
use localref.Base.{
  ℕ, Text, ◌≡◌, ap, sym, subst, ◌∙◌, ◌⊎◌, inl, inr, List, [], ◌∷◌, Bool, true, false, ◌||◌, some,
  str_eq, str_eq_iff, contains, ok, arith, Bool-cases,
}
use localref.Types.CategoryPath.{CategoryPath}
use localref.Model.Membership.{Membership, edit, contains-edit}
use localref.Model.Manifest.{CatManifest, insert}
use localref.Library.State.{LibraryState, StoredItem, ItemDocument, set_membership}
use localref.Library.State.Actions.{lift, through}
use localref.Library.Categories.{link_item}
use localref.Library.Traces.{stored_at, link-through}
use localref.Library.Filing.{Edited}
use localref.Library.Outcome.{contains-one, contains-nil}
use localref.Library.Reconcile.{holds_pair, tombstones, checked_path, project, reconcile_listed}

-- A category that a link on disk gives to an item in this directory, and that has no tombstone there.
abbrev pub Adoptable : List StoredItem → List (Text × Text) → Text → Text → Type 0
Adoptable before on_disk dir c =
    (item : ItemDocument) × (item.dir ≡ dir)
    × (holds_pair item.id c on_disk ≡ true)
    × (contains (tombstones dir before) c ≡ false)

-- Each item is still there, lists what it listed, and beyond that only what is allowed.
abbrev pub Grown : (Text → Text → Type 0) → List StoredItem → List StoredItem → Type 0
Grown allowed ss ss' =
    (e : Text) (s : StoredItem)
    → stored_at e ss ≡ some s
    → (s' : StoredItem) × (stored_at e ss' ≡ some s')
      × ((c : Text)
          → contains s.membership.categories c ≡ true
          → contains s'.membership.categories c ≡ true)
      × ((c : Text)
          → contains s'.membership.categories c ≡ true
          → (contains s.membership.categories c ≡ true) ⊎ allowed e c)

module _ (allowed : Text → Text → Type 0) where
  pub Grown-refl : (ss : List StoredItem) → Grown allowed ss ss
  Grown-refl ss e s h = (s, h, λ c x. x, λ c x. inl x)

  pub Grown-trans :
      (ss ss' ss'' : List StoredItem)
      → Grown allowed ss ss'
      → Grown allowed ss' ss''
      → Grown allowed ss ss''
  Grown-trans ss ss' ss'' g g' e s h =
      let (s', h', keeps, gains) = g e s h in
      let (s'', h'', keeps', gains') = g' e s' h' in
      (
        s'',
        h'',
        λ c x. keeps' c (keeps c x),
        λ c x. elim (gains' c x) [ inl y ↦ gains c y | inr y ↦ inr y ],
      )

  added-lists :
      (c x : Text) (m : Membership)
      → contains (edit (c ∷ []) [] [] m).categories x ≡ (contains m.categories x || str_eq c x)
  added-lists c x m =
      ground (arith, contains-edit (c ∷ []) [] [] m x, contains-one c x, contains-nil x)

  pub Edited-Grown :
      (dir c : Text) (L L' : LibraryState)
      → allowed dir c
      → Edited dir (edit (c ∷ []) [] []) L L'
      → Grown allowed L.stored L'.stored
  Edited-Grown dir c L L' may v e s h = elim (Bool-cases (str_eq e dir)) [
    | inl here ↦
        let own : e ≡ dir = ground (arith, str_eq_iff e dir) in
        (
          set_membership (edit (c ∷ []) [] []) s,
          ground (arith, v.stored e),
          λ x y. ground (arith, added-lists c x s.membership),
          λ x y. elim (Bool-cases (str_eq c x)) [
            | inl same ↦
                let k : c ≡ x = ground (arith, str_eq_iff c x) in
                inr (subst (λ z. allowed e z) k (subst (λ z. allowed z c) (sym own) may))
            | inr other ↦ inl (ground (arith, added-lists c x s.membership))
          ],
        )
    | inr there ↦ (s, ground (arith, v.stored e), λ x y. y, λ x y. inl y)
  ]

project-stored :
    (b : Bool) (item : ItemDocument) (path : CategoryPath) (n n' : ℕ) (L L' : LibraryState)
    → project b item path n L ≡ (ok n', L')
    → (L'.stored ≡ L.stored) × (L'.index ≡ L.index)
project-stored true item path n n' L L' h = (cc, cc)
project-stored false item path n n' L L' h =
    let (_, L1, linked, e) = through (link_item path item.dir L) _ h in
    let (_, _, eq) = link-through path item.dir L L1 linked in (cc, cc)

pub listed-stored :
    (item : ItemDocument) (on_disk : List (Text × Text)) (cs : List Text) (m : CatManifest) (n : ℕ)
    (r : CatManifest × ℕ) (L L' : LibraryState)
    → reconcile_listed item on_disk cs m n L ≡ (ok r, L')
    → (L'.stored ≡ L.stored) × (L'.index ≡ L.index)
unfolding reconcile_listed
listed-stored item on_disk [] m n r L L' h = (cc, cc)
listed-stored item on_disk (c ∷ cs) m n r L L' h =
    let (path, L1, checked, h1) =
      through (lift (checked_path c "indexed category path is invalid") L) _ h in
    let (n1, L2, projected, h2) =
      through (project (holds_pair item.id c on_disk) item path n L1) _ h1 in
    let (same, index) =
      project-stored (holds_pair item.id c on_disk) item path n n1 L1 L2 projected in
    let (same', index') = listed-stored item on_disk cs (insert item.id c m) n1 r L2 L' h2 in
    let e : L ≡ L1 = cc in
    (
      same' ∙ same ∙ ap (λ (s : LibraryState). s.stored) (sym e),
      index' ∙ index ∙ ap (λ (s : LibraryState). s.index) (sym e),
    )
