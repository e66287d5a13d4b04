-- ===== src/Model/CategoryEdits/Refinement.antt =====
-- The edit of a document is the edit of the membership that it states.
use localref.Base.{
  Text, ◌≡◌, refl, ap, ◌∙◌, List, [], ◌∷◌, ◌++◌, some, false, not, arith, any, retain, contains,
  str_eq, str_eq_refl, Bool-cases, Option-cases, inl, inr,
}
use localref.Model.Toml.{TomlEdit}
use localref.Model.Membership.{insert_text, remove_text, insert_texts, remove_texts, edit}
use localref.Model.CategoryEdits.{
  categories_key, state_key, removed_key, is_string, ensure_string_array, array_insert,
  array_remove, update_at, array_inserts, array_removes, state_table, state_of, table_or_new,
  edit_state, edit_categories, edit_document, strings, texts, texts_at, membership,
}

module _ (toml : TomlEdit) where
  open toml use {
    Value, Item, Table, parse, print, as_str, from_str, as_array, set_array, empty_array, as_table,
    of_table, new_table, get, insert, set_implicit, as_str-from_str, as_array-empty,
    as_array-set_array, as_table-of_table, get-new_table, get-insert, get-set_implicit,
  }

  strings-push :
      (vs : List Value) (v : Text)
      → strings toml (vs ++ from_str v ∷ []) ≡ strings toml vs ++ v ∷ []
  strings-push [] v = ground (arith, as_str-from_str v)
  strings-push (x ∷ xs) v = ground (arith, strings-push xs v)

  any-is_string :
      (v : Text) (vs : List Value) → any (is_string toml v) vs ≡ contains (strings toml vs) v
  unfolding any contains
  any-is_string v [] = refl
  any-is_string v (x ∷ xs) = ground (arith, any-is_string v xs)

  strings-retain :
      (v : Text) (vs : List Value)
      → strings toml (retain (λ entry. not (is_string toml v entry)) vs)
        ≡ remove_text v (strings toml vs)
  unfolding retain remove_text
  strings-retain v [] = refl
  strings-retain v (x ∷ xs) = ground (arith, strings-retain v xs)

  -- The item is an array of which `ts` are the strings.
  abbrev Holds : Item → List Text → Type 0
  Holds i ts = (vs : List Value) × (as_array i ≡ some vs) × (strings toml vs ≡ ts)

  Holds-insert :
      (v : Text) (i : Item) (ts : List Text)
      → Holds i ts
      → Holds (array_insert toml v i) (insert_text v ts)
  unfolding insert_text array_insert
  Holds-insert v i ts (vs, a, s) = elim (Bool-cases (any (is_string toml v) vs)) [
    | inl old ↦ (vs, ground arith, ground (arith, any-is_string v vs))
    | inr new ↦ (
      vs ++ from_str v ∷ [],
      ground (arith, as_array-set_array i vs (vs ++ from_str v ∷ []) a),
      ground (arith, any-is_string v vs, strings-push vs v),
    )
  ]

  Holds-remove :
      (v : Text) (i : Item) (ts : List Text)
      → Holds i ts
      → Holds (array_remove toml v i) (remove_text v ts)
  unfolding array_remove
  Holds-remove v i ts (vs, a, s) = (
    retain (λ entry. not (is_string toml v entry)) vs,
    ground (arith, as_array-set_array i vs (retain (λ entry. not (is_string toml v entry)) vs) a),
    strings-retain v vs ∙ ap (remove_text v) s,
  )

  Holds-inserts :
      (ws : List Text) (i : Item) (ts : List Text)
      → Holds i ts
      → Holds (array_inserts toml ws i) (insert_texts ws ts)
  unfolding array_inserts insert_texts
  Holds-inserts [] i ts h = h
  Holds-inserts (w ∷ ws) i ts h =
      Holds-inserts ws (array_insert toml w i) (insert_text w ts) (Holds-insert w i ts h)

  Holds-removes :
      (ws : List Text) (i : Item) (ts : List Text)
      → Holds i ts
      → Holds (array_removes toml ws i) (remove_texts ws ts)
  unfolding array_removes remove_texts
  Holds-removes [] i ts h = h
  Holds-removes (w ∷ ws) i ts h =
      Holds-removes ws (array_remove toml w i) (remove_text w ts) (Holds-remove w i ts h)

  abbrev HoldsAt : Text → Table → List Text → Type 0
  HoldsAt key t ts = (i : Item) × (get key t ≡ some i) × Holds i ts

  HoldsAt-fresh : (key : Text) (t : Table) → HoldsAt key (insert key empty_array t) []
  HoldsAt-fresh key t =
      (empty_array, rw get-insert (rw str_eq_refl refl), ([], as_array-empty, refl))

  HoldsAt-ensure :
      (key : Text) (t : Table) → HoldsAt key (ensure_string_array toml key t) (texts_at toml key t)
  unfolding ensure_string_array texts_at
  HoldsAt-ensure key t = elim (Option-cases (get key t)) [
    | inl e ↦ rw e (HoldsAt-fresh key t)
    | inr (i, e) ↦ elim (Option-cases (as_array i)) [
      | inl none_at ↦ rw (e, none_at) (HoldsAt-fresh key t)
      | inr (vs, a) ↦ rw (e, a) (i, e, (vs, a, refl))
    ]
  ]

  HoldsAt-update :
      (key : Text) (f : Item → Item) (t : Table) (ts us : List Text)
      → ((i : Item) → Holds i ts → Holds (f i) us)
      → HoldsAt key t ts
      → HoldsAt key (update_at toml key f t) us
  unfolding update_at
  HoldsAt-update key f t ts us step (i, g, h) =
      (f i, rw g (rw get-insert (rw str_eq_refl refl)), step i h)

  texts-HoldsAt :
      (key : Text) (t : Table) (ts : List Text) → HoldsAt key t ts → texts_at toml key t ≡ ts
  unfolding texts_at
  texts-HoldsAt key t ts (i, g, (vs, a, s)) = ground arith

  get-ensure :
      (k key : Text) (t : Table)
      → str_eq key k ≡ false
      → get k (ensure_string_array toml key t) ≡ get k t
  unfolding ensure_string_array
  get-ensure k key t ne = ground (arith, get-insert k key empty_array t)

  get-update :
      (k key : Text) (f : Item → Item) (t : Table)
      → str_eq key k ≡ false
      → get k (update_at toml key f t) ≡ get k t
  unfolding update_at
  get-update k key f t ne = elim (Option-cases (get key t)) [
    | inl e ↦ rw e
    | inr (i, e) ↦ rw e (ground (arith, get-insert k key (f i) t))
  ]

  -- The edit of the state table, and of the root table, on the strings of their arrays.
  texts-edit_state :
      (add remove drop : List Text) (state : Table)
      → texts_at toml removed_key (edit_state toml add remove drop state)
        ≡ insert_texts remove (remove_texts (add ++ drop) (texts_at toml removed_key state))
  unfolding edit_state
  texts-edit_state add remove drop state =
      texts-HoldsAt removed_key _ _ (
        HoldsAt-update removed_key _ _ _ _
          (λ i h. Holds-inserts remove _ _ (Holds-removes (add ++ drop) i _ h))
          (HoldsAt-ensure removed_key (set_implicit false state)))
      ∙ ap (λ ts. insert_texts remove (remove_texts (add ++ drop) ts))
          (unfold texts_at in rw get-set_implicit refl)

  texts-edit_categories :
      (add remove drop : List Text) (doc : Table)
      → texts_at toml categories_key (edit_categories toml add remove drop doc)
        ≡ remove_texts (remove ++ drop) (insert_texts add (texts_at toml categories_key doc))
  unfolding edit_categories
  texts-edit_categories add remove drop doc = texts-HoldsAt categories_key _ _ (
      HoldsAt-update categories_key _ _ _ _
        (λ i h. Holds-removes (remove ++ drop) _ _ (Holds-inserts add i _ h))
        (HoldsAt-ensure categories_key doc))

  state-edit_categories :
      (add remove drop : List Text) (doc : Table)
      → state_table toml (edit_categories toml add remove drop doc) ≡ state_table toml doc
  unfolding edit_categories state_table categories_key state_key
  state-edit_categories add remove drop doc = ap (state_of toml) (
      get-update state_key categories_key _ _ (unfold str_eq in refl)
      ∙ get-ensure state_key categories_key doc (unfold str_eq in refl))

  categories-insert_state :
      (state doc : Table)
      → texts_at toml categories_key (insert state_key (of_table state) doc)
        ≡ texts_at toml categories_key doc
  unfolding texts_at str_eq state_key categories_key
  categories-insert_state state doc =
      ap (texts toml) (get-insert categories_key state_key (of_table state) doc)

  state-insert_state :
      (state doc : Table) → state_table toml (insert state_key (of_table state) doc) ≡ state
  unfolding state_table str_eq state_key
  state-insert_state state doc =
      ap (state_of toml) (get-insert state_key state_key (of_table state) doc)
      ∙ ap (table_or_new toml) (as_table-of_table state)

  -- Editing a document edits the membership that it states: on the strings of `categories` and of
  -- `[state].removed_categories`, whatever those were before, the edit is that of `Membership`.
  pub membership-edit_document :
      (add remove drop : List Text) (doc : Table)
      → membership toml (edit_document toml add remove drop doc)
        ≡ edit add remove drop (membership toml doc)
  unfolding membership edit_document edit
  membership-edit_document add remove drop doc =
      λ i. record { categories = by_categories i; removed = by_removed i }
    where
      doc' : Table
      doc' = edit_categories toml add remove drop doc

      state : Table
      state = edit_state toml add remove drop (state_table toml doc')

      by_categories :
          texts_at toml categories_key (insert state_key (of_table state) doc')
          ≡ remove_texts (remove ++ drop) (insert_texts add (texts_at toml categories_key doc))
      by_categories = categories-insert_state state doc' ∙ texts-edit_categories add remove drop doc

      by_removed :
          texts_at toml removed_key (state_table toml (insert state_key (of_table state) doc'))
          ≡ insert_texts remove
              (remove_texts (add ++ drop) (texts_at toml removed_key (state_table toml doc)))
      by_removed =
          ap (texts_at toml removed_key) (state-insert_state state doc')
          ∙ texts-edit_state add remove drop (state_table toml doc')
          ∙ ap (λ t. insert_texts remove (remove_texts (add ++ drop) (texts_at toml removed_key t)))
              (state-edit_categories add remove drop doc)
