-- ===== src/Model/CategoryEdits.antt =====
-- `Metadata::apply_category_edits` of crates/core/src/model/mod.rs over the interface of `toml_edit`,
-- and the proof that on the strings of the two arrays it is the edit of Membership.
pub mod Refinement
use localref.Base.{
  Text, text, List, [], ◌∷◌, ◌++◌, Option, none, some, Bool, true, false, not, if◌then◌else◌, any,
  retain, str_eq, Result, ok, ◌>>=◌,
}
use localref.Model.Toml.{TomlEdit}
use localref.Model.Membership.{Membership}

unfoldable pub categories_key : Text
unfolding text
categories_key = text "categories"

unfoldable pub state_key : Text
unfolding text
state_key = text "state"

unfoldable pub removed_key : Text
unfolding text
removed_key = text "removed_categories"

abbrev pub is_some {ℓ} : {A : Type ℓ} → Option A → Bool
is_some none = false
is_some (some _) = true

module _ (toml : TomlEdit) where
  open toml use {
    Value, Item, Table, parse, print, as_str, from_str, as_array, set_array, empty_array, as_table,
    of_table, new_table, get, insert, set_implicit,
  }

  abbrev pub is_string : Text → Value → Bool
  is_string v entry = elim (as_str entry) [ none ↦ false | some t ↦ str_eq t v ]

  abbrev pub item_is_array : Option Item → Bool
  item_is_array none = false
  item_is_array (some i) = is_some (as_array i)

  unfoldable pub ensure_string_array : Text → Table → Table
  ensure_string_array key table =
      if item_is_array (get key table) then table else insert key empty_array table

  unfoldable pub array_insert : Text → Item → Item
  unfolding any
  array_insert v item = elim (as_array item) [
    | none ↦ item
    | some array ↦
        (if any (is_string v) array then item else set_array (array ++ from_str v ∷ []) item)
  ]

  unfoldable pub array_remove : Text → Item → Item
  unfolding retain
  array_remove v item = elim (as_array item) [
    | none ↦ item
    | some array ↦ set_array (retain (λ entry. not (is_string v entry)) array) item
  ]

  -- A change in place of the item under a key that is there.
  abbrev pub update_found : Text → (Item → Item) → Table → Option Item → Table
  update_found key f table none = table
  update_found key f table (some i) = insert key (f i) table

  unfoldable pub update_at : Text → (Item → Item) → Table → Table
  update_at key f table = update_found key f table (get key table)

  unfoldable pub array_inserts : List Text → Item → Item
  unfolding array_insert
  array_inserts [] item = item
  array_inserts (v ∷ vs) item = array_inserts vs (array_insert v item)

  unfoldable pub array_removes : List Text → Item → Item
  unfolding array_remove
  array_removes [] item = item
  array_removes (v ∷ vs) item = array_removes vs (array_remove v item)

  -- `entry("state").or_insert_with(..)`, and the fresh table in place of another item
  abbrev pub table_or_new : Option Table → Table
  table_or_new none = new_table
  table_or_new (some t) = t

  abbrev pub state_of : Option Item → Table
  state_of none = new_table
  state_of (some i) = table_or_new (as_table i)

  unfoldable pub state_table : Table → Table
  state_table doc = state_of (get state_key doc)

  unfoldable pub edit_state : List Text → List Text → List Text → Table → Table
  unfolding ensure_string_array update_at array_inserts array_removes
  edit_state add remove drop state =
      update_at removed_key (λ item. array_inserts remove (array_removes (add ++ drop) item))
        (ensure_string_array removed_key (set_implicit false state))

  unfoldable pub edit_categories : List Text → List Text → List Text → Table → Table
  unfolding ensure_string_array update_at array_inserts array_removes
  edit_categories add remove drop doc =
      update_at categories_key (λ item. array_removes (remove ++ drop) (array_inserts add item))
        (ensure_string_array categories_key doc)

  unfoldable pub edit_document : List Text → List Text → List Text → Table → Table
  unfolding edit_categories edit_state state_table
  edit_document add remove drop doc =
      let doc' = edit_categories add remove drop doc in
      insert state_key (of_table (edit_state add remove drop (state_table doc'))) doc'

  unfoldable pub apply_category_edits : Text → List Text → List Text → List Text → Result Text
  unfolding edit_document
  apply_category_edits source add remove drop = do
    doc ← parse source
    ok (print (edit_document add remove drop doc))

  -- The strings of an array, other values left out; of an item that is no array, none.
  abbrev pub strings : List Value → List Text
  strings [] = []
  strings (v ∷ vs) = elim (as_str v) [ none ↦ strings vs | some t ↦ t ∷ strings vs ]

  abbrev pub strings_of : Option (List Value) → List Text
  strings_of none = []
  strings_of (some vs) = strings vs

  abbrev pub texts : Option Item → List Text
  texts none = []
  texts (some i) = strings_of (as_array i)

  unfoldable pub texts_at : Text → Table → List Text
  texts_at key table = texts (get key table)

  -- The membership that a document states.
  unfoldable pub membership : Table → Membership
  unfolding texts_at state_table
  membership doc = record {
    categories = texts_at categories_key doc;
    removed = texts_at removed_key (state_table doc);
  }
