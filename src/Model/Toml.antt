-- ===== src/Model/Toml.antt =====
-- What crates/core/src/model/mod.rs uses of the `toml_edit` crate, which is not in this repository.
use localref.Base.{Text, ◌≡◌, List, [], Option, none, some, Bool, Result, str_eq, if◌then◌else◌}

pub record TomlEdit : Type 1 where
  pub Value : Type 0
  pub Item : Type 0
  pub Table : Type 0
  -- `str::parse::<DocumentMut>` and `DocumentMut::to_string`, on the document's root table
  pub parse : Text → Result Table
  pub print : Table → Text
  pub as_str : Value → Option Text
  pub from_str : Text → Value
  pub as_array : Item → Option (List Value)
  -- an array item after its elements were changed in place
  pub set_array : List Value → Item → Item
  -- `toml_edit::value(Array::new())`
  pub empty_array : Item
  pub as_table : Item → Option Table
  pub of_table : Table → Item
  pub new_table : Table
  pub get : Text → Table → Option Item
  pub insert : Text → Item → Table → Table
  pub set_implicit : Bool → Table → Table
  pub as_str-from_str : (t : Text) → as_str (from_str t) ≡ some t
  pub as_array-empty : as_array empty_array ≡ some []
  pub as_array-set_array :
      (i : Item) (vs ws : List Value) → as_array i ≡ some vs → as_array (set_array ws i) ≡ some ws
  pub as_table-of_table : (t : Table) → as_table (of_table t) ≡ some t
  pub get-new_table : (k : Text) → get k new_table ≡ none
  pub get-insert :
      (k j : Text) (i : Item) (t : Table)
      → get k (insert j i t) ≡ (if str_eq j k then some i else get k t)
  pub get-set_implicit : (k : Text) (b : Bool) (t : Table) → get k (set_implicit b t) ≡ get k t
