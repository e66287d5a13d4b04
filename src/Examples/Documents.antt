-- ===== src/Examples/Documents.antt =====
-- Documents in which the category edits of crates/core/src/model/mod.rs run.
use localref.Base.{
  Text, text, ◌≡◌, refl, List, [], ◌∷◌, Option, none, some, if◌then◌else◌, str_eq, ok,
}
use localref.Model.Toml.{TomlEdit}
use localref.Model.Membership.{Membership, edit}
use localref.Model.CategoryEdits.{edit_document, membership, categories_key, state_key, removed_key}
use localref.Model.CategoryEdits.Refinement.{membership-edit_document}

-- A small document model: items are arrays of texts, tables, or anything else; a table is the list
-- of its assignments, the last one in front.
mutual
  data Node : Type 0 where
    array : List Text → Node
    table : Entries → Node
    other : Node

  data Entries : Type 0 where
    nothing : Entries
    assign : Text → Node → Entries → Entries

abbrev lookup : Text → Entries → Option Node
lookup k nothing = none
lookup k (assign j i t) = let rest = lookup k t in if str_eq j k then some i else rest

abbrev node_array : Node → Option (List Text)
node_array (array vs) = some vs
node_array _ = none

abbrev node_table : Node → Option Entries
node_table (table t) = some t
node_table _ = none

abbrev put_array : List Text → Node → Node
put_array vs _ = array vs

array-put_array :
    (i : Node) (vs ws : List Text) → node_array i ≡ some vs → node_array (put_array ws i) ≡ some ws
array-put_array i vs ws h = refl

abbrev small_toml : TomlEdit
small_toml = record {
  Value = Text;
  Item = Node;
  Table = Entries;
  parse = λ _. ok nothing;
  print = λ _. [];
  as_str = λ t. some t;
  from_str = λ t. t;
  as_array = node_array;
  set_array = put_array;
  empty_array = array [];
  as_table = node_table;
  of_table = table;
  new_table = nothing;
  get = lookup;
  insert = assign;
  set_implicit = λ _ t. t;
  as_str-from_str = λ _. refl;
  as_array-empty = refl;
  as_array-set_array = array-put_array;
  as_table-of_table = λ _. refl;
  get-new_table = λ _. refl;
  get-insert = λ _ _ _ _. refl;
  get-set_implicit = λ _ _ _. refl;
}

-- An item in `Vision` that is kept out of `Robotics`.
abbrev document : Entries
document = assign (text "categories") (array (text "Vision" ∷ [])) (
    assign (text "state")
      (table (assign (text "removed_categories") (array (text "Robotics" ∷ [])) nothing)) nothing)

-- Filing it in `Robotics` clears the tombstone.
files :
    membership small_toml (edit_document small_toml (text "Robotics" ∷ []) [] [] document)
    ≡ record { categories = text "Vision" ∷ text "Robotics" ∷ []; removed = [] }
unfolding text membership edit_document str_eq state_key categories_key removed_key
files = refl

membership-edit_document_example :
    membership small_toml (edit_document small_toml (text "Robotics" ∷ []) [] [] document)
    ≡ edit (text "Robotics" ∷ []) [] [] (membership small_toml document)
membership-edit_document_example =
    membership-edit_document small_toml (text "Robotics" ∷ []) [] [] document

abbrev stated : Membership
stated = record { categories = text "Vision" ∷ []; removed = text "Robotics" ∷ [] }
