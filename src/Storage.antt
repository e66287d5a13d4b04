-- ===== src/Storage.antt =====
-- crates/core/src/storage/mod.rs: what the daemon answers from the indexed documents. The documents
-- come from the database, which can be read, in the order of their ids. `lowercase` is the Unicode
-- mapping of `str::to_lowercase`.
pub mod Categories
pub mod Listing
pub mod Summaries
pub mod Extra
pub mod Searching
use localref.Base.{
  Text, List, [], ◌∷◌, ◌++◌, map, Bool, false, ◌||◌, if◌then◌else◌, Option, none, some, any, retain,
  is_empty, trim, contains_str, split_once, str_eq, sort_by, sorted_unique, text_leb,
}

-- `year` is the number in decimal, as the search reads it.
pub record ItemDocument : Type 0 where
  pub id : Text
  pub object_path : Text
  pub title : Text
  pub authors : List Text
  pub abstract_note : Option Text
  pub item_type : Text
  pub doi : Option Text
  pub uri : Option Text
  pub tags : List Text
  pub venue : Option Text
  pub year : Option Text
  pub categories : List Text
  pub extra : List (Text × List (Text × Text))

pub record SearchHit : Type 0 where
  pub id : Text
  pub title : Text
  pub authors : List Text
  pub object_path : Text
  pub abstract_note : Option Text
  pub doi : Option Text

pub record CategorySummary : Type 0 where
  pub path : Text
  pub item_ids : List Text

unfoldable pub list_items : List ItemDocument → List ItemDocument
unfolding sort_by
list_items table = sort_by (λ (d : ItemDocument). d.title) table

abbrev pub hit_of : ItemDocument → SearchHit
hit_of item = record {
  id = item.id;
  title = item.title;
  authors = item.authors;
  object_path = item.object_path;
  abstract_note = item.abstract_note;
  doi = item.doi;
}

-- `BTreeMap::get`
unfoldable pub get {ℓ} : {V : Type ℓ} → Text → List (Text × V) → Option V
get key [] = none
get key ((k, v) ∷ entries) = if str_eq k key then some v else get key entries

abbrev pub option_any : (Text → Bool) → Option Text → Bool
option_any p none = false
option_any p (some s) = p s

abbrev pub get_in : Text → Option (List (Text × Text)) → Option Text
get_in key none = none
get_in key (some values) = get key values

-- The value of a field `namespace.key`.
abbrev pub extra_value : Option (Text × Text) → ItemDocument → Option Text
extra_value none item = none
extra_value (some (namespace, key)) item = get_in key (get namespace item.extra)

module _ (lowercase : Text → Text) where
  abbrev pub holds : Text → Text → Bool
  holds needle s = contains_str needle (lowercase s)

  unfoldable pub item_matches : ItemDocument → Text → Bool
  unfolding any
  item_matches item needle =
      holds needle item.id
      || holds needle item.title
      || any (holds needle) item.authors
      || option_any (holds needle) item.abstract_note
      || holds needle item.item_type
      || option_any (holds needle) item.doi
      || option_any (holds needle) item.uri
      || option_any (holds needle) item.venue
      || option_any (contains_str needle) item.year
      || any (holds needle) item.tags
      || any (holds needle) item.categories

  unfoldable pub indexed_extra_matches : ItemDocument → Text → List Text → Bool
  unfolding any
  indexed_extra_matches item needle indexed_fields =
      any (λ field. option_any (holds needle) (extra_value (split_once b'.' field) item))
        indexed_fields

  unfoldable pub search : List Text → Text → List ItemDocument → List SearchHit
  unfolding item_matches indexed_extra_matches retain list_items
  search indexed query table =
      let needle = lowercase (trim query) in
      let hits = map hit_of (
        retain (λ item. item_matches item needle || indexed_extra_matches item needle indexed)
          (list_items table)) in
      if is_empty needle then [] else hits

-- A map from fields to maps from values to ids, in the order of their keys.
unfoldable pub push_id : Text → Text → List (Text × List Text) → List (Text × List Text)
push_id value id [] = (value, id ∷ []) ∷ []
push_id value id ((v, ids) ∷ values) =
    let rest = push_id value id values in
    if str_eq v value
    then (v, ids ++ id ∷ []) ∷ values
    else if text_leb v value
    then (v, ids) ∷ rest
    else (value, id ∷ []) ∷ (v, ids) ∷ values

abbrev pub push_value : Option Text → Text → List (Text × List Text) → List (Text × List Text)
push_value none id values = values
push_value (some value) id values = push_id value id values

-- The loop over the documents for one field.
unfoldable pub field_index :
    Option (Text × Text) → List ItemDocument → List (Text × List Text) → List (Text × List Text)
unfolding push_id get
field_index field [] values = values
field_index field (d ∷ documents) values =
    field_index field documents (push_value (extra_value field d) d.id values)

abbrev pub tidy_ids : Text × List Text → Text × List Text
tidy_ids (value, ids) = (value, sorted_unique ids)

-- A field has an entry once a document has a value for it.
abbrev pub with_field :
    Text
    → List (Text × List Text)
    → List (Text × List (Text × List Text))
    → List (Text × List (Text × List Text))
with_field field [] index = index
with_field field (indexed ∷ values) index = (field, map tidy_ids (indexed ∷ values)) ∷ index

unfoldable pub build_extra_index :
    List ItemDocument → List Text → List (Text × List (Text × List Text))
unfolding field_index
build_extra_index documents [] = []
build_extra_index documents (field ∷ indexed_fields) =
    with_field field (field_index (split_once b'.' field) documents [])
      (build_extra_index documents indexed_fields)
