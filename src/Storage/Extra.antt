-- ===== src/Storage/Extra.antt =====
-- What `build_extra_index` of crates/core/src/storage/mod.rs finds.
use localref.Base.{
  ◌≡◌, refl, ◌∙◌, Text, List, [], ◌∷◌, map, Bool, false, ◌&&◌, ◌||◌, Option, none, some, any,
  contains, any-append, str_eq, str_eq_iff, split_once, any-sorted_unique, arith,
}
use localref.Storage.{
  ItemDocument, extra_value, push_id, push_value, field_index, tidy_ids, with_field,
  build_extra_index,
}

-- The value has the id.
abbrev pub files : Text → Text → List (Text × List Text) → Bool
files value id values = any (λ (e : Text × List Text). str_eq e.0 value && contains e.1 id) values

-- The index has the id under the field and the value.
abbrev pub indexes : Text → Text → Text → List (Text × List (Text × List Text)) → Bool
indexes field value id index =
    any (λ (e : Text × List (Text × List Text)). str_eq e.0 field && files value id e.1) index

abbrev pub is_value : Option Text → Text → Bool
is_value none value = false
is_value (some v) value = str_eq v value

-- The document has the id, and the value in the field.
abbrev pub carries : Option (Text × Text) → Text → Text → ItemDocument → Bool
carries field value id d = str_eq d.id id && is_value (extra_value field d) value

files-push_id :
    (value id v i : Text) (values : List (Text × List Text))
    → files value id (push_id v i values)
      ≡ (files value id values || (str_eq v value && str_eq i id))
unfolding any push_id contains
files-push_id value id v i [] = ground arith
files-push_id value id v i ((w, ids) ∷ values) = ground (
  arith,
  files-push_id value id v i values,
  any-append (λ x. str_eq x id) ids (i ∷ []),
  str_eq_iff w v,
  str_eq_iff w value,
  str_eq_iff v value,
)

files-push_value :
    (value id i : Text) (v : Option Text) (values : List (Text × List Text))
    → files value id (push_value v i values)
      ≡ (files value id values || (str_eq i id && is_value v value))
files-push_value value id i none values = ground arith
files-push_value value id i (some v) values = files-push_id value id v i values ∙ ground arith

files-field_index :
    (field : Option (Text × Text)) (value id : Text) (documents : List ItemDocument)
    (values : List (Text × List Text))
    → files value id (field_index field documents values)
      ≡ (files value id values || any (carries field value id) documents)
unfolding any field_index
files-field_index field value id [] values = ground arith
files-field_index field value id (d ∷ documents) values =
    files-field_index field value id documents (push_value (extra_value field d) d.id values)
    ∙ ground (arith, files-push_value value id d.id (extra_value field d) values)

files-tidy :
    (value id : Text) (values : List (Text × List Text))
    → files value id (map tidy_ids values) ≡ files value id values
unfolding any contains
files-tidy value id [] = refl
files-tidy value id ((v, ids) ∷ values) =
    ground (arith, any-sorted_unique (λ x. str_eq x id) ids, files-tidy value id values)

indexes-with_field :
    (field value id f : Text) (values : List (Text × List Text))
    (index : List (Text × List (Text × List Text)))
    → indexes field value id (with_field f values index)
      ≡ ((str_eq f field && files value id values) || indexes field value id index)
unfolding any
indexes-with_field field value id f [] index = ground arith
indexes-with_field field value id f (entry ∷ values) index =
    ground (arith, files-tidy value id (entry ∷ values))

-- The index has an id under a field and a value exactly if the field is declared as indexed and some
-- document with the id has the value in it. A field with no dot in its name has none.
pub build_extra_index-indexes :
    (documents : List ItemDocument) (fields : List Text) (field value id : Text)
    → indexes field value id (build_extra_index documents fields)
      ≡ (contains fields field && any (carries (split_once b'.' field) value id) documents)
unfolding build_extra_index contains
build_extra_index-indexes documents [] field value id = refl
build_extra_index-indexes documents (f ∷ fields) field value id =
    indexes-with_field field value id f (field_index (split_once b'.' f) documents [])
      (build_extra_index documents fields)
    ∙ ground (
      arith,
      files-field_index (split_once b'.' f) value id documents [],
      build_extra_index-indexes documents fields field value id,
      str_eq_iff f field,
    )
