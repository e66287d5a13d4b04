-- ===== src/Storage/Searching.antt =====
-- What `search` of crates/core/src/storage/mod.rs finds.
use localref.Base.{
  ◌≡◌, refl, ◌∙◌, Text, List, [], ◌∷◌, ◌++◌, map, Bool, true, false, not, ◌&&◌, ◌||◌, Option, none,
  some, any, all, retain, any-append, str_eq, split_once, is_empty, trim, contains_str, sort_by,
  is_sorted, is_sorted-sort_by, any-sort_by, text_leb, arith, Bool-cases, inl, inr,
}
use localref.Storage.{
  ItemDocument, SearchHit, list_items, hit_of, holds, option_any, extra_value, item_matches,
  indexed_extra_matches, search,
}

abbrev pub listed : Option Text → List Text
listed none = []
listed (some s) = s ∷ []

-- The values of the fields that are declared as indexed.
abbrev pub extra_texts : ItemDocument → List Text → List Text
extra_texts item [] = []
extra_texts item (field ∷ fields) =
    listed (extra_value (split_once b'.' field) item) ++ extra_texts item fields

-- The texts of an item in which the search ignores the case.
abbrev pub texts : List Text → ItemDocument → List Text
texts fields item =
    item.id
    ∷ item.title
    ∷ (item.authors
        ++ (listed item.abstract_note
            ++ item.item_type
              ∷ (listed item.doi
                  ++ (listed item.uri
                      ++ (listed item.venue
                          ++ (item.tags ++ (item.categories ++ extra_texts item fields)))))))

-- The year is searched in the middle.
regroup :
    (a b c d e f g h y i j x : Bool)
    → ((a || (b || (c || (d || (e || (f || (g || (h || (i || (j || x)))))))))) || y)
      ≡ (a || b || c || d || e || f || g || h || y || i || j || x)
regroup true _ _ _ _ _ _ _ y i j x = refl
regroup false true _ _ _ _ _ _ y i j x = refl
regroup false false true _ _ _ _ _ y i j x = refl
regroup false false false true _ _ _ _ y i j x = refl
regroup false false false false true _ _ _ y i j x = refl
regroup false false false false false true _ _ y i j x = refl
regroup false false false false false false true _ y i j x = refl
regroup false false false false false false false true y i j x = refl
regroup false false false false false false false false y i j x = ground arith

module _ (lowercase : Text → Text) where
  any-listed : (p : Text → Bool) (o : Option Text) → any p (listed o) ≡ option_any p o
  unfolding any
  any-listed p none = refl
  any-listed p (some s) = ground arith

  any-extra_texts :
      (needle : Text) (item : ItemDocument) (fields : List Text)
      → any (holds lowercase needle) (extra_texts item fields)
        ≡ indexed_extra_matches lowercase item needle fields
  unfolding indexed_extra_matches any
  any-extra_texts needle item [] = refl
  any-extra_texts needle item (f ∷ fields) =
      any-append (holds lowercase needle) (listed (extra_value (split_once b'.' f) item))
        (extra_texts item fields)
      ∙ ground (
        arith,
        any-listed (holds lowercase needle) (extra_value (split_once b'.' f) item),
        any-extra_texts needle item fields,
      )

  found-eq :
      (needle : Text) (fields : List Text) (item : ItemDocument)
      → (any (holds lowercase needle) (texts fields item)
          || option_any (contains_str needle) item.year)
        ≡ (item_matches lowercase item needle || indexed_extra_matches lowercase item needle fields)
  unfolding any item_matches
  found-eq needle fields item =
      let found : Text → Bool = holds lowercase needle in
      simp (any-append, any-listed, any-extra_texts)
        (regroup (found item.id) (found item.title) (any found item.authors)
          (option_any found item.abstract_note) (found item.item_type) (option_any found item.doi)
          (option_any found item.uri) (option_any found item.venue)
          (option_any (contains_str needle) item.year) (any found item.tags)
          (any found item.categories) (indexed_extra_matches lowercase item needle fields))

  -- The item is searched with success.
  abbrev pub is_found : Text → List Text → ItemDocument → Bool
  is_found needle fields item =
      any (holds lowercase needle) (texts fields item) || option_any (contains_str needle) item.year

  abbrev pub has_hit : Text → List SearchHit → Bool
  has_hit id hits = any (λ (h : SearchHit). str_eq h.id id) hits

  any-hits :
      (id : Text) (p q : ItemDocument → Bool) (items : List ItemDocument)
      → ((d : ItemDocument) → q d ≡ p d)
      → has_hit id (map hit_of (retain p items))
        ≡ any (λ (d : ItemDocument). str_eq d.id id && q d) items
  unfolding any retain
  any-hits id p q [] same = refl
  any-hits id p q (d ∷ items) same = ground (arith, same d, any-hits id p q items same)

  all-hits :
      (t : Text) (p : ItemDocument → Bool) (items : List ItemDocument)
      → all (λ (d : ItemDocument). text_leb t d.title) items ≡ true
      → all (λ (h : SearchHit). text_leb t h.title) (map hit_of (retain p items)) ≡ true
  unfolding all retain
  all-hits t p [] h = refl
  all-hits t p (d ∷ items) h = ground (arith, all-hits t p items)

  is_sorted-hits :
      (p : ItemDocument → Bool) (items : List ItemDocument)
      → is_sorted (λ (d : ItemDocument). d.title) items ≡ true
      → is_sorted (λ (h : SearchHit). h.title) (map hit_of (retain p items)) ≡ true
  unfolding is_sorted retain
  is_sorted-hits p [] h = refl
  is_sorted-hits p (d ∷ items) h = ground (arith, is_sorted-hits p items, all-hits d.title p items)

  -- A query of blanks finds nothing. Any other finds an id exactly if some document with the id has
  -- the trimmed query, in lower case, in one of its texts in lower case, the values of the indexed
  -- fields included, or in the digits of its year. The hits stand in the order of their titles.
  pub search-has_hit :
      (fields : List Text) (query : Text) (table : List ItemDocument)
      → let needle = lowercase (trim query) in
        let hits = search lowercase fields query table in
        ((id : Text)
          → has_hit id hits ≡ (
              not (is_empty needle)
              && any (λ (d : ItemDocument). str_eq d.id id && is_found needle fields d) table))
        × (is_sorted (λ (h : SearchHit). h.title) hits ≡ true)
  unfolding search list_items
  search-has_hit fields query table =
      let needle = lowercase (trim query) in
      let p = λ (d : ItemDocument).
        item_matches lowercase d needle || indexed_extra_matches lowercase d needle fields in
      let items = sort_by (λ (d : ItemDocument). d.title) table in
      elim (Bool-cases (is_empty needle)) [
        | inl blank ↦ rw blank (λ id. unfold any in refl, unfold is_sorted in refl)
        | inr some_text ↦ rw some_text (
          λ id.
              any-hits id p (is_found needle fields) items (found-eq needle fields)
              ∙ any-sort_by (λ (d : ItemDocument). d.title)
                  (λ d. str_eq d.id id && is_found needle fields d) table,
          is_sorted-hits p items (is_sorted-sort_by (λ (d : ItemDocument). d.title) table),
        )
      ]
