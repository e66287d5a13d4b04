-- ===== src/Storage/Summaries.antt =====
-- The summaries that `list_categories` of crates/core/src/storage/mod.rs answers with.
use localref.Base.{
  Bool, Bool-cases, ok, err, LocalrefError, Result-cases, inl, inr, ◌⊎◌, strip_prefix, text, Option,
  none, some, ◌++◌, false, ◌≡◌, refl, ap, ◌∙◌, Text, List, [], ◌∷◌, map, true, not, ◌&&◌, ◌||◌, any,
  all, contains, str_eq, str_eq_iff, sort_by, any-sort_by, text_leb, is_distinct, is_strict-sort_by,
  sorted_unique, any-sorted_unique, is_strict-sorted_unique, is_strict, arith, text_leb_refl,
}
use localref.Scan.Tree.{LibraryTree, CatEntry}
use localref.Scan.Scanning.{scan_cat, is_category_directory}
use localref.Storage.{ItemDocument, CategorySummary, list_items}
use localref.Storage.Categories.{
  scan_category_directories, category_names, category_name, listed, is_empty_at, summaries_of,
  empty_summaries, add_member, add_members, add_items, tidy, list_categories,
}
use localref.Storage.Listing.{
  has_path, lists, is_member, has_path-add_member, lists-add_items, has_path-add_items,
  has_path-empty, lists-empty, lists-tidy, has_path-tidy,
}

abbrev pub path_of : CategorySummary → Text
path_of s = s.path

not-has_path-above :
    (p : Text) (paths : List Text)
    → all (λ t. not (text_leb t p)) paths ≡ true
    → has_path p (empty_summaries paths) ≡ false
unfolding all any
not-has_path-above p [] h = refl
not-has_path-above p (t ∷ paths) h =
    ground (arith, not-has_path-above p paths, str_eq_iff t p, text_leb_refl p)

is_distinct-empty :
    (paths : List Text)
    → is_strict paths ≡ true
    → is_distinct path_of (empty_summaries paths) ≡ true
unfolding is_strict is_distinct
is_distinct-empty [] h = refl
is_distinct-empty (p ∷ paths) h =
    ground (arith, is_distinct-empty paths, not-has_path-above p paths)

is_distinct-add_member :
    (i c : Text) (summaries : List CategorySummary)
    → is_distinct path_of summaries ≡ true
    → is_distinct path_of (add_member i c summaries) ≡ true
unfolding is_distinct add_member
is_distinct-add_member i c [] h = refl
is_distinct-add_member i c (s ∷ summaries) h = ground (
  arith,
  is_distinct-add_member i c summaries,
  has_path-add_member s.path i c summaries,
  str_eq_iff s.path c,
  str_eq_iff c s.path,
)

is_distinct-add_members :
    (i : Text) (categories : List Text) (summaries : List CategorySummary)
    → is_distinct path_of summaries ≡ true
    → is_distinct path_of (add_members i categories summaries) ≡ true
unfolding add_members
is_distinct-add_members i [] summaries h = h
is_distinct-add_members i (c ∷ categories) summaries h =
    is_distinct-add_members i categories (add_member i c summaries)
      (is_distinct-add_member i c summaries h)

is_distinct-add_items :
    (items : List ItemDocument) (summaries : List CategorySummary)
    → is_distinct path_of summaries ≡ true
    → is_distinct path_of (add_items items summaries) ≡ true
unfolding add_items
is_distinct-add_items [] summaries h = h
is_distinct-add_items (d ∷ items) summaries h =
    is_distinct-add_items items (add_members d.id d.categories summaries)
      (is_distinct-add_members d.id d.categories summaries h)

paths-tidy :
    (summaries : List CategorySummary) → map path_of (map tidy summaries) ≡ map path_of summaries
paths-tidy [] = refl
paths-tidy (s ∷ summaries) = ground (arith, paths-tidy summaries)

ids-tidy :
    (summaries : List CategorySummary)
    → all (λ (s : CategorySummary). is_strict s.item_ids) (map tidy summaries) ≡ true
unfolding all
ids-tidy [] = refl
ids-tidy (s ∷ summaries) = ground (arith, is_strict-sorted_unique s.item_ids, ids-tidy summaries)

any_names : (c : Text) (names : List Text) → contains (sorted_unique names) c ≡ contains names c
unfolding contains
any_names c names = any-sorted_unique (λ x. str_eq x c) names

strip_prefix-eq :
    (p s c : Text)
    → (elim (strip_prefix p s) [ none ↦ false | some r ↦ str_eq r c ]) ≡ str_eq s (p ++ c)
unfolding strip_prefix str_eq
strip_prefix-eq [] s c = refl
strip_prefix-eq (a ∷ p) [] c = refl
strip_prefix-eq (a ∷ p) (b ∷ s) c = ground (arith, strip_prefix-eq p s c)

-- An entry that is an empty category directory of the path.
abbrev pub is_empty_category : LibraryTree → Text → CatEntry → Bool
is_empty_category tree c e =
    str_eq e.path (text "Cat/" ++ c) && is_category_directory e.kind && is_empty_at tree c

contains-listed :
    (tree : LibraryTree) (e : CatEntry) (o : Option Text) (c : Text) (names : List Text)
    → contains (listed (category_name tree e o) names) c ≡ (
        (elim o [ none ↦ false | some r ↦ str_eq r c ])
          && is_category_directory e.kind
          && is_empty_at tree c
        || contains names c)
unfolding contains any
contains-listed tree e none c names = refl
contains-listed tree e (some path) c names = elim (Bool-cases (str_eq path c)) [
  | inl h ↦ let same = (str_eq_iff path c).0 h in ground arith
  | inr h ↦ ground arith
]

contains-category_names :
    (tree : LibraryTree) (es : List CatEntry) (c : Text)
    → contains (category_names tree es) c ≡ any (is_empty_category tree c) es
unfolding category_names any contains
contains-category_names tree [] c = refl
contains-category_names tree (e ∷ es) c = ground (
  arith,
  contains-listed tree e (strip_prefix (text "Cat/") e.path) c (category_names tree es),
  strip_prefix-eq (text "Cat/") e.path c,
  contains-category_names tree es c,
)

summaries_of-lists :
    (names : List Text) (table : List ItemDocument)
    → is_strict names ≡ true
    → ((c id : Text)
        → (lists c id (summaries_of names table) ≡ any (is_member c id) table)
          × (has_path c (summaries_of names table)
              ≡ (contains names c || any (λ (d : ItemDocument). contains d.categories c) table)))
      × (is_strict (map path_of (summaries_of names table)) ≡ true)
      × (all (λ (s : CategorySummary). is_strict s.item_ids) (summaries_of names table) ≡ true)
unfolding summaries_of list_items
summaries_of-lists names table strict =
    let paths = names in
    let items = sort_by (λ (d : ItemDocument). d.title) table in
    let summaries = add_items items (empty_summaries paths) in
    (
      λ c id. (
        lists-tidy c id (sort_by path_of summaries)
            ∙ any-sort_by path_of
                (λ (s : CategorySummary). str_eq s.path c && contains s.item_ids id) summaries
            ∙ lists-add_items c id items (empty_summaries paths)
            ∙ ground (
              arith,
              lists-empty c id paths,
              any-sort_by (λ (d : ItemDocument). d.title) (is_member c id) table,
            ),
        has_path-tidy c (sort_by path_of summaries)
            ∙ any-sort_by path_of (λ (s : CategorySummary). str_eq s.path c) summaries
            ∙ has_path-add_items c items (empty_summaries paths)
            ∙ ground (
              arith,
              has_path-empty c paths,
              any-sort_by (λ (d : ItemDocument). d.title) (λ d. contains d.categories c) table,
            ),
      ),
      ap is_strict (paths-tidy (sort_by path_of summaries))
          ∙ is_strict-sort_by path_of summaries (
              is_distinct-add_items items (empty_summaries paths) (is_distinct-empty paths strict)),
      ids-tidy (sort_by path_of summaries),
    )

-- When the scan of `Cat/` fails, so does `list_categories`, with the same problem. When it succeeds,
-- `list_categories` lists an id under a category exactly if some indexed document with the id is in
-- the category, and it lists a category exactly if the scan tells of a category directory at its path
-- that is empty or some document is in it. Each category stands once, in the order of the paths, and
-- so does each id of it.
pub list_categories-lists :
    (tree : LibraryTree) (table : List ItemDocument)
    → ((problem : LocalrefError) × (scan_cat tree ≡ err problem)
        × (list_categories tree table ≡ err problem))
      ⊎ ((entries : List CatEntry) × (summaries : List CategorySummary) × (scan_cat tree
            ≡ ok entries)
          × (list_categories tree table ≡ ok summaries)
          × ((c id : Text)
              → (lists c id summaries ≡ any (is_member c id) table)
                × (has_path c summaries ≡ (
                    any (is_empty_category tree c) entries
                    || any (λ (d : ItemDocument). contains d.categories c) table)))
          × (is_strict (map path_of summaries) ≡ true)
          × (all (λ (s : CategorySummary). is_strict s.item_ids) summaries ≡ true))
unfolding list_categories scan_category_directories
list_categories-lists tree table = elim (Result-cases (scan_cat tree)) [
  | inr (problem, f) ↦ inl (problem, f, ground arith)
  | inl (entries, f) ↦
      let names = sorted_unique (category_names tree entries) in
      let (told, paths, ids) =
        summaries_of-lists names table (is_strict-sorted_unique (category_names tree entries)) in
      inr (
        entries,
        summaries_of names table,
        f,
        ground arith,
        (λ c id.
            let (members, found) = told c id in
            (
              members,
              found
                  ∙ ground (
                    arith,
                    any_names c (category_names tree entries),
                    contains-category_names tree entries c,
                  ),
            )),
        paths,
        ids,
      )
]
