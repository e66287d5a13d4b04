-- ===== src/Storage/Categories.antt =====
-- `scan_category_directories` and `list_categories` of crates/core/src/storage/mod.rs.
use localref.Scan.Tree.{Node, Children, directory, end, entry, LibraryTree, CatEntry}
use localref.Scan.Scanning.{scan_cat, is_category_directory}
use localref.Base.{
  Result, ok, ◌>>=◌, strip_prefix, split, ◌&&◌, Text, text, List, [], ◌∷◌, ◌++◌, map, Bool, true,
  false, if◌then◌else◌, Option, none, some, str_eq, sort_by, sorted_unique,
}
use localref.Storage.{ItemDocument, CategorySummary, list_items}

-- `fs::read_dir` of a path below `Cat/`, of which only real directories are entered here.
abbrev pub below : Node → Option Children
below (directory canonical has_metadata children) = some children
below _ = none

unfoldable pub child_at : Text → Children → Option Children
unfolding str_eq
child_at name (entry n node rest) =
    let later = child_at name rest in if str_eq n name then below node else later
child_at name _ = none

abbrev pub then_at : Option Children → (Children → Option Children) → Option Children
then_at none rest = none
then_at (some children) rest = rest children

unfoldable pub children_at : List Text → Children → Option Children
unfolding child_at
children_at [] children = some children
children_at (name ∷ names) children = then_at (child_at name children) (children_at names)

abbrev pub is_end : Option Children → Bool
is_end (some end) = true
is_end _ = false

unfoldable pub is_empty_at : LibraryTree → Text → Bool
unfolding children_at split
is_empty_at tree path = is_end (children_at (split b'/' path) tree.cat)

-- The two filters and the name of one entry.
abbrev pub category_name : LibraryTree → CatEntry → Option Text → Option Text
category_name tree e none = none
category_name tree e (some path) =
    if is_category_directory e.kind && is_empty_at tree path then some path else none

abbrev pub listed : Option Text → List Text → List Text
listed none names = names
listed (some name) names = name ∷ names

unfoldable pub category_names : LibraryTree → List CatEntry → List Text
unfolding text strip_prefix is_empty_at
category_names tree [] = []
category_names tree (e ∷ es) =
    listed (category_name tree e (strip_prefix (text "Cat/") e.path)) (category_names tree es)

-- The empty directories below `Cat/` that the scanner takes for categories.
unfoldable pub scan_category_directories : LibraryTree → Result (List Text)
unfolding scan_cat category_names sorted_unique
scan_category_directories tree = do
  entries ← scan_cat tree
  ok (sorted_unique (category_names tree entries))

abbrev pub empty_summaries : List Text → List CategorySummary
empty_summaries [] = []
empty_summaries (path ∷ paths) = record { path = path; item_ids = [] } ∷ empty_summaries paths

-- One turn of the inner loop of `list_categories`.
unfoldable pub add_member : Text → Text → List CategorySummary → List CategorySummary
add_member id category [] = record { path = category; item_ids = id ∷ [] } ∷ []
add_member id category (s ∷ summaries) =
    let rest = add_member id category summaries in
    if str_eq s.path category
    then record s { item_ids = s.item_ids ++ id ∷ [] } ∷ summaries
    else s ∷ rest

unfoldable pub add_members : Text → List Text → List CategorySummary → List CategorySummary
unfolding add_member
add_members id [] summaries = summaries
add_members id (c ∷ categories) summaries = add_members id categories (add_member id c summaries)

unfoldable pub add_items : List ItemDocument → List CategorySummary → List CategorySummary
unfolding add_members
add_items [] summaries = summaries
add_items (d ∷ items) summaries = add_items items (add_members d.id d.categories summaries)

abbrev pub tidy : CategorySummary → CategorySummary
tidy s = record s { item_ids = sorted_unique s.item_ids }

unfoldable pub summaries_of : List Text → List ItemDocument → List CategorySummary
unfolding list_items add_items sort_by
summaries_of names table = map tidy (
    sort_by (λ (s : CategorySummary). s.path)
      (add_items (list_items table) (empty_summaries names)))

unfoldable pub list_categories : LibraryTree → List ItemDocument → Result (List CategorySummary)
unfolding scan_category_directories summaries_of
list_categories tree table = do
  names ← scan_category_directories tree
  ok (summaries_of names table)
