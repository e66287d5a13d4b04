-- ===== src/Examples/Storages.antt =====
-- Answers from the index of crates/core/src/storage/mod.rs at concrete documents.
use localref.Base.{
  ◌≡◌, refl, Text, text, List, all, any, [], ◌∷◌, map, none, some, true, not, ◌&&◌, ◌||◌, text_leb,
  false, split, replace_char, ok, err, ◌⊎◌, LocalrefError, str_eq, contains, is_empty, trim,
  is_strict, is_sorted, to_ascii_lowercase,
}
use localref.Types.CategoryPath.{new}
use localref.Library.Reconcile.{join}
use localref.Scan.Tree.{LibraryTree, CatEntry, granted, entry, directory, file, end}
use localref.Scan.Scanning.{scan_cat}
use localref.Storage.{ItemDocument, SearchHit, CategorySummary, search}
use localref.Storage.Categories.{list_categories}
use localref.Storage.Listing.{has_path, lists, is_member}
use localref.Storage.Summaries.{path_of, is_empty_category, list_categories-lists}
use localref.Storage.Searching.{is_found, has_hit, search-has_hit}

abbrev paper : ItemDocument
unfolding text
paper = record {
  id = text "lr:a:1";
  object_path = text "All/Paper";
  title = text "Near Field";
  authors = text "Ada" ∷ [];
  abstract_note = none;
  item_type = text "journalArticle";
  doi = none;
  uri = none;
  tags = [];
  venue = none;
  year = some (text "2021");
  categories = text "Wireless/RIS" ∷ [];
  extra = (text "bib", (text "key", text "ada21") ∷ []) ∷ [];
}

abbrev book : ItemDocument
unfolding text
book = record paper {
  id = text "lr:a:2";
  title = text "Antennas";
  categories = text "Books" ∷ text "Wireless/RIS" ∷ [];
}

abbrev table : List ItemDocument
table = paper ∷ book ∷ []

-- `Cat/Inbox` is empty, `Cat/Notes` holds a file.
abbrev library : LibraryTree
unfolding text
library = record {
  root = text "lib" ∷ [];
  all_reading = granted;
  all = [];
  all_canonical = some (text "lib" ∷ text "All" ∷ []);
  cat_reading = granted;
  cat =
      entry (text "Inbox") (directory none false end)
        (entry (text "Notes") (directory none false (entry (text "a.txt") file end)) end);
}

abbrev fields : List Text
unfolding text
fields = text "bib.key" ∷ []

abbrev summaries : List CategorySummary
unfolding text
summaries =
    record { path = text "Books"; item_ids = text "lr:a:2" ∷ [] }
    ∷ record { path = text "Inbox"; item_ids = [] }
    ∷ record { path = text "Wireless/RIS"; item_ids = text "lr:a:1" ∷ text "lr:a:2" ∷ [] }
    ∷ []

lists_three : list_categories library table ≡ ok summaries
unfolding list_categories scan_cat text str_eq text_leb replace_char split join new
lists_three = refl

list_categories-lists_example :
    ((problem : LocalrefError) × (scan_cat library ≡ err problem)
      × (list_categories library table ≡ err problem))
    ⊎ ((entries : List CatEntry) × (summaries : List CategorySummary) × (scan_cat library
          ≡ ok entries)
        × (list_categories library table ≡ ok summaries)
        × ((c id : Text)
            → (lists c id summaries ≡ any (is_member c id) table)
              × (has_path c summaries ≡ (
                  any (is_empty_category library c) entries
                  || any (λ (d : ItemDocument). contains d.categories c) table)))
        × (is_strict (map path_of summaries) ≡ true)
        × (all (λ (s : CategorySummary). is_strict s.item_ids) summaries ≡ true))
list_categories-lists_example = list_categories-lists library table

search-has_hit_example :
    let needle = to_ascii_lowercase (trim (text " ADA21 ")) in
    let hits = search to_ascii_lowercase fields (text " ADA21 ") table in
    ((id : Text)
      → has_hit to_ascii_lowercase id hits ≡ (
          not (is_empty needle)
          && any
              (λ (d : ItemDocument). str_eq d.id id && is_found to_ascii_lowercase needle fields d)
              table))
    × (is_sorted (λ (h : SearchHit). h.title) hits ≡ true)
search-has_hit_example = search-has_hit to_ascii_lowercase fields (text " ADA21 ") table
