-- ===== src/Examples/Scans.antt =====
-- Runs of the scanner of crates/core/src/scan/mod.rs.
use localref.Base.{
  Text, text, List, [], ◌∷◌, map, true, false, ◌≡◌, refl, ◌↔◌, Option, none, some, any, all,
  is_sorted, ok, err, is_ok, trim, split, str_eq, is_whitespace, replace_char, text_leb, io, Result,
}
use localref.Types.CategoryPath.{CategoryPath, new}
use localref.Library.Reconcile.{join}
use localref.Scan.Tree.{
  file, symlink, faulty, locked, directory, Children, end, entry, LibraryTree, CatEntry,
  CatEntryKind, category_directory, real_directory_candidate, stale_item_link, invalid_file,
  item_link, broken_link, granted, managed_item,
}
use localref.Scan.Scanning.{is_stale, scan_cat, scan_cat_entry, scan_all, stale_links}
use localref.Scan.Walking.{Tells}
use localref.Scan.Entries.{scan_cat-Tells, scan_cat-IsSound, is_sound}

abbrev all_path : List Text
all_path = text "lib" ∷ text "All" ∷ []

abbrev cat_children : Children
cat_children =
    entry (text "Radio")
      (directory none false (
        entry (text "Gone") (symlink none) (
          entry (text "Paper") (directory none false end) (
            entry (text "Copied") (directory none false (entry (text "a.pdf") file end)) (
              entry (text "Link") (symlink (some (text "lib" ∷ text "All" ∷ text "Paper" ∷ [])))
                end)))))
      (entry (text "loose.pdf") file end)

abbrev scanned : LibraryTree
scanned = record {
  root = text "lib" ∷ [];
  all_reading = granted;
  all =
      record { name = text "Paper"; is_dir = true; inside = (text "metadata.toml", true) ∷ [] }
      ∷ [];
  all_canonical = some all_path;
  cat_reading = granted;
  cat = cat_children;
}

abbrev kinds : List CatEntry → List CatEntryKind
kinds = map (λ (e : CatEntry). e.kind)

abbrev ap_kinds : Result (List CatEntry) → Result (List CatEntryKind)
ap_kinds (ok entries) = ok (kinds entries)
ap_kinds (err problem) = err problem

abbrev radio : Option CategoryPath
radio = some (record { value = text "Radio" })

abbrev at : Option CategoryPath → Text → CatEntryKind → Option Text → CatEntry
at category path found_kind target = record {
  category = category;
  path = path;
  kind = found_kind;
  target_path = target;
}

abbrev paper_path : Option Text
paper_path = some (text "All/Paper")

abbrev cat_entries : List CatEntry
cat_entries =
    at none (text "Cat/Radio") category_directory none
    ∷ at radio (text "Cat/Radio/Copied") real_directory_candidate none
    ∷ at radio (text "Cat/Radio/Gone") broken_link none
    ∷ at radio (text "Cat/Radio/Link") item_link paper_path
    ∷ at radio (text "Cat/Radio/Paper") stale_item_link paper_path
    ∷ at none (text "Cat/loose.pdf") invalid_file none
    ∷ []

scans : scan_cat scanned ≡ ok cat_entries
unfolding scan_cat scan_cat_entry text str_eq replace_char text_leb trim is_whitespace split join
    new
scans = refl

finds_item : scan_all scanned ≡ ok (record { path = text "All/Paper"; kind = managed_item } ∷ [])
unfolding scan_all text str_eq replace_char
finds_item = refl

scan_cat-Tells_example :
    ((any (λ (e : CatEntry). is_stale e.kind) cat_entries ≡ true)
      ↔ Tells (λ (e : CatEntry). is_stale e.kind) scanned [] cat_children)
    × (is_sorted (λ (e : CatEntry). e.path) cat_entries ≡ true)
scan_cat-Tells_example =
    scan_cat-Tells (λ (e : CatEntry). is_stale e.kind) scanned cat_entries refl scans

scan_cat-IsSound_example :
    (all is_sound cat_entries ≡ true) × (is_ok (stale_links cat_entries) ≡ true)
scan_cat-IsSound_example = scan_cat-IsSound scanned cat_entries scans

abbrev refusing : LibraryTree
refusing = record scanned {
  cat = entry (text "Radio") (locked none false (text "Permission denied")) cat_children;
}

refuses : scan_cat refusing ≡ err (io (text "/lib/Cat/Radio") (text "Permission denied"))
unfolding scan_cat scan_cat_entry text
refuses = refl

-- `Radio/Copied` can be listed and not be entered: the scanner meets a file that it may not look at.
abbrev unsearchable : LibraryTree
unsearchable = record scanned {
  cat =
      entry (text "Radio")
        (directory none false
          (entry (text "Copied") (faulty (some false) (text "Permission denied")) end))
        end;
}

stops_at_entry :
    scan_cat unsearchable ≡ err (io (text "/lib/Cat/Radio/Copied") (text "Permission denied"))
unfolding scan_cat scan_cat_entry text
stops_at_entry = refl

-- A directory that cannot be read is a candidate if it has a `metadata.toml` and stands in a category.
takes_locked :
    ap_kinds (
      scan_cat (record scanned {
        cat =
            entry
              (text "Radio")
              (directory none false
                (entry (text "Paper") (locked none true (text "Permission denied")) end))
              end;
      }))
    ≡ ok (category_directory ∷ real_directory_candidate ∷ [])
unfolding scan_cat scan_cat_entry text str_eq replace_char text_leb trim is_whitespace split join
    new
takes_locked = refl
