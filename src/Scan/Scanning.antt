-- ===== src/Scan/Scanning.antt =====
-- The scanner of crates/core/src/scan/mod.rs, and what `scan_and_normalize` of crates/core/src/lib.rs
-- takes from its entries for the remnants of links.
use localref.Base.{
  Text, text, List, [], ◌∷◌, ◌++◌, map, Bool, true, false, ◌&&◌, if◌then◌else◌, Option, none, some,
  any, is_empty, str_eq, replace_char, sort_by, Result, ok, err, ◌>>=◌, io, ok_or, missing_field,
}
use localref.Types.CategoryPath.{CategoryPath, new}
use localref.Platformfs.Merging.{strip_path, is_some}
use localref.Library.Reconcile.{join}
use localref.Scan.Tree.{
  AllItem, Reading, LibraryTree, AllEntryKind, AllEntry, CatEntryKind, CatEntry, LibraryScan,
  print_path, relative, Node, Children, file, other, symlink, faulty, locked, directory, end,
  failing, cat_path, entry, absent, granted, refused, managed_item, ignored, unmanaged_candidate,
  unmanaged_all_file, category_directory, item_link, broken_link, stale_item_link,
  real_directory_candidate, invalid_file,
}

abbrev pub holds : Text → List (Text × Bool) → Bool
holds name inside = any (λ e. str_eq e.0 name) inside

unfoldable pub all_kind : AllItem → AllEntryKind
unfolding any text
all_kind item =
    if item.is_dir
    then if holds (text ".localrefignore") item.inside
      then ignored
      else if holds (text "metadata.toml") item.inside
      then managed_item
      else unmanaged_candidate
    else unmanaged_all_file

abbrev pub all_entry : List Text → AllItem → AllEntry
all_entry root item = record {
  path = relative root (root ++ text "All" ∷ item.name ∷ []);
  kind = all_kind item;
}

-- What a scan says of a top directory, of which `entries` is the work.
abbrev pub read_top : {A : Type 0} → Text → Reading → Result (List A) → Result (List A)
read_top path absent entries = ok []
read_top path (refused m) entries = err (io path m)
read_top path granted entries = entries

unfoldable pub scan_all : LibraryTree → Result (List AllEntry)
unfolding relative all_kind sort_by
scan_all tree =
    read_top (print_path (tree.root ++ text "All" ∷ [])) tree.all_reading
      (ok (sort_by (λ (e : AllEntry). e.path) (map (all_entry tree.root) tree.all)))

-- The loop of `looks_like_item`: whether a plain file is listed.
unfoldable pub lists_file : LibraryTree → List Text → Children → Result Bool
unfolding print_path
lists_file tree path end = ok false
lists_file tree path (failing m) = err (io (cat_path tree path) m)
lists_file tree path (entry name file rest) = ok true
lists_file tree path (entry name (faulty none m) rest) =
    err (io (cat_path tree (path ++ name ∷ [])) m)
lists_file tree path (entry name (faulty (some true) m) rest) = ok true
lists_file tree path (entry name _ rest) = lists_file tree path rest

unfoldable pub looks_like_item : LibraryTree → List Text → Bool → Children → Result Bool
unfolding lists_file
looks_like_item tree path has_metadata children =
    if has_metadata then ok true else lists_file tree path children

-- `All/<name>/metadata.toml` is a file.
unfoldable pub has_metadata_file : Text → List AllItem → Bool
unfolding any text
has_metadata_file name all =
    any
      (λ (item : AllItem).
        str_eq item.name name && any (λ e. str_eq e.0 (text "metadata.toml") && e.1) item.inside)
      all

abbrev pub last_or : {A : Type 0} → A → List A → A
last_or d [] = d
last_or d (x ∷ xs) = last_or x xs

abbrev pub parent : {A : Type 0} → List A → List A
parent [] = []
parent (x ∷ []) = []
parent (x ∷ y ∷ ys) = x ∷ parent (y ∷ ys)

unfoldable pub stale_item_target : LibraryTree → List Text → Children → Option Text
unfolding has_metadata_file relative
stale_item_target tree path end =
    if has_metadata_file (last_or [] path) tree.all
    then some (relative tree.root (tree.root ++ text "All" ∷ last_or [] path ∷ []))
    else none
stale_item_target tree path _ = none

-- The category of an entry of `Cat/` is that of the directory it stands in.
unfoldable pub category_for : List Text → Option CategoryPath
unfolding join replace_char new
category_for path =
    if is_empty (parent path) then none else new (replace_char 92 b'/' (join (parent path)))

unfoldable pub is_under_all : LibraryTree → Option (List Text) → Bool
unfolding strip_path
is_under_all tree target = elim tree.all_canonical [
  | none ↦ false
  | some all ↦ elim target [ none ↦ false | some path ↦ is_some (strip_path all path) ]
]

abbrev pub cat_entry : LibraryTree → List Text → CatEntryKind → Option Text → CatEntry
cat_entry tree path found_kind target = record {
  category = category_for path;
  path = relative tree.root (tree.root ++ text "Cat" ∷ path);
  kind = found_kind;
  target_path = target;
}

-- An entry with the target that it leads to.
abbrev pub linked : LibraryTree → List Text → CatEntryKind → Option (List Text) → CatEntry
linked tree path found_kind none = cat_entry tree path found_kind none
linked tree path found_kind (some target) =
    cat_entry tree path found_kind (some (relative tree.root target))

abbrev pub stale_or_category : LibraryTree → List Text → Option Text → CatEntry
stale_or_category tree path none = cat_entry tree path category_directory none
stale_or_category tree path (some target) = cat_entry tree path stale_item_link (some target)

abbrev pub item_or_rest : LibraryTree → List Text → Children → Bool → CatEntry
item_or_rest tree path children true = cat_entry tree path real_directory_candidate none
item_or_rest tree path children false =
    stale_or_category tree path (stale_item_target tree path children)

-- What the arm for directories pushes first.
unfoldable pub directory_entry :
    LibraryTree → List Text → Option (List Text) → Bool → Children → Result CatEntry
unfolding is_under_all category_for looks_like_item stale_item_target relative
directory_entry tree path canonical has_metadata children =
    if is_under_all tree canonical
    then ok (linked tree path item_link canonical)
    else if is_some (category_for path)
    then (looks_like_item tree path has_metadata children >>= λ found.
        ok (item_or_rest tree path children found))
    else ok (cat_entry tree path category_directory none)

abbrev pub is_category_directory : CatEntryKind → Bool
is_category_directory category_directory = true
is_category_directory _ = false

-- The recursion into a directory that is pushed as a category, with what is below it.
abbrev pub enter : Result CatEntry → Result (List CatEntry) → Result (List CatEntry)
enter (err problem) below = err problem
enter (ok found) below =
    if is_category_directory found.kind
    then (below >>= λ entries. ok (found ∷ entries))
    else ok (found ∷ [])

-- `scan_cat_dir`, for one entry and for all of a directory
unfoldable mutual
  unfolding directory_entry is_under_all category_for relative print_path

  pub scan_cat_entry : LibraryTree → List Text → Node → Result (List CatEntry)
  scan_cat_entry tree path file = ok (cat_entry tree path invalid_file none ∷ [])
  scan_cat_entry tree path other = ok []
  scan_cat_entry tree path (symlink target) =
      let valid = is_under_all tree target in
      ok (linked tree path (if valid then item_link else broken_link) target ∷ [])
  scan_cat_entry tree path (faulty kind m) = err (io (cat_path tree path) m)
  scan_cat_entry tree path (locked canonical has_metadata m) =
      if is_under_all tree canonical
      then ok (linked tree path item_link canonical ∷ [])
      else if is_some (category_for path) && has_metadata
      then ok (cat_entry tree path real_directory_candidate none ∷ [])
      else err (io (cat_path tree path) m)
  scan_cat_entry tree path (directory canonical has_metadata children) =
      enter (directory_entry tree path canonical has_metadata children)
        (scan_cat_dir tree path children)

  pub scan_cat_dir : LibraryTree → List Text → Children → Result (List CatEntry)
  scan_cat_dir tree dir end = ok []
  scan_cat_dir tree dir (failing m) = err (io (cat_path tree dir) m)
  scan_cat_dir tree dir (entry name node rest) =
      scan_cat_entry tree (dir ++ name ∷ []) node >>= λ first.
      scan_cat_dir tree dir rest >>= λ others. ok (first ++ others)

unfoldable pub scan_cat : LibraryTree → Result (List CatEntry)
unfolding print_path scan_cat_dir sort_by
scan_cat tree =
    read_top (print_path (tree.root ++ text "Cat" ∷ [])) tree.cat_reading
      (scan_cat_dir tree [] tree.cat >>= λ entries. ok (sort_by (λ (e : CatEntry). e.path) entries))

unfoldable pub scan_library : LibraryTree → Result LibraryScan
unfolding scan_all scan_cat
scan_library tree = scan_all tree >>= λ all.
    scan_cat tree >>= λ cat. ok (record { all_entries = all; cat_entries = cat })

-- What the last loop of `LibraryDaemon::scan_and_normalize` reads of an entry before it puts a link in
-- the place of the directory: the category, the target and the path of the entry.
unfoldable pub stale_link : CatEntry → Result (CategoryPath × Text × Text)
stale_link e = ok_or e.category (missing_field "Cat category") >>= λ category.
    ok_or e.target_path (missing_field "stale item target") >>= λ target.
    ok (category, target, e.path)

abbrev pub is_stale : CatEntryKind → Bool
is_stale stale_item_link = true
is_stale _ = false

unfoldable pub stale_links : List CatEntry → Result (List (CategoryPath × Text × Text))
unfolding stale_link
stale_links [] = ok []
stale_links (e ∷ es) =
    let rest = stale_links es in
    if is_stale e.kind then (stale_link e >>= λ link. rest >>= λ links. ok (link ∷ links)) else rest
