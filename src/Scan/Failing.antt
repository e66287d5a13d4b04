-- ===== src/Scan/Failing.antt =====
-- When `scan_cat` of crates/core/src/scan/mod.rs fails.
use localref.Base.{
  Text, List, [], ◌∷◌, ◌++◌, Bool, true, not, ◌&&◌, ◌||◌, ◌≡◌, refl, ◌⊎◌, inl, inr, Bool-cases,
  if◌then◌else◌, Option, none, some, Result, ok, err, ◌>>=◌, io, LocalrefError, Result-cases, subst,
  arith,
}
use localref.Platformfs.Merging.{is_some}
use localref.Scan.Tree.{
  Node, file, other, symlink, faulty, locked, directory, Children, end, failing, entry, LibraryTree,
  CatEntry, cat_path,
}
use localref.Scan.Scanning.{
  is_under_all, category_for, looks_like_item, directory_entry, is_category_directory, enter,
  scan_cat_entry, scan_cat_dir,
}
use localref.Scan.Walking.{enters}

-- Whether a directory that is met is asked for the files in it.
abbrev is_asked : LibraryTree → List Text → Option (List Text) → Bool
is_asked tree path canonical = not (is_under_all tree canonical) && is_some (category_for path)

abbrev problem_in : Result Bool → Option LocalrefError
problem_in (ok found) = none
problem_in (err problem) = some problem

-- What the operating system keeps the scanner from learning of one entry that it meets: what the
-- entry is, what is in a directory that is no link to an item and has no `metadata.toml` for an item
-- of a category, or the type of one of the files in such a directory.
unfoldable pub problem_of : LibraryTree → List Text → Node → Option LocalrefError
problem_of tree path (faulty kind m) = some (io (cat_path tree path) m)
problem_of tree path (locked canonical has_metadata m) =
    if is_under_all tree canonical || is_some (category_for path) && has_metadata
    then none
    else some (io (cat_path tree path) m)
problem_of tree path (directory canonical has_metadata children) =
    if is_asked tree path canonical
    then problem_in (looks_like_item tree path has_metadata children)
    else none
problem_of tree path _ = none

-- An error that the scanner meets from a directory on: its listing breaks off, there is a problem with
-- an entry, or either in a directory that is entered.
pub data Fault (tree : LibraryTree) : List Text → Children → LocalrefError → Type 0 where
  broken : (dir : List Text) (m : Text) → Fault tree dir (failing m) (io (cat_path tree dir) m)
  met :
      {dir : List Text} {name : Text} {node : Node} (rest : Children) {problem : LocalrefError}
      → problem_of tree (dir ++ name ∷ []) node ≡ some problem
      → Fault tree dir (entry name node rest) problem
  later :
      {dir : List Text} {name : Text} {node : Node} {rest : Children} {problem : LocalrefError}
      → Fault tree dir rest problem
      → Fault tree dir (entry name node rest) problem
  inside :
      {dir : List Text} {name : Text} {canonical : Option (List Text)} {has_metadata : Bool}
      {children rest : Children} {problem : LocalrefError}
      → enters (directory_entry tree (dir ++ name ∷ []) canonical has_metadata children) ≡ true
      → Fault tree (dir ++ name ∷ []) children problem
      → Fault tree dir (entry name (directory canonical has_metadata children) rest) problem

-- A chain that fails does so in its first part or behind it.
failed :
    {A C : Type 0} (first : Result A) (rest : A → Result C) {problem : LocalrefError}
    → (first >>= rest) ≡ err problem
    → (first ≡ err problem) ⊎ ((a : A) × (first ≡ ok a) × (rest a ≡ err problem))
failed (err p) rest h = inl (ground arith)
failed (ok a) rest h = inr (a, refl, h)

enter-fails :
    (r : Result CatEntry) (below : Result (List CatEntry)) (problem : LocalrefError)
    → enter r below ≡ err problem
    → (r ≡ err problem) ⊎ ((enters r ≡ true) × (below ≡ err problem))
enter-fails (err p) below problem h = inl (ground arith)
enter-fails (ok found) below problem h = elim (Bool-cases (is_category_directory found.kind)) [
  | inr c ↦ ground arith
  | inl c ↦ elim (failed below (λ b. ok (found ∷ b)) {problem = problem} (ground arith)) [
    | inl f ↦ inr (c, f)
    | inr (b, f, g) ↦ ground arith
  ]
]

-- A directory's entry fails exactly when there is a problem with the directory.
directory_entry-fails :
    (tree : LibraryTree) (path : List Text) (canonical : Option (List Text)) (has_metadata : Bool)
    (children : Children) (problem : LocalrefError)
    → directory_entry tree path canonical has_metadata children ≡ err problem
    → problem_of tree path (directory canonical has_metadata children) ≡ some problem
unfolding directory_entry problem_of
directory_entry-fails tree path canonical has_metadata children problem h =
    elim (Bool-cases (is_under_all tree canonical)) [
      | inl u ↦ ground arith
      | inr u ↦ elim (Bool-cases (is_some (category_for path))) [
        | inr c ↦ ground arith
        | inl c ↦ elim (Result-cases (looks_like_item tree path has_metadata children)) [
          | inl (found, f) ↦ ground arith
          | inr (p, f) ↦ ground arith
        ]
      ]
    ]

module _ (tree : LibraryTree) where
  mutual
    unfolding scan_cat_entry problem_of

    entry_fails :
        (dir : List Text) (name : Text) (node : Node) (rest : Children) (problem : LocalrefError)
        → scan_cat_entry tree (dir ++ name ∷ []) node ≡ err problem
        → Fault tree dir (entry name node rest) problem
    entry_fails dir name file rest problem h = ground arith
    entry_fails dir name other rest problem h = ground arith
    entry_fails dir name (symlink target) rest problem h = ground arith
    entry_fails dir name (faulty kind m) rest problem h = met rest (ground arith)
    entry_fails dir name (locked canonical has_metadata m) rest problem h = met rest (ground arith)
    entry_fails dir name (directory canonical has_metadata children) rest problem h =
        let at = dir ++ name ∷ [] in
        elim (enter-fails (directory_entry tree at canonical has_metadata children)
          (scan_cat_dir tree at children) problem h) [
            | inl f ↦
                met rest (directory_entry-fails tree at canonical has_metadata children problem f)
            | inr (c, f) ↦ inside c (dir_fails at children problem f)
          ]

    dir_fails :
        (dir : List Text) (children : Children) (problem : LocalrefError)
        → scan_cat_dir tree dir children ≡ err problem
        → Fault tree dir children problem
    dir_fails dir end problem h = ground arith
    dir_fails dir (failing m) problem h =
        subst (λ p. Fault tree dir (failing m) p) (ground arith) (broken dir m)
    dir_fails dir (entry name node rest) problem h =
        elim (failed (scan_cat_entry tree (dir ++ name ∷ []) node) _ h) [
          | inl f ↦ entry_fails dir name node rest problem f
          | inr (a, _, g) ↦ elim (failed (scan_cat_dir tree dir rest) _ g) [
            | inr (b, f, g) ↦ ground arith
            | inl f ↦ later (dir_fails dir rest problem f)
          ]
        ]
