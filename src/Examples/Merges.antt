-- ===== src/Examples/Merges.antt =====
-- Runs of merging two categories of crates/core/src/lib.rs and platformfs/mod.rs.
use localref.Base.{
  Text, text, ◌≡◌, ◌⊎◌, refl, List, [], ◌∷◌, ok, true, false, is_ok, not, Bool, trim, contains,
  str_eq, to_ascii_uppercase, split,
}
use localref.Types.CategoryPath.{CategoryPath}
use localref.Platformfs.Component.{
  sanitize_ntfs_component, replaced, cap_component_length, is_reserved, reserved_names,
}
use localref.Platformfs.CatTree.{CatTree, category_dir, has_directory}
use localref.Platformfs.CatTree.Paths.{path_eq}
use localref.Platformfs.Merging
use localref.Platformfs.Merging.{stands, is_entry}
use localref.Platformfs.Merging.Outcome.{merge_category-outcome}

abbrev art : CategoryPath
art = record { value = text "art" }

abbrev books : CategoryPath
books = record { value = text "books" }

abbrev art_path : List Text
art_path = text "art" ∷ []

abbrev books_path : List Text
books_path = text "books" ∷ []

art_dir : category_dir art ≡ ok art_path
unfolding category_dir text sanitize_ntfs_component trim replaced cap_component_length is_reserved
    contains reserved_names str_eq to_ascii_uppercase split
art_dir = refl

books_dir : category_dir books ≡ ok books_path
unfolding category_dir text sanitize_ntfs_component trim replaced cap_component_length is_reserved
    contains reserved_names str_eq to_ascii_uppercase split
books_dir = refl

-- The item `Demo` is in both categories, and `Solo` only in the first.
abbrev tree : CatTree
tree = record {
  directories = art_path ∷ books_path ∷ [];
  links =
      record { directory = art_path; name = text "Solo"; target = text "Solo" }
      ∷ record { directory = art_path; name = text "Demo"; target = text "Demo" }
      ∷ record { directory = books_path; name = text "Demo"; target = text "Demo" }
      ∷ [];
}

-- Every target but `Gone` is there.
abbrev lives : Text → Bool
lives target = not (str_eq target (text "Gone"))

-- A link of the target that leads nowhere gives way to the entry of the source.
abbrev dangling : CatTree
dangling = record {
  directories = art_path ∷ books_path ∷ [];
  links =
      record { directory = art_path; name = text "Demo"; target = text "Demo" }
      ∷ record { directory = books_path; name = text "Demo"; target = text "Gone" }
      ∷ [];
}

replaces : Merging.merge_category lives art books dangling ≡ (
  ok tt,
  record {
    directories = books_path ∷ [];
    links = record { directory = books_path; name = text "Demo"; target = text "Demo" } ∷ [];
  },
)
unfolding Merging.merge_category category_dir text sanitize_ntfs_component trim replaced
    cap_component_length is_reserved contains reserved_names str_eq to_ascii_uppercase split path_eq
replaces = refl

shares : is_ok (Merging.merge_category lives art books tree).0 ≡ false
unfolding Merging.merge_category category_dir text sanitize_ntfs_component trim replaced
    cap_component_length is_reserved contains reserved_names str_eq to_ascii_uppercase split path_eq
shares = refl

has_art_dangling : has_directory art_path dangling ≡ true
unfolding has_directory path_eq text str_eq
has_art_dangling = refl

demo_in_art : is_entry art_path (text "Demo") dangling ≡ true
unfolding stands path_eq text str_eq
demo_in_art = refl

merge_category-outcome_example :
    let (result, tree') = Merging.merge_category lives art books dangling in
    (is_ok result ≡ false)
    ⊎ ((stands lives books_path (text "Demo") dangling ≡ false)
        × (is_entry books_path (text "Demo") tree' ≡ true)
        × (has_directory art_path tree' ≡ false))
merge_category-outcome_example =
    merge_category-outcome lives art books art_path books_path (text "Demo") dangling art_dir
      books_dir has_art_dangling demo_in_art
