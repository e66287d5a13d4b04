-- ===== src/Examples/Trees.antt =====
-- Runs of the links below `Cat/` of crates/core/src/platformfs/mod.rs.
use localref.Base.{text, ◌≡◌, refl, [], ◌∷◌, ok, trim, contains, str_eq, to_ascii_uppercase, split}
use localref.Types.CategoryPath.{CategoryPath}
use localref.Platformfs.Component.{
  sanitize_ntfs_component, replaced, cap_component_length, is_reserved, reserved_names,
}
use localref.Platformfs.CatTree.{
  CatTree, category_dir, find_link, has_directory, create_category_link_named,
}
use localref.Platformfs.CatTree.Paths.{path_eq}

abbrev robotics : CategoryPath
robotics = record { value = text "robotics" }

abbrev empty_tree : CatTree
empty_tree = record { directories = []; links = [] }

abbrev linked_tree : CatTree
linked_tree = record {
  directories = (text "robotics" ∷ []) ∷ [];
  links =
      record { directory = text "robotics" ∷ []; name = text "Demo"; target = text "Demo" } ∷ [];
}

links :
    create_category_link_named robotics (text "Demo") (text "Demo") empty_tree
    ≡ (ok tt, linked_tree)
unfolding create_category_link_named category_dir find_link has_directory path_eq text
    sanitize_ntfs_component trim replaced cap_component_length is_reserved contains reserved_names
    str_eq to_ascii_uppercase split
links = refl

robotics_dir : category_dir robotics ≡ ok (text "robotics" ∷ [])
unfolding category_dir text sanitize_ntfs_component trim replaced cap_component_length is_reserved
    contains reserved_names str_eq to_ascii_uppercase split
robotics_dir = refl

demo_name : sanitize_ntfs_component (text "Demo") ≡ ok (text "Demo")
unfolding text sanitize_ntfs_component trim replaced cap_component_length is_reserved contains
    reserved_names str_eq to_ascii_uppercase split
demo_name = refl

-- The directory of a category is made although the name of the link is refused.
keeps_directory :
    (create_category_link_named robotics (text "  ") (text "Demo") empty_tree).1
    ≡ record { directories = (text "robotics" ∷ []) ∷ []; links = [] }
unfolding create_category_link_named category_dir find_link has_directory path_eq text
    sanitize_ntfs_component trim replaced cap_component_length is_reserved contains reserved_names
    str_eq to_ascii_uppercase split
keeps_directory = refl
