-- ===== src/Examples/Components.antt =====
-- Runs of `sanitize_ntfs_component` of crates/core/src/platformfs/mod.rs.
use localref.Base.{
  ℕ, ◌≤◌, Text, text, true, false, some, all, List, decimal, ◌≡◌, refl, ◌∷◌, [], ◌++◌, ok, trim,
  arith, contains, str_eq, to_ascii_uppercase, split,
}
use localref.Platformfs.Component.{
  replaced, is_reserved, sanitize_ntfs_component, reserved_names, cap_component_length,
}
use localref.Platformfs.Unique.{unique_all_item_path, create_unique_item_dir}
use localref.Platformfs.Unique.Free.{nth_name, tried_names, unique_all_item_path-ends}
use localref.Platformfs.Component.Shape.{IsComponent, sanitize-IsComponent}
use localref.Platformfs.Component.Reserved.{has, sanitize_reserved}

abbrev title : Text
title = text "Vision: a survey."

abbrev cleaned : Text
cleaned = text "Vision_ a survey"

cleans : sanitize_ntfs_component title ≡ ok cleaned
unfolding sanitize_ntfs_component replaced cap_component_length is_reserved reserved_names text trim
    contains str_eq to_ascii_uppercase split
cleans = refl

sanitize-IsComponent_example : IsComponent cleaned
sanitize-IsComponent_example = sanitize-IsComponent title cleaned cleans

abbrev device : Text
device = text "CON.txt"

sanitize_reserved_example :
    let s = replaced (trim device) in
    (sanitize_ntfs_component device ≡ ok (s ++ b'_' ∷ []))
    × (is_reserved (s ++ b'_' ∷ []) ≡ has b'.' s)
unfolding trim replaced is_reserved reserved_names text contains str_eq to_ascii_uppercase split
sanitize_reserved_example = sanitize_reserved device refl (omega arith)

abbrev item_names : List Text
item_names = title ∷ cleaned ∷ (cleaned ++ text " (3)") ∷ []

second_is_free : unique_all_item_path 4 title item_names ≡ ok (some (cleaned ++ text " (2)"))
unfolding unique_all_item_path sanitize_ntfs_component replaced cap_component_length is_reserved
    reserved_names text trim contains str_eq to_ascii_uppercase split decimal
second_is_free = refl

unique_all_item_path-ends_example :
    (n : ℕ) × (n ≤ 3)
    × (unique_all_item_path 4 title item_names ≡ ok (some (nth_name cleaned n)))
    × (create_unique_item_dir 4 title item_names
        ≡ ok (some (nth_name cleaned n, nth_name cleaned n ∷ item_names)))
    × (contains item_names (nth_name cleaned n) ≡ false)
    × (all (contains item_names) (tried_names cleaned 0 n) ≡ true)
unique_all_item_path-ends_example =
    unique_all_item_path-ends title cleaned item_names cleans (omega arith)
