-- ===== src/Platformfs/Unique.antt =====
-- `unique_all_item_path` and `create_unique_item_dir` of crates/core/src/platformfs/mod.rs. The state
-- is the list of the names that stand in `All/`, which is searched by the name itself. The loop has
-- fuel. The operating system's failure to create a directory is not modelled.
pub mod Free
use localref.Base.{
  ℕ, suc, ◌+◌, Text, text, List, [], ◌∷◌, ◌++◌, Option, none, some, if◌then◌else◌, contains,
  decimal, Result, ok, ◌>>=◌, succ32,
}
use localref.Platformfs.Component.{sanitize_ntfs_component}

-- `format!("{base} ({suffix})")`
unfoldable pub suffixed : Text → ℕ → Text
unfolding text
suffixed base suffix = base ++ (text " (" ++ (decimal suffix ++ text ")"))

-- The loop `while candidate.exists()`; `none` says that the fuel did not do.
unfoldable pub unused_name : List Text → Text → ℕ → Text → ℕ → Option Text
unfolding suffixed
unused_name existing base ℕ.zero candidate suffix = none
unused_name existing base (suc fuel) candidate suffix =
    let rest = unused_name existing base fuel (suffixed base suffix) (succ32 suffix) in
    if contains existing candidate then rest else some candidate

unfoldable pub unique_all_item_path : ℕ → Text → List Text → Result (Option Text)
unfolding unused_name
unique_all_item_path fuel entry_name existing =
    sanitize_ntfs_component entry_name >>= λ base. ok (unused_name existing base fuel base 2)

abbrev pub with_directory : List Text → Option Text → Option (Text × List Text)
with_directory existing none = none
with_directory existing (some name) = some (name, name ∷ existing)

-- The name of the new directory and the names that stand in `All/` with it.
unfoldable pub create_unique_item_dir : ℕ → Text → List Text → Result (Option (Text × List Text))
unfolding unused_name
create_unique_item_dir fuel title existing = sanitize_ntfs_component title >>= λ base.
    ok (with_directory existing (unused_name existing base fuel base 2))
