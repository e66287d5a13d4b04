-- ===== src/Platformfs/Component.antt =====
-- `sanitize_ntfs_component` and `cap_component_length` of crates/core/src/platformfs/mod.rs
pub mod Shape
pub mod Reserved
use localref.Base.{
  ℕ, ◌+◌, ◌-◌, String, Text, text, List, [], ◌∷◌, ◌++◌, map, Bool, true, false, not, ◌&&◌, ◌||◌,
  ◌==◌, ltb, leb, if◌then◌else◌, Option, none, some, length, is_empty, all, drop_end, take,
  contains, trim, split, rsplit_once, to_ascii_uppercase, is_ascii_alphanumeric, Result, ok, err,
  missing_field, invalid_path_component,
}

abbrev pub max_component_chars : ℕ
max_component_chars = 100

abbrev pub max_extension_chars : ℕ
max_extension_chars = 8

-- '…'
abbrev pub truncation_marker : ℕ
truncation_marker = 0x2026

-- The characters `< > : " / \ | ? *` and the controls.
unfoldable pub is_forbidden : ℕ → Bool
is_forbidden c =
    c == b'<'
    || c == b'>'
    || c == b':'
    || c == 34
    || c == b'/'
    || c == 92
    || c == b'|'
    || c == b'?'
    || c == b'*'
    || leb c 0x1F

abbrev pub replace_forbidden : ℕ → ℕ
replace_forbidden c = if is_forbidden c then b'_' else c

-- What the two loops pop off the end.
abbrev pub is_space_or_dot : ℕ → Bool
is_space_or_dot c = c == b' ' || c == b'.'

unfoldable pub reserved_names : List Text
unfolding text
reserved_names =
    text "CON"
    ∷ text "PRN"
    ∷ text "AUX"
    ∷ text "NUL"
    ∷ text "COM1"
    ∷ text "COM2"
    ∷ text "COM3"
    ∷ text "COM4"
    ∷ text "COM5"
    ∷ text "COM6"
    ∷ text "COM7"
    ∷ text "COM8"
    ∷ text "COM9"
    ∷ text "LPT1"
    ∷ text "LPT2"
    ∷ text "LPT3"
    ∷ text "LPT4"
    ∷ text "LPT5"
    ∷ text "LPT6"
    ∷ text "LPT7"
    ∷ text "LPT8"
    ∷ text "LPT9"
    ∷ []

abbrev pub first_or : Text → List Text → Text
first_or d [] = d
first_or d (x ∷ xs) = x

-- The device names of Windows: the part before the first dot decides.
unfoldable pub is_reserved : Text → Bool
is_reserved name = contains reserved_names (to_ascii_uppercase (first_or name (split b'.' name)))

-- The extension that `cap_component_length` keeps, if it is short and plain.
abbrev pub kept_extension : Option (Text × Text) → Option Text
kept_extension none = none
kept_extension (some (_, ext)) =
    if not (is_empty ext) && leb (length ext) max_extension_chars && all is_ascii_alphanumeric ext
    then some ext
    else none

abbrev pub suffix_chars : Option Text → ℕ
suffix_chars none = 0
suffix_chars (some ext) = length ext + 1

abbrev pub with_extension : Text → Option Text → Text
with_extension stem none = stem
with_extension stem (some ext) = stem ++ b'.' ∷ ext

unfoldable pub cap_component_length : Text → Text
unfolding rsplit_once take drop_end all is_ascii_alphanumeric
cap_component_length sanitized =
    if leb (length sanitized) max_component_chars
    then sanitized
    else let extension = kept_extension (rsplit_once b'.' sanitized) in
      let stem_budget = max_component_chars - (1 + suffix_chars extension) in
      let stem = drop_end is_space_or_dot (take stem_budget sanitized) in
      with_extension (stem ++ truncation_marker ∷ []) extension

-- The characters after replacement, with the blanks and dots at the end popped.
unfoldable pub replaced : Text → Text
unfolding drop_end is_forbidden
replaced trimmed = drop_end is_space_or_dot (map replace_forbidden trimmed)

-- The branch on device names.
abbrev pub dodge_reserved : Text → Text
dodge_reserved s = if is_reserved s then s ++ b'_' ∷ [] else s

unfoldable pub sanitize_ntfs_component : Text → Result Text
sanitize_ntfs_component value =
    let trimmed = trim value in
    if is_empty trimmed
    then err (missing_field "path component")
    else let sanitized = replaced trimmed in
      if is_empty sanitized
      then err (invalid_path_component value "component becomes empty after NTFS sanitization")
      else ok (cap_component_length (dodge_reserved sanitized))
