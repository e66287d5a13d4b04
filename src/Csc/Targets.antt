-- ===== src/Csc/Targets.antt =====
-- `connector_save_targets` and its helpers of crates/csc/src/lib.rs: the categories that the connector
-- offers to save to.
pub mod Encoding
pub mod Closed
pub mod Whole
use localref.Base.{
  ℕ, ◌+◌, ◌-◌, ◌*◌, ◌/◌, ◌%◌, Text, text, List, [], ◌∷◌, ◌++◌, Bool, true, false, not, ◌&&◌, ◌||◌,
  ◌==◌, ltb, leb, if◌then◌else◌, Option, none, some, length, is_empty, retain, trim, split,
  rsplit_once, is_ascii_alphanumeric, sorted_unique,
}
use localref.Config.Escape.{hex_digit}
use localref.Types.CategoryPath.{normalize}

-- `bytes` of a character, in UTF-8
unfoldable pub utf8 : ℕ → List ℕ
utf8 c =
    if ltb c 0x80
    then c ∷ []
    else if ltb c 0x800
    then (0xC0 + c / 64) ∷ (0x80 + c % 64) ∷ []
    else if ltb c 0x10000
    then (0xE0 + c / 4096) ∷ (0x80 + c / 64 % 64) ∷ (0x80 + c % 64) ∷ []
    else (0xF0 + c / 262144) ∷ (0x80 + c / 4096 % 64) ∷ (0x80 + c / 64 % 64) ∷ (0x80 + c % 64) ∷ []

unfoldable pub bytes : Text → List ℕ
unfolding utf8
bytes [] = []
bytes (c ∷ s) = utf8 c ++ bytes s

unfoldable pub is_unreserved : ℕ → Bool
unfolding is_ascii_alphanumeric
is_unreserved b =
    is_ascii_alphanumeric b || b == b'-' || b == b'_' || b == b'.' || b == b'~' || b == b'/'

unfoldable pub encode_byte : ℕ → Text
unfolding is_unreserved
encode_byte b =
    if is_unreserved b then b ∷ [] else b'%' ∷ hex_digit (b / 16) ∷ hex_digit (b % 16) ∷ []

unfoldable pub encode_bytes : List ℕ → Text
unfolding encode_byte
encode_bytes [] = []
encode_bytes (b ∷ bs) = encode_byte b ++ encode_bytes bs

unfoldable pub encode_target_path : Text → Text
unfolding bytes encode_bytes
encode_target_path path = encode_bytes (bytes path)

-- The prefix with one more part.
abbrev pub extended : Text → Text → Text
extended [] part = part
extended (c ∷ prefix) part = (c ∷ prefix) ++ b'/' ∷ part

-- The inner loop: the prefixes that the parts go through.
unfoldable pub prefixes_from : Text → List Text → List Text
unfolding trim
prefixes_from prefix [] = []
prefixes_from prefix (part ∷ parts) =
    let longer = extended prefix (trim part) in
    let rest = prefixes_from longer parts in
    let skipped = prefixes_from prefix parts in
    if is_empty (trim part) then skipped else longer ∷ rest

unfoldable pub category_prefixes : List Text → List Text
unfolding normalize split prefixes_from
category_prefixes [] = []
category_prefixes (category ∷ categories) =
    prefixes_from [] (split b'/' (normalize category)) ++ category_prefixes categories

-- The `BTreeSet` is the sorted list without repetitions.
unfoldable pub normalized_category_prefixes : List Text → List Text
unfolding category_prefixes sorted_unique
normalized_category_prefixes categories = sorted_unique (category_prefixes categories)

pub record SaveTarget : Type 0 where
  pub id : Text
  pub name : Text
  pub files_editable : Bool
  pub level : ℕ

abbrev pub last_part : Text → Option (Text × Text) → Text
last_part category none = category
last_part category (some (_, name)) = name

abbrev pub category_target : Text → SaveTarget
category_target category = record {
  id = b'C' ∷ encode_target_path category;
  name = last_part category (rsplit_once b'/' category);
  files_editable = true;
  level = length (split b'/' category);
}

unfoldable pub category_targets : List Text → List SaveTarget
unfolding encode_target_path rsplit_once split
category_targets [] = []
category_targets (category ∷ categories) = category_target category ∷ category_targets categories

unfoldable pub connector_save_targets : List Text → List SaveTarget
unfolding text category_targets normalized_category_prefixes
connector_save_targets categories =
    record { id = text "L1"; name = text "Localref"; files_editable = true; level = 0 }
    ∷ category_targets (normalized_category_prefixes categories)
