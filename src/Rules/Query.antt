-- ===== src/Rules/Query.antt =====
-- Queries of crates/core/src/rules/mod.rs: `parse_query`, `Matcher::matches`, `values_for_field`.
use localref.Base.{
  Text, text, List, [], ◌∷◌, map, Bool, not, ◌||◌, ◌==◌, if◌then◌else◌, Option, none, some, any,
  retain, str_eq, is_empty, trim, split_once, rsplit_once, split_str, starts_with, contains_str,
  to_ascii_lowercase, Result, ok, err, ◌>>=◌, unsupported,
}

-- What the code uses of the `regex` crate: building may fail with `LocalrefError::Rule`.
pub record RegexCrate : Type 1 where
  pub Regex : Type 0
  -- the source, and whether case is ignored
  pub build : Text → Bool → Result Regex
  pub is_match : Regex → Text → Bool

-- What the rules read of an item's metadata; the year as it is printed.
pub record Metadata : Type 0 where
  pub title : Text
  pub abstract_note : Option Text
  pub doi : Option Text
  pub uri : Option Text
  pub item_type : Text
  pub venue : Option Text
  pub year : Option Text
  pub tags : List Text

abbrev pub option_values : Option Text → List Text
option_values none = []
option_values (some t) = t ∷ []

unfoldable pub values_for_field : Metadata → Text → List Text
unfolding text str_eq
values_for_field metadata field =
    if str_eq field (text "title")
    then metadata.title ∷ []
    else if str_eq field (text "abstract") || str_eq field (text "abstract_note")
    then option_values metadata.abstract_note
    else if str_eq field (text "doi")
    then option_values metadata.doi
    else if str_eq field (text "uri") || str_eq field (text "url")
    then option_values metadata.uri
    else if str_eq field (text "type") || str_eq field (text "item_type")
    then metadata.item_type ∷ []
    else if str_eq field (text "venue")
    then option_values metadata.venue
    else if str_eq field (text "year")
    then option_values metadata.year
    else if str_eq field (text "tags") || str_eq field (text "tag")
    then metadata.tags
    else []

-- What `filter` keeps of the atoms.
unfoldable pub atoms : Text → List Text
unfolding text split_str retain trim
atoms query = retain (λ a. not (is_empty a)) (map trim (split_str (text " OR ") query))

abbrev pub tail : Text → Text
tail [] = []
tail (c ∷ s) = s

module _ (regexes : RegexCrate) where
  open regexes use {Regex, build, is_match}

  pub data Matcher : Type 0 where
    substring : Text → Text → Matcher
    regex : Text → Regex → Matcher

  -- A pattern that starts with a slash, cut at its last slash.
  abbrev pub regex_matcher : Text → Option (Text × Text) → Result Matcher
  regex_matcher field none = err (unsupported "unterminated regex rule")
  regex_matcher field (some (before, flags)) =
      if is_empty before
      then err (unsupported "empty regex rule")
      else (build (tail before) (any (λ c. c == b'i') flags) >>= λ r. ok (regex field r))

  abbrev pub pattern_matcher : Text → Text → Result Matcher
  pattern_matcher field pattern =
      if is_empty field || is_empty pattern
      then err (unsupported "empty rule query atom")
      else if starts_with (b'/' ∷ []) pattern
      then regex_matcher field (rsplit_once b'/' pattern)
      else ok (substring field (to_ascii_lowercase pattern))

  abbrev pub split_matcher : Option (Text × Text) → Result Matcher
  split_matcher none = err (unsupported "rule query atoms must use field:pattern")
  split_matcher (some (field, pattern)) =
      pattern_matcher (to_ascii_lowercase (trim field)) (trim pattern)

  unfoldable pub parse_atom : Text → Result Matcher
  unfolding split_once rsplit_once trim to_ascii_lowercase starts_with any
  parse_atom atom = split_matcher (split_once b':' atom)

  unfoldable pub parse_atoms : List Text → Result (List Matcher)
  parse_atoms [] = ok []
  parse_atoms (atom ∷ rest) = do
    matcher ← parse_atom atom
    matchers ← parse_atoms rest
    ok (matcher ∷ matchers)

  unfoldable pub parse_query : Text → Result (List Matcher)
  parse_query query = parse_atoms (atoms query)

  unfoldable pub matches : Matcher → Metadata → Bool
  unfolding any values_for_field to_ascii_lowercase contains_str
  matches (substring field needle) metadata =
      any (λ value. contains_str needle (to_ascii_lowercase value))
        (values_for_field metadata field)
  matches (regex field r) metadata = any (is_match r) (values_for_field metadata field)
