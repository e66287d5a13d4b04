-- ===== src/Examples/Classification.antt =====
-- Runs of the classification rules of crates/core/src/rules/mod.rs.
use localref.Base.{Text, text, ◌≡◌, refl, List, [], ◌∷◌, none, some, any, Result, ok, contains_str}
use localref.Types.CategoryPath.{CategoryPath, new}
use localref.Rules.{Rule, holds_path, parse, check_rules, check_rule, match_metadata}
use localref.Rules.Query.{
  RegexCrate, Metadata, parse_query, parse_atoms, parse_atom, atoms, matches,
}
use localref.Rules.Matching.{Distinct, selects, match_metadata-selects}

-- A regex that is a plain text.
abbrev plain : RegexCrate
plain = record {
  Regex = Text;
  build = λ source _. ok source;
  is_match = λ r value. contains_str r value;
}

abbrev item : Metadata
item = record {
  title = text "A near-field survey";
  abstract_note = none;
  doi = none;
  uri = none;
  item_type = text "article";
  venue = none;
  year = some (text "2024");
  tags = text "RIS" ∷ [];
}

abbrev near_field : Rule
near_field = record {
  name = text "near";
  target = text "W/R";
  query = text "doi:x OR title:/near/i";
}

abbrev config : Text → Result (List Rule)
config _ = ok (near_field ∷ near_field ∷ [])

parses : parse plain config [] ≡ ok (near_field ∷ near_field ∷ [])
unfolding parse check_rules check_rule new text parse_query parse_atoms atoms parse_atom
parses = refl

-- The second rule has the same target, which is returned once.
classifies :
    match_metadata plain (near_field ∷ near_field ∷ []) item
    ≡ ok (record { value = text "W/R" } ∷ [])
unfolding match_metadata parse_query parse_atoms atoms parse_atom matches new text
classifies = refl

match_metadata-selects_example :
    (cats : List CategoryPath) × (match_metadata plain (near_field ∷ near_field ∷ []) item
      ≡ ok cats)
    × Distinct cats
    × ((c : CategoryPath)
        → holds_path c cats ≡ any (selects plain item c) (near_field ∷ near_field ∷ []))
match_metadata-selects_example =
    match_metadata-selects plain config [] (near_field ∷ near_field ∷ []) item parses
