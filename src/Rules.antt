-- ===== src/Rules.antt =====
-- crates/core/src/rules/mod.rs: the rules that classify an imported item. The `regex` crate and the
-- reading of `rules.toml` are parameters.
pub mod Query
pub mod Matching
use localref.Base.{
  Text, List, [], ◌∷◌, ◌++◌, Bool, true, false, not, if◌then◌else◌, Option, none, some, any, str_eq,
  Result, ok, err, ◌>>=◌, is_ok, invalid_path_component, ok_or,
}
use localref.Types.CategoryPath.{CategoryPath, new}
use Query.{RegexCrate, Metadata, parse_query, matches}

pub record Rule : Type 0 where
  pub name : Text
  pub target : Text
  pub query : Text

-- `categories.contains(&category)`
unfoldable pub holds_path : CategoryPath → List CategoryPath → Bool
unfolding any
holds_path c cs = any (λ (x : CategoryPath). str_eq x.value c.value) cs

abbrev pub target_of : Rule → Result CategoryPath
target_of rule =
    ok_or (new rule.target) (invalid_path_component rule.target "invalid category path")

abbrev pub push_new : CategoryPath → List CategoryPath → List CategoryPath
push_new c cs = if holds_path c cs then cs else cs ++ c ∷ []

module _ (regexes : RegexCrate) where
  -- The test on one rule.
  unfoldable pub check_rule : Rule → Result (Unit {0})
  check_rule rule = do _ ← target_of rule; _ ← parse_query regexes rule.query; ok tt

  unfoldable pub check_rules : List Rule → Result (Unit {0})
  unfolding check_rule
  check_rules [] = ok tt
  check_rules (rule ∷ rules) = do _ ← check_rule rule; check_rules rules

  -- `RuleSet::parse`
  unfoldable pub parse : (Text → Result (List Rule)) → Text → Result (List Rule)
  unfolding check_rules
  parse read_config source = do rules ← read_config source; _ ← check_rules rules; ok rules

  unfoldable pub rule_matches : Metadata → Rule → Result Bool
  unfolding any
  rule_matches metadata rule = do
    matchers ← parse_query regexes rule.query
    ok (any (λ m. matches regexes m metadata) matchers)

  -- One turn of the loop in `match_metadata`.
  abbrev pub add_target : Bool → Rule → List CategoryPath → Result (List CategoryPath)
  add_target false rule categories = ok categories
  add_target true rule categories = do category ← target_of rule; ok (push_new category categories)

  unfoldable pub match_rules : Metadata → List Rule → List CategoryPath → Result (List CategoryPath)
  unfolding rule_matches holds_path
  match_rules metadata [] categories = ok categories
  match_rules metadata (rule ∷ rules) categories = do
    matched ← rule_matches metadata rule
    categories' ← add_target matched rule categories
    match_rules metadata rules categories'

  -- `match_metadata`
  unfoldable pub match_metadata : List Rule → Metadata → Result (List CategoryPath)
  unfolding match_rules
  match_metadata rules metadata = match_rules metadata rules []
