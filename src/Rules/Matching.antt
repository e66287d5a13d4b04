-- ===== src/Rules/Matching.antt =====
-- What matching the rules against an item returns.
use localref.Base.{
  Text, ◌≡◌, refl, subst, ◌∙◌, List, [], ◌∷◌, ◌++◌, Bool, true, false, ◌&&◌, ◌||◌, if◌then◌else◌,
  Option, none, some, any, str_eq, str_eq_iff, Result, ok, err, reached, arith, Bool-cases, inl,
  inr, Option-cases,
}
use localref.Types.CategoryPath.{CategoryPath, new}
use localref.Rules.{
  Rule, holds_path, target_of, push_new, check_rule, check_rules, parse, rule_matches, add_target,
  match_rules, match_metadata,
}
use localref.Rules.Query.{RegexCrate, Metadata, Matcher, parse_query, matches}

-- No category stands twice.
abbrev pub Distinct : List CategoryPath → Type 0
Distinct [] = Unit {0}
Distinct (c ∷ cs) = (holds_path c cs ≡ false) × Distinct cs

holds_path-append :
    (c d : CategoryPath) (cs : List CategoryPath)
    → holds_path c (cs ++ d ∷ []) ≡ (holds_path c cs || str_eq d.value c.value)
unfolding holds_path any
holds_path-append c d [] = ground arith
holds_path-append c d (x ∷ xs) = ground (arith, holds_path-append c d xs)

append-Distinct :
    (d : CategoryPath) (cs : List CategoryPath)
    → Distinct cs
    → holds_path d cs ≡ false
    → Distinct (cs ++ d ∷ [])
unfolding holds_path any
append-Distinct d [] t h = (refl, tt)
append-Distinct d (x ∷ xs) (fresh, t) h = ground (
  arith,
  append-Distinct d xs t,
  holds_path-append x d xs,
  str_eq_iff d.value x.value,
  str_eq_iff x.value d.value,
)

push-Distinct : (d : CategoryPath) (cs : List CategoryPath) → Distinct cs → Distinct (push_new d cs)
push-Distinct d cs t = elim (Bool-cases (holds_path d cs)) [
  | inl there ↦ rw there t
  | inr fresh ↦ rw fresh (append-Distinct d cs t fresh)
]

holds_path_same :
    (c d : CategoryPath) (cs : List CategoryPath)
    → d.value ≡ c.value
    → holds_path c cs ≡ holds_path d cs
unfolding holds_path
holds_path_same c d cs e = rw e

holds_path-push :
    (c d : CategoryPath) (cs : List CategoryPath)
    → holds_path c (push_new d cs) ≡ (holds_path c cs || str_eq d.value c.value)
holds_path-push c d cs = elim (Bool-cases (holds_path d cs)) [
  | inl there ↦ rw there (ground (arith, holds_path_same c d cs, str_eq_iff d.value c.value))
  | inr fresh ↦ rw fresh (holds_path-append c d cs)
]

advance-Distinct :
    (b : Bool) (d : CategoryPath) (cs : List CategoryPath)
    → Distinct cs
    → Distinct (if b then push_new d cs else cs)
advance-Distinct true d cs t = push-Distinct d cs t
advance-Distinct false d cs t = t

holds_path-advance :
    (b : Bool) (c d : CategoryPath) (cs : List CategoryPath)
    → holds_path c (if b then push_new d cs else cs)
      ≡ (holds_path c cs || (b && str_eq d.value c.value))
holds_path-advance true c d cs = holds_path-push c d cs
holds_path-advance false c d cs = ground arith

abbrev pub is_target : CategoryPath → Option CategoryPath → Bool
is_target c none = false
is_target c (some x) = str_eq x.value c.value

abbrev pub holds : Result Bool → Bool
holds (ok b) = b
holds (err problem) = false

target_of-new : (rule : Rule) (t : CategoryPath) → target_of rule ≡ ok t → new rule.target ≡ some t
target_of-new rule t h = elim (Option-cases (new rule.target)) [ inl e ↦ cc | inr (x, e) ↦ cc ]

module _ (regexes : RegexCrate) where
  -- Whether a rule matches the item and has the category as its target.
  abbrev pub selects : Metadata → CategoryPath → Rule → Bool
  selects metadata c rule =
      holds (rule_matches regexes metadata rule) && is_target c (new rule.target)

  checked :
      (rule : Rule) (rules : List Rule)
      → check_rules regexes (rule ∷ rules) ≡ ok tt
      → (t : CategoryPath) × (target_of rule ≡ ok t)
        × (ms : List (Matcher regexes)) × (parse_query regexes rule.query ≡ ok ms)
        × (check_rules regexes rules ≡ ok tt)
  unfolding check_rules check_rule
  checked rule rules h =
      let (_, one, rest) = reached (check_rule regexes rule) _ h in
      let (t, target, e) = reached (target_of rule) _ one in
      let (ms, parsed, _) = reached (parse_query regexes rule.query) _ e in
      (t, target, ms, parsed, rest)

  added :
      (b : Bool) (rule : Rule) (t : CategoryPath) (acc : List CategoryPath)
      → target_of rule ≡ ok t
      → add_target regexes b rule acc ≡ ok (if b then push_new t acc else acc)
  added true rule t acc h = rw h
  added false rule t acc h = refl

  counted :
      (c : CategoryPath) (b : Bool) (t : CategoryPath) (acc : List CategoryPath) (rule : Rule)
      (rules : List Rule) (metadata : Metadata)
      → rule_matches regexes metadata rule ≡ ok b
      → target_of rule ≡ ok t
      → (holds_path c (if b then push_new t acc else acc) || any (selects metadata c) rules)
        ≡ (holds_path c acc || any (selects metadata c) (rule ∷ rules))
  unfolding any
  counted c b t acc rule rules metadata tested target =
      rw (holds_path-advance b c t acc, tested, target_of-new rule t target) (ground arith)

  Outcome : Metadata → List Rule → List CategoryPath → Type 0
  Outcome metadata rules acc =
      (cats : List CategoryPath) × (match_rules regexes metadata rules acc ≡ ok cats)
      × (Distinct acc → Distinct cats)
      × ((c : CategoryPath)
          → holds_path c cats ≡ (holds_path c acc || any (selects metadata c) rules))

  matched :
      (metadata : Metadata) (rules : List Rule) (acc : List CategoryPath)
      → check_rules regexes rules ≡ ok tt
      → Outcome metadata rules acc
  unfolding Outcome match_rules any
  matched metadata [] acc h = (acc, refl, λ t. t, λ c. ground arith)
  matched metadata (rule ∷ rules) acc h =
      let (t, target, ms, parsed, rest) = checked rule rules h in
      let b : Bool = any (λ m. matches regexes m metadata) ms in
      let tested : rule_matches regexes metadata rule ≡ ok b = unfold rule_matches in rw parsed in
      let acc' : List CategoryPath = if b then push_new t acc else acc in
      let (cats, e, distinct, members) = matched metadata rules acc' rest in
      (
        cats,
        rw (tested, added b rule t acc target) e,
        λ u. distinct (advance-Distinct b t acc u),
        λ c. members c ∙ counted c b t acc rule rules metadata tested target,
      )

  -- When `RuleSet::parse` accepted the rules, matching them against an item never fails, names no
  -- category twice, and names a category exactly if a rule that matches the item has it as target.
  pub match_metadata-selects :
      (read_config : Text → Result (List Rule)) (source : Text) (rules : List Rule)
      (metadata : Metadata)
      → parse regexes read_config source ≡ ok rules
      → (cats : List CategoryPath) × (match_metadata regexes rules metadata ≡ ok cats)
        × Distinct cats
        × ((c : CategoryPath) → holds_path c cats ≡ any (selects metadata c) rules)
  unfolding parse match_metadata Outcome holds_path any
  match_metadata-selects read_config source rules metadata h =
      let (rules', _, h1) = reached (read_config source) _ h in
      let (_, checks, e) = reached (check_rules regexes rules') _ h1 in
      let same : rules' ≡ rules = cc in
      let (cats, run, distinct, members) =
        matched metadata rules [] (subst (λ r. check_rules regexes r ≡ ok tt) same checks) in
      (cats, run, distinct tt, members)
