-- ===== src/Csc/Targets/Whole.antt =====
-- The categories that `normalized_category_prefixes` of crates/csc/src/lib.rs is given, among its
-- result.
use localref.Base.{
  ◌≡◌, refl, ap, subst, ◌∙◌, Text, List, [], ◌∷◌, ◌++◌, Bool, true, false, not, ◌||◌, ◌⊎◌, inl, inr,
  if◌then◌else◌, is_empty, all, any, any-append, Bool-cases, arith, contains, str_eq, str_eq_refl,
  str_eq_iff, str_eq→eq, retain, map, append_assoc, trim, split, any-sorted_unique, is_strict,
  is_strict-sorted_unique,
}
use localref.Library.Reconcile.{join}
use localref.Types.CategoryPath.{normalize}
use localref.Csc.Targets.{extended, prefixes_from, category_prefixes, normalized_category_prefixes}
use localref.Csc.Targets.Closed.{has_parent, category_prefixes-closed, all-sorted_unique}

-- What is trimmed and not blank of the parts of a category, joined by slashes.
unfoldable pub whole_from : Text → List Text → Text
whole_from prefix [] = prefix
whole_from prefix (part ∷ parts) =
    let longer = whole_from (extended prefix (trim part)) parts in
    let skipped = whole_from prefix parts in if is_empty (trim part) then skipped else longer

whole_from-listed :
    (prefix : Text) (parts : List Text)
    → (str_eq (whole_from prefix parts) prefix ≡ true)
      ⊎ (contains (prefixes_from prefix parts) (whole_from prefix parts) ≡ true)
unfolding whole_from prefixes_from contains any
whole_from-listed prefix [] = inl (str_eq_refl prefix)
whole_from-listed prefix (part ∷ parts) =
    let longer = extended prefix (trim part) in
    elim (Bool-cases (is_empty (trim part))) [
      | inl e ↦ elim (whole_from-listed prefix parts) [
        | inl h ↦ inl (ground arith)
        | inr h ↦ inr (ground arith)
      ]
      | inr e ↦ elim (whole_from-listed longer parts) [
        | inl h ↦
            inr (ground (arith, str_eq_iff (whole_from longer parts) longer, str_eq_refl longer))
        | inr h ↦ inr (ground arith)
      ]
    ]

-- The parts of a category that are not blank, trimmed.
unfoldable pub named_parts : Text → List Text
named_parts category =
    retain (λ part. not (is_empty part)) (map trim (split b'/' (normalize category)))

abbrev joined_behind : Text → List Text → Text
joined_behind prefix [] = prefix
joined_behind prefix (part ∷ parts) = extended prefix (join (part ∷ parts))

extended_assoc :
    (prefix part rest : Text)
    → is_empty part ≡ false
    → extended (extended prefix part) rest ≡ extended prefix (part ++ b'/' ∷ rest)
extended_assoc [] [] rest h = ground arith
extended_assoc [] (c ∷ part) rest h = refl
extended_assoc (c ∷ prefix) part rest h = append_assoc (c ∷ prefix) (b'/' ∷ part) (b'/' ∷ rest)

joined_behind-extended :
    (prefix part : Text) (parts : List Text)
    → is_empty part ≡ false
    → joined_behind (extended prefix part) parts ≡ extended prefix (join (part ∷ parts))
unfolding join
joined_behind-extended prefix part [] h = refl
joined_behind-extended prefix part (x ∷ xs) h = extended_assoc prefix part (join (x ∷ xs)) h

whole_from-joined :
    (prefix : Text) (parts : List Text)
    → whole_from prefix parts
      ≡ joined_behind prefix (retain (λ part. not (is_empty part)) (map trim parts))
unfolding whole_from retain
whole_from-joined prefix [] = refl
whole_from-joined prefix (part ∷ parts) = elim (Bool-cases (is_empty (trim part))) [
  | inl e ↦ ground (arith, whole_from-joined prefix parts)
  | inr e ↦ ground (
    arith,
    whole_from-joined (extended prefix (trim part)) parts,
    joined_behind-extended prefix (trim part)
        (retain (λ part. not (is_empty part)) (map trim parts)) e,
  )
]

-- A category with its parts trimmed and without the blank ones.
abbrev pub whole : Text → Text
whole category = join (named_parts category)

joined_behind-join : (parts : List Text) → joined_behind [] parts ≡ join parts
unfolding join
joined_behind-join [] = refl
joined_behind-join (part ∷ parts) = refl

whole-listed :
    (category : Text)
    → (is_empty (whole category) ≡ true)
      ⊎ (contains (prefixes_from [] (split b'/' (normalize category))) (whole category) ≡ true)
unfolding named_parts
whole-listed category =
    let parts = split b'/' (normalize category) in
    let same =
      whole_from-joined [] parts
      ∙ joined_behind-join (retain (λ part. not (is_empty part)) (map trim parts)) in
    subst (λ w. (is_empty w ≡ true) ⊎ (contains (prefixes_from [] parts) w ≡ true)) same
      (elim (whole_from-listed [] parts) [
        | inl h ↦ inl (ap is_empty (str_eq→eq (whole_from [] parts) [] h))
        | inr h ↦ inr h
      ])

-- The category itself, unless all its parts are blank.
abbrev pub is_offered : List Text → Text → Bool
is_offered paths category = is_empty (whole category) || contains paths (whole category)

category_prefixes-offers :
    (paths categories : List Text)
    → ((x : Text) → contains (category_prefixes categories) x ≡ true → contains paths x ≡ true)
    → all (is_offered paths) categories ≡ true
unfolding category_prefixes contains all
category_prefixes-offers paths [] within = refl
category_prefixes-offers paths (category ∷ categories) within =
    let parts = split b'/' (normalize category) in
    let split_any = λ (x : Text).
      any-append (λ y. str_eq y x) (prefixes_from [] parts) (category_prefixes categories) in
    let rest =
      category_prefixes-offers paths categories (λ x m. within x (ground (arith, split_any x))) in
    elim (whole-listed category) [
      | inl e ↦ ground arith
      | inr e ↦
          let listed = within (whole category) (ground (arith, split_any (whole category))) in
          ground arith
    ]

contains-normalized :
    (categories : List Text) (x : Text)
    → contains (normalized_category_prefixes categories) x
      ≡ contains (category_prefixes categories) x
unfolding normalized_category_prefixes contains
contains-normalized categories x =
    any-sorted_unique (λ y. str_eq y x) (category_prefixes categories)

is_strict-normalized :
    (categories : List Text) → is_strict (normalized_category_prefixes categories) ≡ true
unfolding normalized_category_prefixes
is_strict-normalized categories = is_strict-sorted_unique (category_prefixes categories)

all-normalized :
    (p : Text → Bool) (categories : List Text)
    → all p (category_prefixes categories) ≡ true
    → all p (normalized_category_prefixes categories) ≡ true
unfolding normalized_category_prefixes
all-normalized p categories h = all-sorted_unique p (category_prefixes categories) ∙ h

-- The categories that the connector offers are in the order of their texts without repetitions. With
-- a category the one above it is among them, so that they are a tree, and so is every category that
-- is given and has a part that is not blank.
pub normalized_category_prefixes-closed :
    (categories : List Text)
    → let paths = normalized_category_prefixes categories in
      (is_strict paths ≡ true)
      × (all (has_parent paths) paths ≡ true)
      × (all (is_offered paths) categories ≡ true)
normalized_category_prefixes-closed categories =
    let paths = normalized_category_prefixes categories in
    let within = λ (x : Text) (m : contains (category_prefixes categories) x ≡ true).
      contains-normalized categories x ∙ m in
    (
      is_strict-normalized categories,
      all-normalized (has_parent paths) categories
          (category_prefixes-closed paths categories within),
      category_prefixes-offers paths categories within,
    )
