-- ===== src/Csc/Targets/Closed.antt =====
-- `normalized_category_prefixes` of crates/csc/src/lib.rs gives a tree.
use localref.Base.{
  ℕ, ◌≡◌, refl, Text, List, [], ◌∷◌, ◌++◌, Bool, true, not, ◌==◌, ◌⊎◌, inl, inr, Option, none, some,
  is_empty, all, any, any-append, all-append, Bool-cases, arith, contains, str_eq, str_eq_refl,
  trim, drop_start, all-drop_end, split, extend_first, rsplit_once, sorted_unique,
  any-sorted_unique, is_whitespace,
}
use localref.Types.CategoryPath.{normalize}
use localref.Csc.Targets.{extended, prefixes_from, category_prefixes}

-- A part of a path has no slash.
abbrev pub is_no_slash : ℕ → Bool
is_no_slash c = not (c == b'/')

all-drop_start : (p q : ℕ → Bool) (s : Text) → all p s ≡ true → all p (drop_start q s) ≡ true
unfolding all drop_start
all-drop_start p q [] h = refl
all-drop_start p q (c ∷ s) h = ground (arith, all-drop_start p q s)

pub all-trim : (p : ℕ → Bool) (s : Text) → all p s ≡ true → all p (trim s) ≡ true
unfolding trim
all-trim p s h =
    all-drop_end p is_whitespace (drop_start is_whitespace s) (all-drop_start p is_whitespace s h)

extend_first-parts :
    (c : ℕ) (parts : List Text)
    → is_no_slash c ≡ true
    → all (all is_no_slash) parts ≡ true
    → all (all is_no_slash) (extend_first c parts) ≡ true
unfolding all
extend_first-parts c [] h k = ground arith
extend_first-parts c (part ∷ parts) h k = ground arith

split-parts : (s : Text) → all (all is_no_slash) (split b'/' s) ≡ true
unfolding split all
split-parts [] = refl
split-parts (c ∷ s) = elim (Bool-cases (c == b'/')) [
  | inl e ↦ ground (arith, split-parts s)
  | inr e ↦ ground (arith, split-parts s, extend_first-parts c (split b'/' s))
]

rsplit_once-none : (s : Text) → all is_no_slash s ≡ true → rsplit_once b'/' s ≡ none
unfolding rsplit_once all
rsplit_once-none [] h = refl
rsplit_once-none (c ∷ s) h = ground (arith, rsplit_once-none s)

rsplit_once-append :
    (prefix part : Text)
    → all is_no_slash part ≡ true
    → rsplit_once b'/' (prefix ++ b'/' ∷ part) ≡ some (prefix, part)
unfolding rsplit_once
rsplit_once-append [] part h = ground (arith, rsplit_once-none part h)
rsplit_once-append (c ∷ prefix) part h = ground (arith, rsplit_once-append prefix part h)

-- The path above, if there is one, is in the list.
abbrev pub holds_parent : List Text → Option (Text × Text) → Bool
holds_parent paths none = true
holds_parent paths (some (above, _)) = contains paths above

abbrev pub has_parent : List Text → Text → Bool
has_parent paths path = holds_parent paths (rsplit_once b'/' path)

has_parent-extended :
    (paths : List Text) (prefix part : Text)
    → (is_empty prefix ≡ true) ⊎ (contains paths prefix ≡ true)
    → all is_no_slash part ≡ true
    → has_parent paths (extended prefix part) ≡ true
has_parent-extended paths [] part h k = ground (arith, rsplit_once-none part k)
has_parent-extended paths (c ∷ prefix) part h k =
    ground (arith, rsplit_once-append (c ∷ prefix) part k)

prefixes_from-closed :
    (paths : List Text) (prefix : Text) (parts : List Text)
    → (is_empty prefix ≡ true) ⊎ (contains paths prefix ≡ true)
    → all (all is_no_slash) parts ≡ true
    → ((x : Text) → contains (prefixes_from prefix parts) x ≡ true → contains paths x ≡ true)
    → all (has_parent paths) (prefixes_from prefix parts) ≡ true
unfolding prefixes_from all contains any
prefixes_from-closed paths prefix [] start parts within = refl
prefixes_from-closed paths prefix (part ∷ parts) start slashless within =
    let longer = extended prefix (trim part) in
    elim (Bool-cases (is_empty (trim part))) [
      | inl e ↦ ground (
        arith,
        prefixes_from-closed paths prefix parts start (ground arith)
            (λ x m. within x (ground arith)),
      )
      | inr e ↦
          let listed : contains paths longer ≡ true =
            within longer (ground (arith, str_eq_refl longer)) in
          let rest =
            prefixes_from-closed paths longer parts (inr listed) (ground arith)
              (λ x m. within x (ground arith)) in
          ground (
            arith,
            has_parent-extended paths prefix (trim part) start
                (all-trim is_no_slash part (ground arith)),
          )
    ]

pub category_prefixes-closed :
    (paths : List Text) (categories : List Text)
    → ((x : Text) → contains (category_prefixes categories) x ≡ true → contains paths x ≡ true)
    → all (has_parent paths) (category_prefixes categories) ≡ true
unfolding category_prefixes all contains
category_prefixes-closed paths [] within = refl
category_prefixes-closed paths (category ∷ categories) within =
    let parts = split b'/' (normalize category) in
    ground (
      arith,
      all-append (has_parent paths) (prefixes_from [] parts) (category_prefixes categories),
      prefixes_from-closed paths [] parts (inl refl) (split-parts (normalize category)) (λ x m.
          within x (
            ground (
              arith,
              any-append (λ y. str_eq y x) (prefixes_from [] parts) (category_prefixes categories),
            ))),
      category_prefixes-closed paths categories (λ x m. within x (
          ground (
            arith,
            any-append (λ y. str_eq y x) (prefixes_from [] parts) (category_prefixes categories),
          ))),
    )

all-any : (p : Text → Bool) (xs : List Text) → all p xs ≡ not (any (λ x. not (p x)) xs)
unfolding all any
all-any p [] = refl
all-any p (x ∷ xs) = ground (arith, all-any p xs)

pub all-sorted_unique : (p : Text → Bool) (xs : List Text) → all p (sorted_unique xs) ≡ all p xs
all-sorted_unique p xs =
    ground
      (arith, all-any p xs, all-any p (sorted_unique xs), any-sorted_unique (λ x. not (p x)) xs)
