-- ===== src/Platformfs/Unique/Free.antt =====
-- The loops of `unique_all_item_path` and `create_unique_item_dir` of
-- crates/core/src/platformfs/mod.rs end with a name that is not in `All/`.
use localref.Base.{
  ℕ, suc, ◌+◌, ◌≤◌, ◌<◌, ◌^◌, ◌≡◌, refl, ◌∙◌, ap, subst, Text, text, List, [], ◌∷◌, ◌++◌, true,
  false, not, ◌≢◌, Option, none, some, if◌then◌else◌, contains, any, all, length, retain, str_eq,
  str_eq_iff, length-append, decimal, read_digits, read_digits-last, read_digits-decimal, ok,
  succ32-eq, arith, inl, inr, Bool-cases,
}
use localref.Platformfs.Component.{sanitize_ntfs_component}
use localref.Platformfs.Unique.{suffixed, unused_name, unique_all_item_path, create_unique_item_dir}

-- The names in the order in which they are tried.
unfoldable pub nth_name : Text → ℕ → Text
nth_name base ℕ.zero = base
nth_name base (suc n) = suffixed base (n + 2)

-- The first `n` of them from number `i` on.
unfoldable pub tried_names : Text → ℕ → ℕ → List Text
unfolding nth_name
tried_names base i ℕ.zero = []
tried_names base i (suc n) = nth_name base i ∷ tried_names base (suc i) n

length-suffixed_eq :
    (base : Text) (n : ℕ)
    → length (suffixed base n) ≡ length base + suc (suc (length (decimal n ++ text ")")))
unfolding suffixed text
length-suffixed_eq base n = length-append base (text " (" ++ (decimal n ++ text ")"))

length-suffixed : (base : Text) (n : ℕ) → length base < length (suffixed base n)
length-suffixed base n = omega (arith, length-suffixed_eq base n)

append_cancel : (xs ys zs : Text) → xs ++ ys ≡ xs ++ zs → ys ≡ zs
append_cancel [] ys zs h = h
append_cancel (x ∷ xs) ys zs h = ground (arith, append_cancel xs ys zs)

decimal_injective : (m n : ℕ) → decimal m ++ text ")" ≡ decimal n ++ text ")" → m ≡ n
unfolding text
decimal_injective m n h = omega (
  arith,
  ap (read_digits 0) h,
  read_digits-last 0 b')' (decimal m),
  read_digits-last 0 b')' (decimal n),
  read_digits-decimal m,
  read_digits-decimal n,
)

suffixed_injective : (base : Text) (m n : ℕ) → suffixed base m ≡ suffixed base n → m ≡ n
unfolding suffixed text
suffixed_injective base m n h = decimal_injective m n (
    append_cancel (text " (") (decimal m ++ text ")") (decimal n ++ text ")") (
      append_cancel base (text " (" ++ (decimal m ++ text ")"))
        (text " (" ++ (decimal n ++ text ")")) h))

nth_name_injective : (base : Text) (m n : ℕ) → nth_name base m ≡ nth_name base n → m ≡ n
unfolding nth_name
nth_name_injective base ℕ.zero ℕ.zero h = refl
nth_name_injective base ℕ.zero (suc n) h = omega (arith, ap length h, length-suffixed base (n + 2))
nth_name_injective base (suc m) ℕ.zero h = omega (arith, ap length h, length-suffixed base (m + 2))
nth_name_injective base (suc m) (suc n) h = omega (arith, suffixed_injective base (m + 2) (n + 2) h)

-- The list without a name.
without : Text → List Text → List Text
without name = retain (λ x. not (str_eq x name))

contains-without :
    (name x : Text) (xs : List Text) → x ≢ name → contains (without name xs) x ≡ contains xs x
unfolding without contains any retain
contains-without name x [] h = refl
contains-without name x (y ∷ ys) h =
    ground (arith, contains-without name x ys h, str_eq_iff y x, str_eq_iff y name)

length-without-le : (name : Text) (xs : List Text) → length (without name xs) ≤ length xs
unfolding without retain
length-without-le name [] = omega arith
length-without-le name (y ∷ ys) = ground (arith, length-without-le name ys)

length-without-lt :
    (name : Text) (xs : List Text) → contains xs name ≡ true → length (without name xs) < length xs
unfolding without contains any retain
length-without-lt name [] h = cc
length-without-lt name (y ∷ ys) h =
    ground (arith, length-without-le name ys, length-without-lt name ys)

-- The number of the first name from `i` on that is free.
first_free : Text → List Text → ℕ → ℕ → Option ℕ
first_free base existing ℕ.zero i = none
first_free base existing (suc fuel) i =
    let rest = first_free base existing fuel (suc i) in
    if contains existing (nth_name base i) then rest else some i

first_free-without :
    (base : Text) (existing : List Text) (fuel i j : ℕ)
    → i < j
    → first_free base (without (nth_name base i) existing) fuel j ≡ first_free base existing fuel j
unfolding first_free
first_free-without base existing ℕ.zero i j h = refl
first_free-without base existing (suc fuel) i j h = ground (
  arith,
  first_free-without base existing fuel i (suc j) (omega arith),
  contains-without (nth_name base i) (nth_name base j) existing
      (λ e. omega (arith, nth_name_injective base j i e)),
)

first_free-some :
    (base : Text) (existing : List Text) (fuel i : ℕ)
    → length existing < fuel
    → (n : ℕ) × (first_free base existing fuel i ≡ some n)
unfolding first_free
first_free-some base existing ℕ.zero i h = grind arith
first_free-some base existing (suc fuel) i h =
    elim (Bool-cases (contains existing (nth_name base i))) [
      | inr e ↦ (i, ground arith)
      | inl e ↦
          let rest = without (nth_name base i) existing in
          let (n, found) =
            first_free-some base rest fuel (suc i)
              (omega (arith, length-without-lt (nth_name base i) existing e)) in
          (n, ground (arith, first_free-without base existing fuel i (suc i) (omega arith)))
    ]

first_free-found :
    (base : Text) (existing : List Text) (fuel i n : ℕ)
    → first_free base existing fuel i ≡ some n
    → (k : ℕ) × (n ≡ i + k)
      × (k < fuel)
      × (contains existing (nth_name base n) ≡ false)
      × (all (contains existing) (tried_names base i k) ≡ true)
unfolding first_free tried_names all
first_free-found base existing ℕ.zero i n h = cc
first_free-found base existing (suc fuel) i n h =
    elim (Bool-cases (contains existing (nth_name base i))) [
      | inr e ↦ (0, ground arith, omega arith, ground arith, refl)
      | inl e ↦
          let (k, at, within, free, tried) =
            first_free-found base existing fuel (suc i) n (ground arith) in
          (suc k, omega (arith, at), omega (arith, within), free, ground (arith, tried))
    ]

abbrev named : Text → Option ℕ → Option Text
named base none = none
named base (some n) = some (nth_name base n)

unused_name-first_free :
    (base : Text) (existing : List Text) (fuel i : ℕ)
    → i + fuel + 2 < 2 ^ 32
    → unused_name existing base fuel (nth_name base i) (i + 2)
      ≡ named base (first_free base existing fuel i)
unfolding unused_name first_free nth_name
unused_name-first_free base existing ℕ.zero i h = refl
unused_name-first_free base existing (suc fuel) i h = ground (
  arith,
  unused_name-first_free base existing fuel (suc i) (omega (arith, h)),
  succ32-eq (i + 2) (omega (arith, h)),
)

unused_name-some :
    (base : Text) (existing : List Text)
    → length existing + 3 < 2 ^ 32
    → (n : ℕ) × (n ≤ length existing)
      × (unused_name existing base (suc (length existing)) base 2 ≡ some (nth_name base n))
      × (contains existing (nth_name base n) ≡ false)
      × (all (contains existing) (tried_names base 0 n) ≡ true)
unfolding nth_name
unused_name-some base existing h =
    let (n, found) = first_free-some base existing (suc (length existing)) 0 (omega arith) in
    let (k, at, within, free, tried) =
      first_free-found base existing (suc (length existing)) 0 n found in
    (
      n,
      omega (arith, at, within),
      unused_name-first_free base existing (suc (length existing)) 0 (omega (arith, h))
          ∙ ap (named base) found,
      free,
      subst (λ m. all (contains existing) (tried_names base 0 m) ≡ true) (omega (arith, at)) tried,
    )

-- When the name of an entry is sanitized and `All/` has fewer than 2³² - 3 names, one turn of the
-- loops more than there are names is enough: both end with the first of `base`, `base (2)`,
-- `base (3)` and so on that is not in `All/`, where all before it are, and the second one adds it.
pub unique_all_item_path-ends :
    (entry_name base : Text) (existing : List Text)
    → sanitize_ntfs_component entry_name ≡ ok base
    → length existing + 3 < 2 ^ 32
    → let fuel = suc (length existing) in
      (n : ℕ) × (n ≤ length existing)
      × (unique_all_item_path fuel entry_name existing ≡ ok (some (nth_name base n)))
      × (create_unique_item_dir fuel entry_name existing
          ≡ ok (some (nth_name base n, nth_name base n ∷ existing)))
      × (contains existing (nth_name base n) ≡ false)
      × (all (contains existing) (tried_names base 0 n) ≡ true)
unfolding unique_all_item_path create_unique_item_dir
unique_all_item_path-ends entry_name base existing h k =
    let (n, within, found, free, tried) = unused_name-some base existing k in
    (n, within, ground arith, ground arith, free, tried)
