-- ===== src/Base/Sorting.antt =====
-- The order of Rust's strings, `sort_by` on a key and `sort`, which are stable, and `dedup`.
use mathlib.Core.Path.{◌≡◌, refl, ◌∙◌}
use mathlib.Core.Logic.{inl, inr}
use mathlib.Core.Bool.{Bool, true, false, ◌&&◌, ◌||◌, not}
use mathlib.Core.List.{List, [], ◌∷◌, map}
use native.Mathlib.Omega.{arith}
use localref.Base.Tests.{ltb, if◌then◌else◌, Bool-cases}
use localref.Base.Lists.{any, all}
use localref.Base.Strings.{Text, str_eq, str_eq_iff}

-- The order of the bytes of two texts is that of their code points.
unfoldable pub text_leb : Text → Text → Bool
text_leb [] t = true
text_leb (a ∷ s) [] = false
text_leb (a ∷ s) (b ∷ t) =
    let rest = text_leb s t in if ltb a b then true else if ltb b a then false else rest

pub text_leb_refl : (s : Text) → text_leb s s ≡ true
unfolding text_leb
text_leb_refl [] = refl
text_leb_refl (a ∷ s) = ground (arith, text_leb_refl s)

pub text_leb_total : (s t : Text) → text_leb s t ≡ false → text_leb t s ≡ true
unfolding text_leb
text_leb_total [] t h = cc
text_leb_total (a ∷ s) [] h = refl
text_leb_total (a ∷ s) (b ∷ t) h = ground (arith, text_leb_total s t)

pub text_leb_trans :
    (s t u : Text) → text_leb s t ≡ true → text_leb t u ≡ true → text_leb s u ≡ true
unfolding text_leb
text_leb_trans [] t u h k = refl
text_leb_trans (a ∷ s) [] u h k = cc
text_leb_trans (a ∷ s) (b ∷ t) [] h k = cc
text_leb_trans (a ∷ s) (b ∷ t) (c ∷ u) h k = ground (arith, text_leb_trans s t u)

pub text_leb_antisymm : (s t : Text) → text_leb s t ≡ true → text_leb t s ≡ true → str_eq s t ≡ true
unfolding text_leb str_eq
text_leb_antisymm [] [] h k = refl
text_leb_antisymm [] (b ∷ t) h k = cc
text_leb_antisymm (a ∷ s) [] h k = cc
text_leb_antisymm (a ∷ s) (b ∷ t) h k = ground (arith, text_leb_antisymm s t)

module _ {ℓ} {A : Type ℓ} (key : A → Text) where
  unfoldable pub insert_by : A → List A → List A
  insert_by x [] = x ∷ []
  insert_by x (y ∷ ys) =
      let later = y ∷ insert_by x ys in if text_leb (key x) (key y) then x ∷ y ∷ ys else later

  unfoldable pub sort_by : List A → List A
  unfolding insert_by
  sort_by [] = []
  sort_by (x ∷ xs) = insert_by x (sort_by xs)

  -- No key is above a later one.
  unfoldable pub is_sorted : List A → Bool
  unfolding all
  is_sorted [] = true
  is_sorted (x ∷ xs) = all (λ y. text_leb (key x) (key y)) xs && is_sorted xs

  all-le_trans :
      (s t : Text) (xs : List A)
      → text_leb s t ≡ true
      → all (λ y. text_leb t (key y)) xs ≡ true
      → all (λ y. text_leb s (key y)) xs ≡ true
  unfolding all
  all-le_trans s t [] h k = refl
  all-le_trans s t (x ∷ xs) h k = ground (arith, all-le_trans s t xs, text_leb_trans s t (key x))

  all-insert_by : (p : A → Bool) (x : A) (xs : List A) → all p (insert_by x xs) ≡ (p x && all p xs)
  unfolding all insert_by
  all-insert_by p x [] = refl
  all-insert_by p x (y ∷ ys) = ground (arith, all-insert_by p x ys)

  is_sorted-insert_by :
      (x : A) (xs : List A) → is_sorted xs ≡ true → is_sorted (insert_by x xs) ≡ true
  unfolding is_sorted insert_by
  is_sorted-insert_by x [] h = refl
  is_sorted-insert_by x (y ∷ ys) h = ground (
    arith,
    is_sorted-insert_by x ys,
    all-le_trans (key x) (key y) ys,
    text_leb_total (key x) (key y),
    all-insert_by (λ z. text_leb (key y) (key z)) x ys,
  )

  pub is_sorted-sort_by : (xs : List A) → is_sorted (sort_by xs) ≡ true
  unfolding sort_by
  is_sorted-sort_by [] = unfold is_sorted in refl
  is_sorted-sort_by (x ∷ xs) = is_sorted-insert_by x (sort_by xs) (is_sorted-sort_by xs)

  any-insert_by : (p : A → Bool) (x : A) (xs : List A) → any p (insert_by x xs) ≡ (p x || any p xs)
  unfolding any insert_by
  any-insert_by p x [] = refl
  any-insert_by p x (y ∷ ys) = ground (arith, any-insert_by p x ys)

  pub any-sort_by : (p : A → Bool) (xs : List A) → any p (sort_by xs) ≡ any p xs
  unfolding any sort_by
  any-sort_by p [] = refl
  any-sort_by p (x ∷ xs) = any-insert_by p x (sort_by xs) ∙ ground (arith, any-sort_by p xs)

abbrev pub sort : List Text → List Text
unfolding sort_by
sort = sort_by (λ s. s)

-- `dedup`
unfoldable pub dedup : List Text → List Text
dedup [] = []
dedup (x ∷ []) = x ∷ []
dedup (x ∷ y ∷ ys) = let rest = dedup (y ∷ ys) in if str_eq x y then rest else x ∷ rest

-- Each text is below the later ones.
unfoldable pub is_strict : List Text → Bool
unfolding all
is_strict [] = true
is_strict (x ∷ xs) = all (λ y. not (text_leb y x)) xs && is_strict xs

any-dedup : (p : Text → Bool) (xs : List Text) → any p (dedup xs) ≡ any p xs
unfolding any dedup
any-dedup p [] = refl
any-dedup p (x ∷ []) = refl
any-dedup p (x ∷ y ∷ ys) = ground (arith, any-dedup p (y ∷ ys), str_eq_iff x y)

all-dedup : (p : Text → Bool) (xs : List Text) → all p xs ≡ true → all p (dedup xs) ≡ true
unfolding all dedup
all-dedup p [] h = refl
all-dedup p (x ∷ []) h = h
all-dedup p (x ∷ y ∷ ys) h = ground (arith, all-dedup p (y ∷ ys))

all-lt :
    (x y : Text) (zs : List Text)
    → text_leb x y ≡ true
    → str_eq x y ≡ false
    → all (λ z. text_leb y z) zs ≡ true
    → all (λ z. not (text_leb z x)) zs ≡ true
unfolding all
all-lt x y [] le ne h = refl
all-lt x y (z ∷ zs) le ne h =
    ground (arith, all-lt x y zs, text_leb_trans y z x, text_leb_antisymm x y)

all-above :
    (x y : Text) (ys : List Text)
    → str_eq x y ≡ false
    → is_sorted (λ s. s) (x ∷ y ∷ ys) ≡ true
    → all (λ z. not (text_leb z x)) (y ∷ ys) ≡ true
unfolding is_sorted all
all-above x y ys other h =
    all-lt x y (y ∷ ys) (ground arith) other (ground (arith, text_leb_refl y))

is_strict-dedup : (xs : List Text) → is_sorted (λ s. s) xs ≡ true → is_strict (dedup xs) ≡ true
unfolding is_sorted dedup is_strict
is_strict-dedup [] h = refl
is_strict-dedup (x ∷ []) h = ground (arith, h)
is_strict-dedup (x ∷ y ∷ ys) h = elim (Bool-cases (str_eq x y)) [
  | inl same ↦ rw same (is_strict-dedup (y ∷ ys) (ground arith))
  | inr other ↦
      let above : all (λ z. not (text_leb z x)) (dedup (y ∷ ys)) ≡ true =
        all-dedup (λ z. not (text_leb z x)) (y ∷ ys) (all-above x y ys other h) in
      rw other (rw (above, is_strict-dedup (y ∷ ys) (ground arith)) refl)
]

-- Sorted and without duplicates, as the code leaves its lists of texts.
unfoldable pub sorted_unique : List Text → List Text
unfolding dedup sort_by
sorted_unique xs = dedup (sort xs)

pub is_strict-sorted_unique : (xs : List Text) → is_strict (sorted_unique xs) ≡ true
unfolding sorted_unique
is_strict-sorted_unique xs = is_strict-dedup (sort xs) (is_sorted-sort_by (λ s. s) xs)

pub any-sorted_unique : (p : Text → Bool) (xs : List Text) → any p (sorted_unique xs) ≡ any p xs
unfolding sorted_unique
any-sorted_unique p xs = any-dedup p (sort xs) ∙ any-sort_by (λ s. s) p xs

module _ {ℓ} {A : Type ℓ} (key : A → Text) where
  -- No two have one key.
  unfoldable pub is_distinct : List A → Bool
  unfolding any
  is_distinct [] = true
  is_distinct (x ∷ xs) = not (any (λ y. str_eq (key y) (key x)) xs) && is_distinct xs

  is_distinct-insert_by :
      (x : A) (xs : List A)
      → any (λ y. str_eq (key y) (key x)) xs ≡ false
      → is_distinct xs ≡ true
      → is_distinct (insert_by key x xs) ≡ true
  unfolding is_distinct insert_by
  is_distinct-insert_by x [] new h = refl
  is_distinct-insert_by x (y ∷ ys) new h = ground (
    arith,
    is_distinct-insert_by x ys,
    any-insert_by key (λ z. str_eq (key z) (key y)) x ys,
    str_eq_iff (key x) (key y),
    str_eq_iff (key y) (key x),
  )

  is_distinct-sort_by : (xs : List A) → is_distinct xs ≡ true → is_distinct (sort_by key xs) ≡ true
  unfolding sort_by is_distinct
  is_distinct-sort_by [] h = refl
  is_distinct-sort_by (x ∷ xs) h =
      is_distinct-insert_by x (sort_by key xs)
        (ground (arith, any-sort_by key (λ y. str_eq (key y) (key x)) xs))
        (is_distinct-sort_by xs (ground arith))

  all-lt_keys :
      (x : A) (xs : List A)
      → all (λ y. text_leb (key x) (key y)) xs ≡ true
      → any (λ y. str_eq (key y) (key x)) xs ≡ false
      → all (λ t. not (text_leb t (key x))) (map key xs) ≡ true
  unfolding all any
  all-lt_keys x [] h new = refl
  all-lt_keys x (y ∷ ys) h new = ground (arith, all-lt_keys x ys, text_leb_antisymm (key y) (key x))

  is_strict-map :
      (xs : List A)
      → is_sorted key xs ≡ true
      → is_distinct xs ≡ true
      → is_strict (map key xs) ≡ true
  unfolding is_sorted is_distinct is_strict
  is_strict-map [] h new = refl
  is_strict-map (x ∷ xs) h new = ground (arith, is_strict-map xs, all-lt_keys x xs)

  -- Distinct keys stand in their order after the sort.
  pub is_strict-sort_by :
      (xs : List A) → is_distinct xs ≡ true → is_strict (map key (sort_by key xs)) ≡ true
  is_strict-sort_by xs h =
      is_strict-map (sort_by key xs) (is_sorted-sort_by key xs) (is_distinct-sort_by xs h)
