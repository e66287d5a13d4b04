-- ===== src/Base/Lists.antt =====
-- The list operations of Rust's slices and iterators, over Boolean tests and the native numbers.
use Prim.Native.Nat.{ℕ, suc, ◌+◌, ◌≤◌}
use mathlib.Core.Path.{◌≡◌, refl}
use mathlib.Core.Bool.{Bool, true, false, ◌&&◌, ◌||◌}
use mathlib.Core.Option.{Option, none, some}
use mathlib.Core.List.{List, [], ◌∷◌, ◌++◌}
use native.Mathlib.Omega.{arith}
use localref.Base.Tests.{if◌then◌else◌}

module _ {ℓ} {A : Type ℓ} where
  abbrev pub length : List A → ℕ
  length [] = 0
  length (x ∷ xs) = suc (length xs)

  abbrev pub is_empty : List A → Bool
  is_empty [] = true
  is_empty (x ∷ xs) = false

  -- `iter().any`
  unfoldable pub any : (A → Bool) → List A → Bool
  any p [] = false
  any p (x ∷ xs) = p x || any p xs

  -- `iter().all`
  unfoldable pub all : (A → Bool) → List A → Bool
  all p [] = true
  all p (x ∷ xs) = p x && all p xs

  -- `retain`, and `iter().filter` into a list
  unfoldable pub retain : (A → Bool) → List A → List A
  retain p [] = []
  retain p (x ∷ xs) = let rest = retain p xs in if p x then x ∷ rest else rest

  -- `iter().find`
  unfoldable pub find : (A → Bool) → List A → Option A
  find p [] = none
  find p (x ∷ xs) = let rest = find p xs in if p x then some x else rest

  -- The first `n` and what follows them.
  unfoldable pub take : ℕ → List A → List A
  take _ [] = []
  take ℕ.zero (x ∷ xs) = []
  take (suc n) (x ∷ xs) = x ∷ take n xs

  -- `trim_end_matches`: the longest tail of which every element passes is cut.
  unfoldable pub drop_end : (A → Bool) → List A → List A
  drop_end p [] = []
  drop_end p (x ∷ xs) = let rest = drop_end p xs in if p x && is_empty rest then [] else x ∷ rest

  unfoldable pub drop_start : (A → Bool) → List A → List A
  drop_start p [] = []
  drop_start p (x ∷ xs) = let rest = drop_start p xs in if p x then rest else x ∷ xs

  -- A test that every element passes.
  pub all-append : (p : A → Bool) (xs ys : List A) → all p (xs ++ ys) ≡ (all p xs && all p ys)
  unfolding all
  all-append p [] ys = refl
  all-append p (x ∷ xs) ys = ground (arith, all-append p xs ys)

  pub all-take : (p : A → Bool) (n : ℕ) (xs : List A) → all p xs ≡ true → all p (take n xs) ≡ true
  unfolding all take
  all-take p n [] h = refl
  all-take p ℕ.zero (x ∷ xs) h = refl
  all-take p (suc n) (x ∷ xs) h = ground (arith, all-take p n xs)

  pub all-drop_end : (p q : A → Bool) (xs : List A) → all p xs ≡ true → all p (drop_end q xs) ≡ true
  unfolding all drop_end
  all-drop_end p q [] h = refl
  all-drop_end p q (x ∷ xs) h = ground (arith, all-drop_end p q xs)

  pub length-append : (xs ys : List A) → length (xs ++ ys) ≡ length xs + length ys
  length-append [] ys = omega arith
  length-append (x ∷ xs) ys = omega (arith, length-append xs ys)

  pub any-append : (p : A → Bool) (xs ys : List A) → any p (xs ++ ys) ≡ (any p xs || any p ys)
  unfolding any
  any-append p [] ys = refl
  any-append p (x ∷ xs) ys = ground (arith, any-append p xs ys)

  pub retain-append :
      (p : A → Bool) (xs ys : List A) → retain p (xs ++ ys) ≡ retain p xs ++ retain p ys
  unfolding retain
  retain-append p [] ys = refl
  retain-append p (x ∷ xs) ys = ground (arith, retain-append p xs ys)

  pub length-take-le : (n : ℕ) (xs : List A) → length (take n xs) ≤ n
  unfolding take
  length-take-le n [] = omega arith
  length-take-le ℕ.zero (x ∷ xs) = omega arith
  length-take-le (suc n) (x ∷ xs) = omega (arith, length-take-le n xs)

  pub length-drop_end-le : (p : A → Bool) (xs : List A) → length (drop_end p xs) ≤ length xs
  unfolding drop_end
  length-drop_end-le p [] = omega arith
  length-drop_end-le p (x ∷ xs) = ground (arith, length-drop_end-le p xs)
