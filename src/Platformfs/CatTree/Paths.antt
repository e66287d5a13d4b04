-- ===== src/Platformfs/CatTree/Paths.antt =====
-- Paths as lists of components.
use localref.Base.{
  ◌≡◌, ◌↔◌, refl, Text, List, [], ◌∷◌, map, Bool, true, false, ◌&&◌, str_eq, str_eq_refl,
  str_eq_iff, arith,
}

unfoldable pub path_eq : List Text → List Text → Bool
path_eq [] [] = true
path_eq (a ∷ s) (b ∷ t) = str_eq a b && path_eq s t
path_eq _ _ = false

-- A path and the directories above it.
unfoldable pub prefixes : List Text → List (List Text)
prefixes [] = []
prefixes (c ∷ cs) = (c ∷ []) ∷ map (◌∷◌ c) (prefixes cs)

pub path_eq→eq : (s t : List Text) → path_eq s t ≡ true → s ≡ t
unfolding path_eq
path_eq→eq [] [] h = refl
path_eq→eq (a ∷ s) (b ∷ t) h = ground (arith, str_eq_iff a b, path_eq→eq s t)
path_eq→eq [] (b ∷ t) h = cc
path_eq→eq (a ∷ s) [] h = cc

pub path_eq_refl : (s : List Text) → path_eq s s ≡ true
unfolding path_eq
path_eq_refl [] = refl
path_eq_refl (a ∷ s) = ground (arith, str_eq_refl a, path_eq_refl s)

pub path_eq_iff : (s t : List Text) → (path_eq s t ≡ true) ↔ (s ≡ t)
path_eq_iff s t = (path_eq→eq s t, λ e. ground (arith, path_eq_refl s))
