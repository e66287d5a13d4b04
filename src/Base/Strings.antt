-- ===== src/Base/Strings.antt =====
-- Rust's `String` as the list of its code points, with the methods of `str` that the program calls.
use Prim.Native.Nat.{ℕ, suc, ◌+◌, ◌-◌}
use Prim.Native.String.{String}
use Prim.Native.Char.{code}
use mathlib.Core.Path.{◌≡◌, refl}
use mathlib.Core.Logic.{◌↔◌}
use mathlib.Core.Bool.{Bool, true, false, ◌&&◌, ◌||◌}
use mathlib.Core.Option.{Option, none, some}
use mathlib.Core.List.{List, [], ◌∷◌, ◌++◌, map}
use native.Mathlib.Omega.{arith}
use localref.Base.Tests.{leb, ◌==◌, if◌then◌else◌}
use localref.Base.Lists.{any, length, drop_end, drop_start}

abbrev pub Text : Type 0
Text = List ℕ

-- A literal of the source.
unfoldable pub text : String → Text
text String.[] = []
text (String.◌∷◌ c s) = code c ∷ text s

unfoldable pub str_eq : Text → Text → Bool
str_eq [] [] = true
str_eq (a ∷ s) (b ∷ t) = (a == b) && str_eq s t
str_eq _ _ = false

pub str_eq→eq : (s t : Text) → str_eq s t ≡ true → s ≡ t
unfolding str_eq
str_eq→eq [] [] h = refl
str_eq→eq (a ∷ s) (b ∷ t) h = ground (arith, str_eq→eq s t)
str_eq→eq [] (b ∷ t) h = cc
str_eq→eq (a ∷ s) [] h = cc

pub str_eq_refl : (s : Text) → str_eq s s ≡ true
unfolding str_eq
str_eq_refl [] = refl
str_eq_refl (a ∷ s) = ground (arith, str_eq_refl s)

pub str_eq_iff : (s t : Text) → (str_eq s t ≡ true) ↔ (s ≡ t)
str_eq_iff s t = (str_eq→eq s t, λ e. ground (arith, str_eq_refl s))

-- `contains` on a list of strings
unfoldable pub contains : List Text → Text → Bool
unfolding any
contains xs t = any (λ x. str_eq x t) xs

-- `char::is_whitespace`: the code points with the Unicode property White_Space.
unfoldable pub is_whitespace : ℕ → Bool
is_whitespace c =
    (leb 9 c && leb c 13)
    || c == 32
    || c == 0x85
    || c == 0xA0
    || c == 0x1680
    || (leb 0x2000 c && leb c 0x200A)
    || c == 0x2028
    || c == 0x2029
    || c == 0x202F
    || c == 0x205F
    || c == 0x3000

unfoldable pub trim : Text → Text
unfolding drop_end drop_start is_whitespace
trim s = drop_end is_whitespace (drop_start is_whitespace s)

-- `trim_matches(c)`
unfoldable pub trim_matches : ℕ → Text → Text
unfolding drop_end drop_start
trim_matches c s = drop_end (λ x. x == c) (drop_start (λ x. x == c) s)

-- `replace(a, b)` for two characters
unfoldable pub replace_char : ℕ → ℕ → Text → Text
replace_char a b = map (λ c. if c == a then b else c)

abbrev pub extend_first : ℕ → List Text → List Text
extend_first c [] = (c ∷ []) ∷ []
extend_first c (part ∷ parts) = (c ∷ part) ∷ parts

-- `split(c)`
unfoldable pub split : ℕ → Text → List Text
split sep [] = [] ∷ []
split sep (c ∷ s) = let rest = split sep s in if c == sep then [] ∷ rest else extend_first c rest

unfoldable pub starts_with : Text → Text → Bool
starts_with [] s = true
starts_with (p ∷ ps) [] = false
starts_with (p ∷ ps) (c ∷ s) = (p == c) && starts_with ps s

-- `split(pattern)`: `skip` counts what is left of a separator that was found.
unfoldable pub split_from : Text → ℕ → Text → List Text
unfolding starts_with
split_from sep skip [] = [] ∷ []
split_from sep (suc skip) (c ∷ s) = split_from sep skip s
split_from sep ℕ.zero (c ∷ s) =
    let found = starts_with sep (c ∷ s) in
    let rest = split_from sep (if found then length sep - 1 else 0) s in
    if found then [] ∷ rest else extend_first c rest

unfoldable pub split_str : Text → Text → List Text
unfolding split_from
split_str sep s = split_from sep 0 s

-- `split_once(c)`
unfoldable pub split_once : ℕ → Text → Option (Text × Text)
split_once sep [] = none
split_once sep (c ∷ s) =
    let rest = split_once sep s in
    if c == sep then some ([], s) else elim rest [ none ↦ none | some (a, b) ↦ some (c ∷ a, b) ]

-- `rsplit_once(c)`
unfoldable pub rsplit_once : ℕ → Text → Option (Text × Text)
rsplit_once sep [] = none
rsplit_once sep (c ∷ s) = elim (rsplit_once sep s) [
  | some (a, b) ↦ some (c ∷ a, b)
  | none ↦ (if c == sep then some ([], s) else none)
]

unfoldable pub strip_prefix : Text → Text → Option Text
strip_prefix [] s = some s
strip_prefix (p ∷ ps) [] = none
strip_prefix (p ∷ ps) (c ∷ s) = let rest = strip_prefix ps s in if p == c then rest else none

pub strip_prefix-some : (p s r : Text) → strip_prefix p s ≡ some r → p ++ r ≡ s
unfolding strip_prefix
strip_prefix-some [] s r h = cc
strip_prefix-some (a ∷ p) [] r h = cc
strip_prefix-some (a ∷ p) (c ∷ s) r h = ground (arith, strip_prefix-some p s r)

-- `haystack.contains(needle)`: `contains_str needle haystack`
unfoldable pub contains_str : Text → Text → Bool
unfolding starts_with
contains_str needle [] = starts_with needle []
contains_str needle (c ∷ s) = starts_with needle (c ∷ s) || contains_str needle s

abbrev pub lower : ℕ → ℕ
lower c = if leb 65 c && leb c 90 then c + 32 else c

abbrev pub upper : ℕ → ℕ
upper c = if leb 97 c && leb c 122 then c - 32 else c

unfoldable pub to_ascii_lowercase : Text → Text
to_ascii_lowercase = map lower

unfoldable pub to_ascii_uppercase : Text → Text
to_ascii_uppercase = map upper

unfoldable pub is_ascii_alphanumeric : ℕ → Bool
is_ascii_alphanumeric c =
    (leb 48 c && leb c 57) || (leb 65 c && leb c 90) || (leb 97 c && leb c 122)
