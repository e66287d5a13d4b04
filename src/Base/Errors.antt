-- ===== src/Base/Errors.antt =====
-- crates/core/src/error/mod.rs: the error type and `Result`, with the chains that `?` writes.
use Prim.Native.String.{String}
use mathlib.Core.Path.{◌≡◌, refl}
use mathlib.Core.Logic.{◌⊎◌, inl, inr}
use mathlib.Core.Bool.{Bool, true, false}
use mathlib.Core.Option.{Option, none, some}
use mathlib.Core.List.{◌++◌}
use localref.Base.Strings.{Text, text}

-- The messages of the JSON, TOML, platform and database libraries are opaque texts.
pub data LocalrefError : Type 0 where
  io : Text → Text → LocalrefError
  json toml_ser toml_de toml_edit : Text → LocalrefError
  missing_field : String → LocalrefError
  invalid_path_component : Text → String → LocalrefError
  unsupported : String → LocalrefError
  platform conflict rule storage : Text → LocalrefError

pub data Result {ℓ} (A : Type ℓ) : Type ℓ where
  err : LocalrefError → Result A
  ok : A → Result A

-- What `?` does: an error is returned at once.
infixl 5 ◌>>=◌
abbrev pub ◌>>=◌ {ℓ κ} : {A : Type ℓ} {C : Type κ} → Result A → (A → Result C) → Result C
err problem >>= rest = err problem
ok value >>= rest = rest value

abbrev pub is_ok {ℓ} : {A : Type ℓ} → Result A → Bool
is_ok (ok _) = true
is_ok (err _) = false

-- A chain that ends well has passed its first link.
pub reached {ℓ κ} :
    {A : Type ℓ} {C : Type κ} (first : Result A) (rest : A → Result C) {c : C}
    → (first >>= rest) ≡ ok c
    → (a : A) × (first ≡ ok a) × (rest a ≡ ok c)
reached (err problem) rest h = cc
reached (ok value) rest h = (value, refl, h)

pub Result-cases :
    {A : Type 0} (r : Result A)
    → ((a : A) × (r ≡ ok a)) ⊎ ((problem : LocalrefError) × (r ≡ err problem))
Result-cases (ok a) = inl (a, refl)
Result-cases (err problem) = inr (problem, refl)

-- `ok_or`
abbrev pub ok_or {ℓ} : {A : Type ℓ} → Option A → LocalrefError → Result A
ok_or (some a) problem = ok a
ok_or none problem = err problem

-- The `Display` texts that `thiserror` derives from the attributes.
pub display : LocalrefError → Text
display (io path source) = text "filesystem operation failed at " ++ path ++ text ": " ++ source
display (json m) = text "json error: " ++ m
display (toml_ser m) = text "toml serialization error: " ++ m
display (toml_de m) = text "toml deserialization error: " ++ m
display (toml_edit m) = text "toml edit error: " ++ m
display (missing_field name) = text "missing required connector field: " ++ text name
display (invalid_path_component component reason) =
    text "invalid path component `" ++ component ++ text "`: " ++ text reason
display (unsupported m) = text "unsupported operation: " ++ text m
display (platform m) = text "platform operation failed: " ++ m
display (conflict m) = text "conflict: " ++ m
display (rule m) = text "rule error: " ++ m
display (storage m) = text "storage error: " ++ m
