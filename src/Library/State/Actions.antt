-- ===== src/Library/State/Actions.antt =====
-- Methods on the library as functions of its state: `?` returns at once, with the changes so far.
use localref.Base.{◌≡◌, refl, Result, ok, err}

abbrev pub Action : Type 0 → Type 0 → Type 0
Action S A = S → Result A × S

module _ {S : Type 0} where
  abbrev pub continue : {A B : Type 0} → Result A × S → (A → Action S B) → Result B × S
  continue (err problem, s) rest = (err problem, s)
  continue (ok a, s) rest = rest a s

  infixl 5 ◌>>=◌
  abbrev pub ◌>>=◌ : {A B : Type 0} → Action S A → (A → Action S B) → Action S B
  (action >>= rest) s = continue (action s) rest

  -- A fallible computation that does not touch the state.
  abbrev pub lift : {A : Type 0} → Result A → Action S A
  lift r s = (r, s)

  abbrev pub return : {A : Type 0} → A → Action S A
  return a s = (ok a, s)

  -- A chain that succeeds went through its first part.
  pub through :
      {A B : Type 0} (r : Result A × S) (rest : A → Action S B) {b : B} {u : S}
      → continue r rest ≡ (ok b, u)
      → (a : A) × (t : S) × (r ≡ (ok a, t)) × (rest a t ≡ (ok b, u))
  through (ok a, t) rest h = (a, t, refl, h)
  through (err problem, t) rest h = cc
