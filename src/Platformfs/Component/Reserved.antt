-- ===== src/Platformfs/Component/Reserved.antt =====
-- What `sanitize_ntfs_component` does with the device names of Windows.
use localref.Base.{
  ℕ, ◌<◌, ◌≡◌, refl, ap, ◌∙◌, Text, text, List, [], ◌∷◌, ◌++◌, Bool, true, false, not, ◌||◌, ◌==◌,
  leb, length, is_empty, drop_end, any, all, contains, str_eq, split, extend_first, Bool-cases, inl,
  inr, to_ascii_uppercase, length-append, false≢true, subst, ok, arith, trim, str_eq_iff,
}
use localref.Platformfs.Component.{
  is_reserved, reserved_names, first_or, max_component_chars, cap_component_length, replaced,
  sanitize_ntfs_component,
}

abbrev pub has : ℕ → Text → Bool
has c [] = false
has c (x ∷ xs) = x == c || has c xs

first-extend :
    (c : ℕ) (d : Text) (parts : List Text)
    → first_or d (extend_first c parts) ≡ c ∷ first_or [] parts
first-extend c d [] = refl
first-extend c d (part ∷ parts) = refl

-- Appending behind a separator leaves the first part as it is.
first-split-append :
    (sep : ℕ) (d e s t : Text)
    → has sep s ≡ true
    → first_or d (split sep (s ++ t)) ≡ first_or e (split sep s)
unfolding split
first-split-append sep d e [] t h = cc
first-split-append sep d e (c ∷ s) t h = elim (Bool-cases (c == sep)) [
  | inl here ↦ rw here
  | inr further ↦
      rw (further, first-extend c d (split sep (s ++ t)), first-extend c e (split sep s))
        (ap (◌∷◌ c) (first-split-append sep [] [] s t (ground arith)))
]

-- Without a separator the text is its own first part.
first-split-whole : (sep : ℕ) (d s : Text) → has sep s ≡ false → first_or d (split sep s) ≡ s
unfolding split
first-split-whole sep d [] h = refl
first-split-whole sep d (c ∷ s) h = elim (Bool-cases (c == sep)) [
  | inl here ↦ absurd (ground arith)
  | inr further ↦
      rw (further, first-extend c d (split sep s))
        (ap (◌∷◌ c) (first-split-whole sep [] s (ground arith)))
]

-- A list that passes a test holds nothing that fails it.
contains-all :
    (q : Text → Bool) (names : List Text) (t : Text)
    → all q names ≡ true
    → contains names t ≡ true
    → q t ≡ true
unfolding all contains any
contains-all q (n ∷ names) t h c = ground (arith, str_eq_iff n t, contains-all q names t)
contains-all q [] t h c = cc

has-append : (c : ℕ) (s t : Text) → has c (s ++ t) ≡ (has c s || has c t)
has-append c [] t = refl
has-append c (x ∷ s) t = ground (arith, has-append c s t)

upper_underscore : (s : Text) → has b'_' s ≡ true → has b'_' (to_ascii_uppercase s) ≡ true
unfolding to_ascii_uppercase
upper_underscore [] h = h
upper_underscore (c ∷ s) h = ground (arith, upper_underscore s)

abbrev no_underscore : Text → Bool
no_underscore t = not (has b'_' t)

names_no_underscore : all no_underscore reserved_names ≡ true
unfolding all reserved_names text
names_no_underscore = refl

-- A name without a dot that ends in an underscore is no device name.
dodged-plain : (s : Text) → has b'.' s ≡ false → is_reserved (s ++ b'_' ∷ []) ≡ false
unfolding is_reserved
dodged-plain s h = elim (Bool-cases (is_reserved (s ++ b'_' ∷ []))) [
  | inl bad ↦
      let n : Text = s ++ b'_' ∷ [] in
      let whole : first_or n (split b'.' n) ≡ n =
        first-split-whole b'.' n n (rw (has-append b'.' s (b'_' ∷ []), h) refl) in
      let listed : contains reserved_names (to_ascii_uppercase n) ≡ true =
        subst (λ x. contains reserved_names (to_ascii_uppercase x) ≡ true) whole bad in
      let under : has b'_' (to_ascii_uppercase n) ≡ true =
        upper_underscore n (rw (has-append b'_' s (b'_' ∷ [])) (ground arith)) in
      absurd (
        ground (
          arith,
          contains-all no_underscore reserved_names (to_ascii_uppercase n) names_no_underscore
              listed,
          under,
        ))
  | inr good ↦ good
]

reserved-filled : (s : Text) → is_reserved s ≡ true → is_empty s ≡ false
unfolding is_reserved split to_ascii_uppercase contains any str_eq reserved_names text
reserved-filled [] h = absurd (false≢true h)
reserved-filled (c ∷ s) h = refl

trimmed-filled : (t : Text) → is_empty (replaced t) ≡ false → is_empty t ≡ false
unfolding replaced drop_end
trimmed-filled [] h = h
trimmed-filled (c ∷ t) h = refl

dotted : (s t : Text) → has b'.' s ≡ true → is_reserved (s ++ t) ≡ is_reserved s
unfolding is_reserved
dotted s t d = rw (first-split-append b'.' (s ++ t) s s t d) refl

-- The underscore frees a name only if it holds no dot.
dodged : (s : Text) → is_reserved s ≡ true → is_reserved (s ++ b'_' ∷ []) ≡ has b'.' s
dodged s h = elim (Bool-cases (has b'.' s)) [
  | inl dot ↦ rw dot (dotted s (b'_' ∷ []) dot ∙ h)
  | inr none ↦ rw none (dodged-plain s none)
]

-- A device name of fewer than 100 characters gets an underscore, which frees it only if it holds no
-- dot. With a dot, as in `CON.txt`, the component that is returned is again a device name by the program's own test.
pub sanitize_reserved :
    (value : Text)
    → let s = replaced (trim value) in
      is_reserved s ≡ true
      → length s < max_component_chars
      → (sanitize_ntfs_component value ≡ ok (s ++ b'_' ∷ []))
        × (is_reserved (s ++ b'_' ∷ []) ≡ has b'.' s)
unfolding sanitize_ntfs_component cap_component_length
sanitize_reserved value reserved short =
    let s : Text = replaced (trim value) in
    let filled : is_empty s ≡ false = reserved-filled s reserved in
    let fits : leb (length (s ++ b'_' ∷ [])) max_component_chars ≡ true =
      ground (arith, length-append s (b'_' ∷ [])) in
    (rw (trimmed-filled (trim value) filled, filled, reserved, fits) refl, dodged s reserved)
