-- ===== src/Platformfs/Component/Shape.antt =====
-- What `sanitize_ntfs_component` guarantees of a component that it returns.
use localref.Base.{
  ℕ, ◌+◌, ◌-◌, ◌≤◌, ◌≡◌, refl, Text, List, [], ◌∷◌, ◌++◌, map, Bool, true, false, not, leb, Option,
  none, some, length, is_empty, all, all-append, all-take, all-drop_end, length-append,
  length-take-le, length-drop_end-le, drop_end, take, trim, rsplit_once, is_ascii_alphanumeric, ok,
  arith, Bool-cases, inl, inr,
}
use localref.Platformfs.Component.{
  is_forbidden, replace_forbidden, is_space_or_dot, is_reserved, dodge_reserved, kept_extension,
  suffix_chars, with_extension, truncation_marker, max_component_chars, max_extension_chars,
  cap_component_length, replaced, sanitize_ntfs_component,
}

abbrev pub is_allowed : ℕ → Bool
is_allowed c = not (is_forbidden c)

-- A component that NTFS takes: not empty, at most 100 characters, none of them forbidden, and with
-- no blank and no dot at the end.
pub record IsComponent (s : Text) : Type 0 where
  pub filled : is_empty s ≡ false
  pub bounded : length s ≤ max_component_chars
  pub allowed : all is_allowed s ≡ true
  pub ended : drop_end is_space_or_dot s ≡ s

module _ {A : Type 0} (p : A → Bool) where
  drop_end-drop_end : (xs : List A) → drop_end p (drop_end p xs) ≡ drop_end p xs
  unfolding drop_end
  drop_end-drop_end [] = refl
  drop_end-drop_end (x ∷ xs) = ground (arith, drop_end-drop_end xs)

  append-filled : (xs ys : List A) → is_empty ys ≡ false → is_empty (xs ++ ys) ≡ false
  append-filled [] ys h = h
  append-filled (x ∷ xs) ys h = refl

  drop_end-append :
      (xs ys : List A) → is_empty ys ≡ false → drop_end p ys ≡ ys → drop_end p (xs ++ ys) ≡ xs ++ ys
  unfolding drop_end
  drop_end-append [] ys filled h = h
  drop_end-append (x ∷ xs) ys filled h =
      rw (drop_end-append xs ys filled h, append-filled xs ys filled) (ground arith)

  drop_end-none :
      (q : A → Bool) (xs : List A)
      → ((x : A) → q x ≡ true → p x ≡ false)
      → all q xs ≡ true
      → drop_end p xs ≡ xs
  unfolding drop_end all
  drop_end-none q [] sep h = refl
  drop_end-none q (x ∷ xs) sep h = ground (arith, sep x, drop_end-none q xs sep)

all-map_replace : (s : Text) → all is_allowed (map replace_forbidden s) ≡ true
unfolding all
all-map_replace [] = refl
all-map_replace (c ∷ s) = ground (arith, replace-allowed c, all-map_replace s)
  where
    replace-allowed : (c : ℕ) → is_allowed (replace_forbidden c) ≡ true
    replace-allowed c = elim (Bool-cases (is_forbidden c)) [
      | inl bad ↦ rw bad (unfold is_forbidden in refl)
      | inr good ↦ rw (good, good)
    ]

alphanumeric-allowed : (c : ℕ) → is_ascii_alphanumeric c ≡ true → is_allowed c ≡ true
unfolding is_ascii_alphanumeric is_forbidden
alphanumeric-allowed c h = ground arith

alphanumeric-ends : (c : ℕ) → is_ascii_alphanumeric c ≡ true → is_space_or_dot c ≡ false
unfolding is_ascii_alphanumeric
alphanumeric-ends c h = ground arith

-- A short, plain extension, or none.
abbrev IsPlain : Option Text → Type 0
IsPlain none = Unit {0}
IsPlain (some ext) =
    (is_empty ext ≡ false)
    × (length ext ≤ max_extension_chars)
    × (all is_ascii_alphanumeric ext ≡ true)

kept_extension-IsPlain : (o : Option (Text × Text)) → IsPlain (kept_extension o)
kept_extension-IsPlain none = tt
kept_extension-IsPlain (some (stem, ext)) = ground arith

all-weaken :
    (p q : ℕ → Bool) (s : Text)
    → ((c : ℕ) → p c ≡ true → q c ≡ true)
    → all p s ≡ true
    → all q s ≡ true
unfolding all
all-weaken p q [] sub h = refl
all-weaken p q (c ∷ s) sub h = ground (arith, sub c, all-weaken p q s sub)

with_extension-IsComponent :
    (stem : Text) (o : Option Text)
    → IsPlain o
    → all is_allowed stem ≡ true
    → length stem ≤ max_component_chars - (1 + suffix_chars o)
    → IsComponent (with_extension (stem ++ truncation_marker ∷ []) o)
unfolding all drop_end is_forbidden
with_extension-IsComponent stem none plain good short = record {
  filled = append-filled is_space_or_dot stem _ refl;
  bounded = omega (arith, length-append stem (truncation_marker ∷ []));
  allowed = rw (all-append, good) refl;
  ended = drop_end-append is_space_or_dot stem _ refl refl;
}
with_extension-IsComponent stem (some ext) (filled, le, plain) good short =
    let marked : Text = stem ++ truncation_marker ∷ [] in
    let kept : drop_end is_space_or_dot ext ≡ ext =
      drop_end-none is_space_or_dot is_ascii_alphanumeric ext alphanumeric-ends plain in
    record {
      filled = append-filled is_space_or_dot marked (b'.' ∷ ext) refl;
      bounded =
          omega
            (arith, length-append stem (truncation_marker ∷ []), length-append marked (b'.' ∷ ext));
      allowed = rw (
        all-append is_allowed marked (b'.' ∷ ext),
        all-append is_allowed stem (truncation_marker ∷ []),
        good,
        all-weaken is_ascii_alphanumeric is_allowed ext alphanumeric-allowed plain,
      );
      ended = drop_end-append is_space_or_dot marked (b'.' ∷ ext) refl (rw (kept, filled));
    }

cap-IsComponent :
    (s : Text)
    → is_empty s ≡ false
    → all is_allowed s ≡ true
    → drop_end is_space_or_dot s ≡ s
    → IsComponent (cap_component_length s)
unfolding cap_component_length
cap-IsComponent s filled good ended = elim (Bool-cases (leb (length s) max_component_chars)) [
  | inl short ↦
      rw short (record { filled = filled; bounded = ground arith; allowed = good; ended = ended })
  | inr long ↦
      let o : Option Text = kept_extension (rsplit_once b'.' s) in
      let budget : ℕ = max_component_chars - (1 + suffix_chars o) in
      rw long (
        with_extension-IsComponent (drop_end is_space_or_dot (take budget s)) o
          (kept_extension-IsPlain (rsplit_once b'.' s))
          (all-drop_end is_allowed is_space_or_dot (take budget s)
            (all-take is_allowed budget s good))
          (omega
            (arith, length-take-le budget s, length-drop_end-le is_space_or_dot (take budget s))))
]

-- What a successful call went through.
pub sanitize-inversion :
    (value s : Text)
    → sanitize_ntfs_component value ≡ ok s
    → (is_empty (replaced (trim value)) ≡ false)
      × (s ≡ cap_component_length (dodge_reserved (replaced (trim value))))
unfolding sanitize_ntfs_component
sanitize-inversion value s h = ground arith

dodged-IsComponent :
    (r : Text)
    → is_empty r ≡ false
    → all is_allowed r ≡ true
    → drop_end is_space_or_dot r ≡ r
    → IsComponent (cap_component_length (dodge_reserved r))
dodged-IsComponent r filled good ended = elim (Bool-cases (is_reserved r)) [
  | inl reserved ↦ rw reserved (
      cap-IsComponent (r ++ b'_' ∷ []) (append-filled is_space_or_dot r _ refl)
        (rw (all-append, good) (unfold all is_forbidden in refl))
        (drop_end-append is_space_or_dot r _ refl (unfold drop_end in refl)))
  | inr plain ↦ rw plain (cap-IsComponent r filled good ended)
]

-- Whatever the name, a component that is returned is one that NTFS takes: it is not empty, has at
-- most 100 characters, holds none of the forbidden ones, and ends in neither a blank nor a dot.
pub sanitize-IsComponent : (value s : Text) → sanitize_ntfs_component value ≡ ok s → IsComponent s
unfolding replaced
sanitize-IsComponent value s h =
    let (filled, e) = sanitize-inversion value s h in
    rw e (
      dodged-IsComponent (replaced (trim value)) filled
        (all-drop_end is_allowed is_space_or_dot _ (all-map_replace (trim value)))
        (drop_end-drop_end is_space_or_dot (map replace_forbidden (trim value))))

map_replace-allowed : (s : Text) → all is_allowed s ≡ true → map replace_forbidden s ≡ s
unfolding all
map_replace-allowed [] h = refl
map_replace-allowed (c ∷ s) h = ground (arith, map_replace-allowed s)

-- A component that NTFS takes, that is no device name and has no blank around it, is left as it is.
pub sanitize_fixed :
    (s : Text)
    → IsComponent s
    → trim s ≡ s
    → is_reserved s ≡ false
    → sanitize_ntfs_component s ≡ ok s
unfolding sanitize_ntfs_component replaced cap_component_length
sanitize_fixed s v trimmed plain =
    rw (trimmed, v.filled, map_replace-allowed s v.allowed, v.ended, v.filled, plain)
      (ground (arith, v.bounded))
