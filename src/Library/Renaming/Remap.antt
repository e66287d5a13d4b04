-- ===== src/Library/Renaming/Remap.antt =====
-- What remapping a category prefix does to the membership of an item.
use localref.Base.{
  Text, ◌≡◌, refl, sym, ◌∙◌, List, [], ◌∷◌, ◌++◌, append_assoc, Bool, true, false, not, ◌&&◌, ◌||◌,
  if◌then◌else◌, Option, none, some, str_eq, str_eq_iff, contains, any, arith, strip_prefix,
  strip_prefix-some, Bool-cases, inl, inr, Option-cases,
}
use localref.Model.Membership.{Membership, edit, contains-edit}
use localref.Library.Outcome.{contains-one, contains-nil}
use localref.Library.Renaming.{below, remap}

-- The edits that `remap_category_prefix` makes of one item, in the order of its indexed categories.
abbrev pub remap_edit : Text → Option Text → Membership → Membership
remap_edit c none m = m
remap_edit c (some new) m = edit (new ∷ []) [] (c ∷ []) m

unfoldable pub remap_edits : Text → Text → List Text → Membership → Membership
remap_edits from to [] m = m
remap_edits from to (c ∷ cs) m = remap_edits from to cs (remap_edit c (remap from to c) m)

-- Whether a category is moved to `x`, and whether it is moved at all.
abbrev pub moved_to : Text → Option Text → Bool
moved_to x none = false
moved_to x (some new) = str_eq new x

abbrev pub is_moved : Option Text → Bool
is_moved none = false
is_moved (some _) = true

-- No category is moved to one that is itself moved.
abbrev pub Apart : Text → Text → List Text → Type 0
Apart from to [] = Unit {0}
Apart from to (c ∷ cs) =
    ((new : Text) → remap from to c ≡ some new → remap from to new ≡ none) × Apart from to cs

sources : Text → Text → Text → List Text → Bool
sources from to x [] = false
sources from to x (c ∷ cs) = (str_eq c x && is_moved (remap from to c)) || sources from to x cs

abbrev pub targets : Text → Text → Text → List Text → Bool
targets from to x [] = false
targets from to x (c ∷ cs) = moved_to x (remap from to c) || targets from to x cs

sources-unmoved :
    (from to x : Text) (cs : List Text) → remap from to x ≡ none → sources from to x cs ≡ false
unfolding sources
sources-unmoved from to x [] h = refl
sources-unmoved from to x (c ∷ cs) h = elim (Bool-cases (str_eq c x)) [
  | inl e ↦ ground (arith, str_eq_iff c x, sources-unmoved from to x cs h)
  | inr ne ↦ ground (arith, sources-unmoved from to x cs h)
]

contains-remap_edit :
    (x c : Text) (o : Option Text) (m : Membership)
    → contains (remap_edit c o m).categories x ≡ (
        if is_moved o
        then (contains m.categories x || moved_to x o) && not (str_eq c x)
        else contains m.categories x)
contains-remap_edit x c none m = refl
contains-remap_edit x c (some new) m = ground (
  arith,
  contains-edit (new ∷ []) [] (c ∷ []) m x,
  contains-one new x,
  contains-one c x,
  contains-nil x,
)

contains-remap_edits :
    (from to x : Text) (cs : List Text) (m : Membership)
    → Apart from to cs
    → contains (remap_edits from to cs m).categories x
      ≡ ((contains m.categories x && not (sources from to x cs)) || targets from to x cs)
unfolding remap_edits sources
contains-remap_edits from to x [] m apart = ground arith
contains-remap_edits from to x (c ∷ cs) m (here, rest) = elim (Option-cases (remap from to c)) [
  | inl stays ↦ ground (arith, stays, contains-remap_edits from to x cs m rest)
  | inr (new, moves) ↦ rw moves (
      ground (
        arith,
        contains-remap_edits from to x cs (edit (new ∷ []) [] (c ∷ []) m) rest,
        contains-remap_edit x c (some new) m,
        here new moves,
        str_eq_iff new x,
        str_eq_iff c x,
        moves,
        sources-unmoved from to x cs,
      ))
]

sources-contains :
    (from to x : Text) (cs : List Text)
    → sources from to x cs ≡ (contains cs x && is_moved (remap from to x))
unfolding sources contains any
sources-contains from to x [] = refl
sources-contains from to x (c ∷ cs) = elim (Bool-cases (str_eq c x)) [
  | inl e ↦ ground (arith, str_eq_iff c x, sources-contains from to x cs)
  | inr ne ↦ ground (arith, sources-contains from to x cs)
]

-- If no category of an item is moved to one that is itself moved, then remapping the item, whose
-- metadata lists what the index does, moves all of its categories at once: one is listed
-- afterwards exactly if it was listed and is not moved, or a listed one is moved to it.
pub remap_edits-moves :
    (from to x : Text) (m : Membership)
    → Apart from to m.categories
    → contains (remap_edits from to m.categories m).categories x ≡ (
        (contains m.categories x && not (is_moved (remap from to x)))
        || targets from to x m.categories)
remap_edits-moves from to x m apart = ground (
  arith,
  contains-remap_edits from to x m.categories m apart,
  sources-contains from to x m.categories,
)

below-same :
    (from c new : Text) → below from (strip_prefix (from ++ b'/' ∷ []) c) ≡ some new → new ≡ c
below-same from c new h = elim (Option-cases (strip_prefix (from ++ b'/' ∷ []) c)) [
  | inl e ↦ cc
  | inr (rest, e) ↦
      let whole : (from ++ b'/' ∷ []) ++ rest ≡ c =
        strip_prefix-some (from ++ b'/' ∷ []) c rest e in
      let moved : from ++ b'/' ∷ rest ≡ new = cc in
      sym moved ∙ sym (append_assoc from (b'/' ∷ []) rest) ∙ whole
]

-- Onto itself a prefix moves every category at or below it to itself.
remap_self : (from c new : Text) → remap from from c ≡ some new → new ≡ c
unfolding remap
remap_self from c new h = elim (Bool-cases (str_eq c from)) [
  | inl here ↦ ground (arith, str_eq_iff c from)
  | inr other ↦ below-same from c new (ground arith)
]

-- A category that is moved onto itself is dropped: `edit` adds it and then drops it.
self-dropped :
    (from x : Text) (cs : List Text) (m : Membership)
    → (contains m.categories x && not (contains cs x)) ≡ false
    → remap from from x ≡ some x
    → contains (remap_edits from from cs m).categories x ≡ false
unfolding remap_edits contains any
self-dropped from x [] m h moved = ground arith
self-dropped from x (c ∷ cs) m h moved = elim (Option-cases (remap from from c)) [
  | inl stays ↦ ground (arith, stays, str_eq_iff c x, self-dropped from x cs m)
  | inr (new, moves) ↦
      let same : new ≡ c = remap_self from c new moves in
      ground (
        arith,
        moves,
        same,
        contains-remap_edit x c (some new) m,
        str_eq_iff new x,
        str_eq_iff c x,
        self-dropped from x cs (edit (new ∷ []) [] (c ∷ []) m),
      )
]

-- Remapping a prefix onto itself drops every category at or below it from the metadata, although
-- nothing was to change: `edit` adds the category and then drops it.
pub remap_edits_self :
    (from x : Text) (m : Membership)
    → remap from from x ≡ some x
    → contains (remap_edits from from m.categories m).categories x ≡ false
remap_edits_self from x m moved = self-dropped from x m.categories m (ground arith) moved
