-- ===== src/Model/Membership.antt =====
-- Category membership as `apply_category_edits` of crates/core/src/model/mod.rs means it: the list
-- of categories and the list of tombstones, with the effect of an edit on both.
use localref.Base.{
  Text, ◌≡◌, refl, List, [], ◌∷◌, ◌++◌, not, ◌&&◌, ◌||◌, if◌then◌else◌, arith, contains, any,
  any-append, retain, str_eq, str_eq_iff,
}

pub record Membership : Type 0 where
  pub categories : List Text
  pub removed : List Text

-- `array_insert` on the strings of the array
unfoldable pub insert_text : Text → List Text → List Text
unfolding contains
insert_text v ts = if contains ts v then ts else ts ++ v ∷ []

-- `array_remove` on the strings of the array
unfoldable pub remove_text : Text → List Text → List Text
unfolding retain
remove_text v ts = retain (λ t. not (str_eq t v)) ts

unfoldable pub insert_texts : List Text → List Text → List Text
insert_texts [] ts = ts
insert_texts (v ∷ vs) ts = insert_texts vs (insert_text v ts)

unfoldable pub remove_texts : List Text → List Text → List Text
remove_texts [] ts = ts
remove_texts (v ∷ vs) ts = remove_texts vs (remove_text v ts)

-- The edit: `add` is filed and its tombstones cleared, `remove` is dropped and tombstoned, and
-- `drop` is dropped from both lists.
unfoldable pub edit : List Text → List Text → List Text → Membership → Membership
edit add remove drop m = record {
  categories = remove_texts (remove ++ drop) (insert_texts add m.categories);
  removed = insert_texts remove (remove_texts (add ++ drop) m.removed);
}

pub contains-append :
    (c : Text) (xs ys : List Text) → contains (xs ++ ys) c ≡ (contains xs c || contains ys c)
unfolding contains
contains-append c xs ys = any-append (λ x. str_eq x c) xs ys

pub contains-insert :
    (c v : Text) (ts : List Text) → contains (insert_text v ts) c ≡ (contains ts c || str_eq v c)
unfolding insert_text contains any
contains-insert c v ts = ground (arith, contains-append c ts (v ∷ []), str_eq_iff v c)

pub contains-remove :
    (c v : Text) (ts : List Text)
    → contains (remove_text v ts) c ≡ (contains ts c && not (str_eq v c))
unfolding remove_text contains any retain
contains-remove c v [] = refl
contains-remove c v (t ∷ ts) =
    ground (arith, contains-remove c v ts, str_eq_iff t v, str_eq_iff t c, str_eq_iff v c)

contains-insert_texts :
    (c : Text) (vs ts : List Text)
    → contains (insert_texts vs ts) c ≡ (contains ts c || contains vs c)
unfolding insert_texts contains any
contains-insert_texts c [] ts = ground arith
contains-insert_texts c (v ∷ vs) ts =
    ground (arith, contains-insert_texts c vs (insert_text v ts), contains-insert c v ts)

contains-remove_texts :
    (c : Text) (vs ts : List Text)
    → contains (remove_texts vs ts) c ≡ (contains ts c && not (contains vs c))
unfolding remove_texts contains any
contains-remove_texts c [] ts = ground arith
contains-remove_texts c (v ∷ vs) ts =
    ground (arith, contains-remove_texts c vs (remove_text v ts), contains-remove c v ts)

-- After an edit a category is listed exactly if it was listed or is added, and is neither removed
-- nor dropped; it is tombstoned exactly if it is removed, or was tombstoned and is neither added nor
-- dropped.
pub contains-edit :
    (add remove drop : List Text) (m : Membership) (c : Text)
    → (contains (edit add remove drop m).categories c ≡ (
        (contains m.categories c || contains add c) && not (contains remove c || contains drop c)))
      × (contains (edit add remove drop m).removed c ≡ (
          (contains m.removed c && not (contains add c || contains drop c)) || contains remove c))
unfolding edit
contains-edit add remove drop m c = (
  ground (
    arith,
    contains-remove_texts c (remove ++ drop) (insert_texts add m.categories),
    contains-insert_texts c add m.categories,
    contains-append c remove drop,
  ),
  ground (
    arith,
    contains-insert_texts c remove (remove_texts (add ++ drop) m.removed),
    contains-remove_texts c (add ++ drop) m.removed,
    contains-append c add drop,
  ),
)
