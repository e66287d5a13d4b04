-- ===== src/Csc/Items/Titles.antt =====
-- When `item_title` of crates/csc/src/lib.rs is empty.
use localref.Base.{
  ◌≡◌, refl, ◌↔◌, ◌⊎◌, inl, inr, Text, text, [], ◌∷◌, ◌++◌, true, false, Option, none, some,
  is_empty, take, arith, Bool-cases,
}
use localref.Csc.Uploads.{Value, json_string, or_else}
use localref.Csc.Items.{
  title_keys, url_keys, id_keys, unwrap_or, note_title, strip_html_like_text, truncate_title,
  item_title,
}

is_empty-truncate_title : (s : Text) → is_empty s ≡ false → is_empty (truncate_title s) ≡ false
unfolding truncate_title take
is_empty-truncate_title [] h = h
is_empty-truncate_title (c ∷ s) h = ground arith

note_title-cases :
    (note : Option Text)
    → (note_title note ≡ none) ⊎ ((t : Text) × (note_title note ≡ some t) × (is_empty t ≡ false))
note_title-cases none = inl refl
note_title-cases (some note) = elim (Bool-cases (is_empty (strip_html_like_text note))) [
  | inl e ↦ inl (ground arith)
  | inr e ↦
      let t = truncate_title (strip_html_like_text note) in
      inr (t, ground arith, is_empty-truncate_title (strip_html_like_text note) e)
]

is_empty→[] : (s : Text) → is_empty s ≡ true → s ≡ []
is_empty→[] [] h = refl
is_empty→[] (c ∷ s) h = cc

fallback-filled : (kind id : Text) → is_empty (kind ++ b'-' ∷ id) ≡ false
fallback-filled [] id = refl
fallback-filled (c ∷ kind) id = refl

-- The three sources of a title in their order, in front of the fallback.
title_of : Option Text → Option Text → Option Text → Text → Text
title_of title note url fallback = unwrap_or (or_else title (or_else note url)) fallback

title_of-empty_iff :
    (title note url : Option Text) (fallback : Text)
    → is_empty fallback ≡ false
    → (note ≡ none) ⊎ ((t : Text) × (note ≡ some t) × (is_empty t ≡ false))
    → (is_empty (title_of title note url fallback) ≡ true)
      ↔ ((title ≡ some []) ⊎ ((title ≡ none) × (note ≡ none) × (url ≡ some [])))
unfolding title_of
title_of-empty_iff (some []) noted url fallback f n = ground arith
title_of-empty_iff (some (c ∷ t)) noted url fallback f n = ground arith
title_of-empty_iff none (some t) url fallback f n = ground arith
title_of-empty_iff none none none fallback f n = ground arith
title_of-empty_iff none none (some []) fallback f n = ground arith
title_of-empty_iff none none (some (c ∷ u)) fallback f n = ground arith

-- The title of an item is empty exactly when the first of the title fields that is a text is empty,
-- or when there is none, no note gives a title, and the address is empty. No later field is asked.
pub item_title-empty_iff :
    (item : Value) (item_type : Option Text)
    → (is_empty (item_title item item_type) ≡ true) ↔ (
        (json_string item title_keys ≡ some [])
        ⊎ ((json_string item title_keys ≡ none)
            × (note_title (json_string item (text "note" ∷ [])) ≡ none)
            × (json_string item url_keys ≡ some [])))
unfolding item_title title_of
item_title-empty_iff item item_type =
    let note = json_string item (text "note" ∷ []) in
    let id = unwrap_or (json_string item id_keys) (text "untitled") in
    let kind = unwrap_or item_type (text "item") in
    title_of-empty_iff (json_string item title_keys) (note_title note) (json_string item url_keys)
      (kind ++ b'-' ∷ id) (fallback-filled kind id) (note_title-cases note)
