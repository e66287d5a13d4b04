-- ===== src/Storage/Listing.antt =====
-- What `list_categories` of crates/core/src/storage/mod.rs lists.
use localref.Base.{
  ◌≡◌, refl, ◌∙◌, Text, List, [], ◌∷◌, map, Bool, false, ◌&&◌, ◌||◌, any, contains, any-append,
  str_eq, str_eq_iff, any-sorted_unique, arith,
}
use localref.Storage.{ItemDocument, CategorySummary}
use localref.Storage.Categories.{empty_summaries, add_member, add_members, add_items, tidy}

-- The list has a summary of the category.
abbrev pub has_path : Text → List CategorySummary → Bool
has_path c summaries = any (λ (s : CategorySummary). str_eq s.path c) summaries

-- A summary of the category names the id.
abbrev pub lists : Text → Text → List CategorySummary → Bool
lists c id summaries =
    any (λ (s : CategorySummary). str_eq s.path c && contains s.item_ids id) summaries

lists-add_member :
    (c id i p : Text) (summaries : List CategorySummary)
    → lists c id (add_member i p summaries) ≡ (lists c id summaries || (str_eq p c && str_eq i id))
unfolding any add_member contains
lists-add_member c id i p [] = ground arith
lists-add_member c id i p (s ∷ summaries) = ground (
  arith,
  lists-add_member c id i p summaries,
  any-append (λ x. str_eq x id) s.item_ids (i ∷ []),
  str_eq_iff s.path p,
  str_eq_iff s.path c,
  str_eq_iff p c,
)

pub has_path-add_member :
    (c i p : Text) (summaries : List CategorySummary)
    → has_path c (add_member i p summaries) ≡ (has_path c summaries || str_eq p c)
unfolding any add_member
has_path-add_member c i p [] = ground arith
has_path-add_member c i p (s ∷ summaries) = ground (
  arith,
  has_path-add_member c i p summaries,
  str_eq_iff s.path p,
  str_eq_iff s.path c,
  str_eq_iff p c,
)

lists-add_members :
    (c id i : Text) (categories : List Text) (summaries : List CategorySummary)
    → lists c id (add_members i categories summaries)
      ≡ (lists c id summaries || (str_eq i id && contains categories c))
unfolding any add_members contains
lists-add_members c id i [] summaries = ground arith
lists-add_members c id i (p ∷ categories) summaries =
    lists-add_members c id i categories (add_member i p summaries)
    ∙ ground (arith, lists-add_member c id i p summaries)

has_path-add_members :
    (c i : Text) (categories : List Text) (summaries : List CategorySummary)
    → has_path c (add_members i categories summaries)
      ≡ (has_path c summaries || contains categories c)
unfolding any add_members contains
has_path-add_members c i [] summaries = ground arith
has_path-add_members c i (p ∷ categories) summaries =
    has_path-add_members c i categories (add_member i p summaries)
    ∙ ground (arith, has_path-add_member c i p summaries)

-- Some item with the id is in the category.
abbrev pub is_member : Text → Text → ItemDocument → Bool
is_member c id item = str_eq item.id id && contains item.categories c

pub lists-add_items :
    (c id : Text) (items : List ItemDocument) (summaries : List CategorySummary)
    → lists c id (add_items items summaries) ≡ (lists c id summaries || any (is_member c id) items)
unfolding any add_items
lists-add_items c id [] summaries = ground arith
lists-add_items c id (d ∷ items) summaries =
    lists-add_items c id items (add_members d.id d.categories summaries)
    ∙ ground (arith, lists-add_members c id d.id d.categories summaries)

pub has_path-add_items :
    (c : Text) (items : List ItemDocument) (summaries : List CategorySummary)
    → has_path c (add_items items summaries)
      ≡ (has_path c summaries || any (λ (d : ItemDocument). contains d.categories c) items)
unfolding any add_items
has_path-add_items c [] summaries = ground arith
has_path-add_items c (d ∷ items) summaries =
    has_path-add_items c items (add_members d.id d.categories summaries)
    ∙ ground (arith, has_path-add_members c d.id d.categories summaries)

pub has_path-empty :
    (c : Text) (paths : List Text) → has_path c (empty_summaries paths) ≡ contains paths c
unfolding any contains
has_path-empty c [] = refl
has_path-empty c (p ∷ paths) = ground (arith, has_path-empty c paths)

pub lists-empty : (c id : Text) (paths : List Text) → lists c id (empty_summaries paths) ≡ false
unfolding any contains
lists-empty c id [] = refl
lists-empty c id (p ∷ paths) = ground (arith, lists-empty c id paths)

pub lists-tidy :
    (c id : Text) (summaries : List CategorySummary)
    → lists c id (map tidy summaries) ≡ lists c id summaries
unfolding any contains
lists-tidy c id [] = refl
lists-tidy c id (s ∷ summaries) =
    ground (arith, any-sorted_unique (λ x. str_eq x id) s.item_ids, lists-tidy c id summaries)

pub has_path-tidy :
    (c : Text) (summaries : List CategorySummary)
    → has_path c (map tidy summaries) ≡ has_path c summaries
unfolding any
has_path-tidy c [] = refl
has_path-tidy c (s ∷ summaries) = ground (arith, has_path-tidy c summaries)
