-- ===== src/Scan/Entries.antt =====
-- The entries of `scan_cat` of crates/core/src/scan/mod.rs, and what `scan_and_normalize` of
-- crates/core/src/lib.rs takes from them.
use localref.Base.{
  Text, text, List, [], ◌∷◌, ◌++◌, Bool, true, false, not, ◌&&◌, ◌≡◌, refl, sym, ap, subst, ◌∙◌,
  ◌↔◌, inl, inr, all, any, sort_by, any-sort_by, is_sorted, is_sorted-sort_by, Bool-cases, Option,
  none, some, ok, ◌>>=◌, reached, is_ok, arith, Result-cases,
}
use localref.Platformfs.Merging.{is_some}
use localref.Scan.Tree.{
  Node, file, other, symlink, faulty, locked, directory, Children, LibraryTree, CatEntry, Reading,
  granted, absent, refused, item_link, broken_link, stale_item_link, real_directory_candidate,
  invalid_file, print_path,
}
use localref.Scan.Scanning.{
  cat_entry, linked, is_under_all, directory_entry, stale_or_category, stale_item_target,
  category_for, looks_like_item, item_or_rest, is_stale, scan_cat_dir, scan_cat, stale_link,
  stale_links, read_top,
}
use localref.Scan.Walking.{told, pushed, Tells, Tells-sound, Seen-complete}

scan_cat-granted :
    (tree : LibraryTree) (entries : List CatEntry)
    → tree.cat_reading ≡ granted
    → scan_cat tree ≡ ok entries
    → (found : List CatEntry) × (scan_cat_dir tree [] tree.cat ≡ ok found)
      × (entries ≡ sort_by (λ (e : CatEntry). e.path) found)
unfolding scan_cat
scan_cat-granted tree entries g h =
    let path = print_path (tree.root ++ text "Cat" ∷ []) in
    let work = scan_cat_dir tree [] tree.cat in
    let sorted = λ (found : List CatEntry). ok (sort_by (λ (e : CatEntry). e.path) found) in
    let (found, f, s) =
      reached work sorted (sym (ap (λ r. read_top path r (work >>= sorted)) g) ∙ h) in
    (found, f, ground arith)

-- When `Cat/` is there and can be read and the scan succeeds, some entry of its result has a property
-- exactly when an entry is met that has it: the entries stand for what is met and for nothing else.
-- They are in the order of their paths.
pub scan_cat-Tells :
    (p : CatEntry → Bool) (tree : LibraryTree) (entries : List CatEntry)
    → tree.cat_reading ≡ granted
    → scan_cat tree ≡ ok entries
    → ((any p entries ≡ true) ↔ Tells p tree [] tree.cat)
      × (is_sorted (λ (e : CatEntry). e.path) entries ≡ true)
scan_cat-Tells p tree entries g h =
    let (found, f, s) = scan_cat-granted tree entries g h in
    let same = any-sort_by (λ (e : CatEntry). e.path) p found in
    (
      (
        λ a. Tells-sound p tree [] tree.cat found f (ground arith),
        λ (path, node, e, seen, t, k).
            let a = Seen-complete p tree [] tree.cat found path node e f seen t k in ground arith,
      ),
      subst (λ (es : List CatEntry). is_sorted (λ (e : CatEntry). e.path) es ≡ true) (sym s)
          (is_sorted-sort_by (λ (e : CatEntry). e.path) found),
    )

-- What the kind of an entry promises of its category and its target.
unfoldable pub is_sound : CatEntry → Bool
is_sound e = elim e.kind [
  | item_link ↦ is_some e.target_path
  | stale_item_link ↦ is_some e.category && is_some e.target_path
  | real_directory_candidate ↦ is_some e.category && not (is_some e.target_path)
  | broken_link ↦ true
  | _ ↦ not (is_some e.target_path)
]

is_under_all-some :
    (tree : LibraryTree) (canonical : Option (List Text))
    → is_under_all tree canonical ≡ true
    → is_some canonical ≡ true
unfolding is_under_all
is_under_all-some tree none h = ground arith
is_under_all-some tree (some path) h = refl

item_link-IsSound :
    (tree : LibraryTree) (path : List Text) (canonical : Option (List Text))
    → is_under_all tree canonical ≡ true
    → is_sound (linked tree path item_link canonical) ≡ true
unfolding is_sound
item_link-IsSound tree path none h = ground (arith, is_under_all-some tree none h)
item_link-IsSound tree path (some target) h = refl

broken_link-IsSound :
    (tree : LibraryTree) (path : List Text) (target : Option (List Text))
    → is_sound (linked tree path broken_link target) ≡ true
unfolding is_sound
broken_link-IsSound tree path none = refl
broken_link-IsSound tree path (some target) = refl

stale_or_category-IsSound :
    (tree : LibraryTree) (path : List Text) (target : Option Text)
    → is_some (category_for path) ≡ true
    → is_sound (stale_or_category tree path target) ≡ true
unfolding is_sound
stale_or_category-IsSound tree path none h = refl
stale_or_category-IsSound tree path (some target) h = ground arith

abbrev option_is_sound : Option CatEntry → Bool
option_is_sound none = true
option_is_sound (some e) = is_sound e

candidate-IsSound :
    (tree : LibraryTree) (path : List Text)
    → is_some (category_for path) ≡ true
    → is_sound (cat_entry tree path real_directory_candidate none) ≡ true
unfolding is_sound
candidate-IsSound tree path h = ground arith

item_or_rest-IsSound :
    (tree : LibraryTree) (path : List Text) (children : Children) (found : Bool)
    → is_some (category_for path) ≡ true
    → is_sound (item_or_rest tree path children found) ≡ true
item_or_rest-IsSound tree path children true h = candidate-IsSound tree path h
item_or_rest-IsSound tree path children false h =
    stale_or_category-IsSound tree path (stale_item_target tree path children) h

directory_entry-IsSound :
    (tree : LibraryTree) (path : List Text) (canonical : Option (List Text)) (has_metadata : Bool)
    (children : Children)
    → option_is_sound (pushed (directory_entry tree path canonical has_metadata children)) ≡ true
unfolding directory_entry is_sound
directory_entry-IsSound tree path canonical has_metadata children =
    elim (Bool-cases (is_under_all tree canonical)) [
      | inl u ↦ ground (arith, item_link-IsSound tree path canonical u)
      | inr u ↦ elim (Bool-cases (is_some (category_for path))) [
        | inr c ↦ ground arith
        | inl c ↦ elim (Result-cases (looks_like_item tree path has_metadata children)) [
          | inl (found, f) ↦ ground (arith, item_or_rest-IsSound tree path children found c)
          | inr (problem, f) ↦ ground arith
        ]
      ]
    ]

file-IsSound :
    (tree : LibraryTree) (path : List Text)
    → is_sound (cat_entry tree path invalid_file none) ≡ true
unfolding is_sound
file-IsSound tree path = refl

told-IsSound :
    (tree : LibraryTree) (path : List Text) (node : Node)
    → option_is_sound (told tree path node) ≡ true
unfolding told
told-IsSound tree path file = file-IsSound tree path
told-IsSound tree path other = refl
told-IsSound tree path (symlink target) = elim (Bool-cases (is_under_all tree target)) [
  | inl u ↦ ground (arith, item_link-IsSound tree path target u)
  | inr u ↦ ground (arith, broken_link-IsSound tree path target)
]
told-IsSound tree path (faulty kind m) = refl
told-IsSound tree path (locked canonical has_metadata m) =
    elim (Bool-cases (is_under_all tree canonical)) [
      | inl u ↦ ground (arith, item_link-IsSound tree path canonical u)
      | inr u ↦ elim (Bool-cases (is_some (category_for path) && has_metadata)) [
        | inl c ↦ ground (arith, candidate-IsSound tree path)
        | inr c ↦ ground arith
      ]
    ]
told-IsSound tree path (directory canonical has_metadata children) =
    directory_entry-IsSound tree path canonical has_metadata children

all-unless-any :
    (p : CatEntry → Bool) (es : List CatEntry) → any (λ e. not (p e)) es ≡ false → all p es ≡ true
unfolding any all
all-unless-any p [] h = refl
all-unless-any p (e ∷ es) h = ground (arith, all-unless-any p es)

stale_link_sound :
    (e : CatEntry) → is_stale e.kind ≡ true → is_sound e ≡ true → is_ok (stale_link e) ≡ true
unfolding stale_link is_sound
stale_link_sound e h k = ground arith

stale_links_sound : (es : List CatEntry) → all is_sound es ≡ true → is_ok (stale_links es) ≡ true
unfolding stale_links all
stale_links_sound [] h = refl
stale_links_sound (e ∷ es) h = ground (arith, stale_links_sound es, stale_link_sound e)

Tells-unsound :
    (tree : LibraryTree) (dir : List Text) (children : Children)
    → Tells (λ e. not (is_sound e)) tree dir children
    → ⊥
Tells-unsound tree dir children (path, node, e, seen, t, k) =
    let sound = told-IsSound tree path node in ground arith

sound_by_reading :
    (tree : LibraryTree) (entries : List CatEntry) (r : Reading)
    → tree.cat_reading ≡ r
    → scan_cat tree ≡ ok entries
    → all is_sound entries ≡ true
unfolding scan_cat all
sound_by_reading tree entries absent e h = ground arith
sound_by_reading tree entries (refused m) e h = ground arith
sound_by_reading tree entries granted e h =
    let unsound = λ (c : CatEntry). not (is_sound c) in
    let told_of = (scan_cat-Tells unsound tree entries e h).0.0 in
    all-unless-any is_sound entries (elim (Bool-cases (any unsound entries)) [
      | inl a ↦ absurd (Tells-unsound tree [] tree.cat (told_of a))
      | inr a ↦ a
    ])

-- When the scan succeeds, every entry of its result has what its kind promises: the link to an item
-- and the remnant of one have a target, and the remnant and the candidate have a category. So the
-- loop of `scan_and_normalize` over the remnants never ends with a missing category or target.
pub scan_cat-IsSound :
    (tree : LibraryTree) (entries : List CatEntry)
    → scan_cat tree ≡ ok entries
    → (all is_sound entries ≡ true) × (is_ok (stale_links entries) ≡ true)
scan_cat-IsSound tree entries h =
    let sound = sound_by_reading tree entries tree.cat_reading refl h in
    (sound, stale_links_sound entries sound)
