-- ===== src/Scan/Walking.antt =====
-- The walk of `scan_cat_dir` of crates/core/src/scan/mod.rs: which entries below `Cat/` it meets.
use localref.Base.{
  Text, List, [], ◌∷◌, ◌++◌, Bool, true, false, ◌&&◌, ap, Result, err, ◌≡◌, refl, sym, subst, ◌⊎◌,
  inl, inr, any, any-append, Bool-cases, if◌then◌else◌, Option, none, some, ok, reached, arith,
}
use localref.Platformfs.Merging.{is_some}
use localref.Scan.Tree.{
  Node, file, other, symlink, faulty, failing, locked, directory, real_directory_candidate,
  Children, end, entry, LibraryTree, CatEntry, invalid_file, item_link, broken_link,
}
use localref.Scan.Scanning.{
  category_for, enter, cat_entry, linked, is_under_all, directory_entry, is_category_directory,
  scan_cat_entry, scan_cat_dir,
}

-- Whether a directory is pushed as a category.
abbrev pub enters : Result CatEntry → Bool
enters (err problem) = false
enters (ok found) = is_category_directory found.kind

abbrev pub pushed : Result CatEntry → Option CatEntry
pushed (err problem) = none
pushed (ok found) = some found

-- The entries that are met from a directory on: its own, and those of the directories in it that the
-- scanner takes for categories. No link and no item is entered.
pub data Seen (tree : LibraryTree) : List Text → Children → List Text → Node → Type 0 where
  here :
      (dir : List Text) (name : Text) (node : Node) (rest : Children)
      → Seen tree dir (entry name node rest) (dir ++ name ∷ []) node
  later :
      {dir path : List Text} {name : Text} {node found : Node} {rest : Children}
      → Seen tree dir rest path found
      → Seen tree dir (entry name node rest) path found
  inside :
      {dir path : List Text} {name : Text} {found : Node} {canonical : Option (List Text)}
      {has_metadata : Bool} {children rest : Children}
      → enters (directory_entry tree (dir ++ name ∷ []) canonical has_metadata children) ≡ true
      → Seen tree (dir ++ name ∷ []) children path found
      → Seen tree dir (entry name (directory canonical has_metadata children) rest) path found

-- What is told of an entry that is met.
unfoldable pub told : LibraryTree → List Text → Node → Option CatEntry
told tree path file = some (cat_entry tree path invalid_file none)
told tree path other = none
told tree path (symlink target) =
    some (linked tree path (if is_under_all tree target then item_link else broken_link) target)
told tree path (faulty kind m) = none
told tree path (locked canonical has_metadata m) =
    if is_under_all tree canonical
    then some (linked tree path item_link canonical)
    else if is_some (category_for path) && has_metadata
    then some (cat_entry tree path real_directory_candidate none)
    else none
told tree path (directory canonical has_metadata children) =
    pushed (directory_entry tree path canonical has_metadata children)

-- An entry with a property is told of a node that is met.
abbrev pub Tells : (CatEntry → Bool) → LibraryTree → List Text → Children → Type 0
Tells p tree dir children =
    (path : List Text) × (node : Node) × (e : CatEntry) × Seen tree dir children path node
    × (told tree path node ≡ some e)
    × (p e ≡ true)

-- The same from one node on.
abbrev TellsFrom : (CatEntry → Bool) → LibraryTree → List Text → Node → Type 0
TellsFrom p tree path node =
    ((e : CatEntry) × (told tree path node ≡ some e) × (p e ≡ true))
    ⊎ ((canonical : Option (List Text)) × (has_metadata : Bool) × (children : Children) × (node
          ≡ directory canonical has_metadata children)
        × (enters (directory_entry tree path canonical has_metadata children) ≡ true)
        × Tells p tree path children)

-- What an entered directory comes to.
enter-cases :
    (r : Result CatEntry) (below : Result (List CatEntry)) (entries : List CatEntry)
    → enter r below ≡ ok entries
    → (found : CatEntry) × (pushed r ≡ some found)
      × ((entries ≡ found ∷ [])
          ⊎ ((enters r ≡ true) × (b : List CatEntry) × (below ≡ ok b) × (entries ≡ found ∷ b)))
enter-cases (err problem) below entries h = ground arith
enter-cases (ok found) below entries h = elim (Bool-cases (is_category_directory found.kind)) [
  | inr c ↦ (found, refl, inl (ground arith))
  | inl c ↦
      let (b, e, f) = reached below (λ b. ok (found ∷ b)) {c = entries} (ground arith) in
      (found, refl, inr (c, b, e, ground arith))
]

-- An entered directory is scanned.
enter-below :
    (r : Result CatEntry) (below : Result (List CatEntry)) (entries : List CatEntry)
    → enter r below ≡ ok entries
    → enters r ≡ true
    → (found : CatEntry) × (b : List CatEntry) × (below ≡ ok b) × (entries ≡ found ∷ b)
enter-below (err problem) below entries h c = ground arith
enter-below (ok found) below entries h c =
    let (b, e, f) = reached below (λ b. ok (found ∷ b)) {c = entries} (ground arith) in
    (found, b, e, ground arith)

any-append-cases :
    (p : CatEntry → Bool) (xs ys : List CatEntry)
    → any p (xs ++ ys) ≡ true
    → (any p xs ≡ true) ⊎ (any p ys ≡ true)
any-append-cases p xs ys h = ground (arith, any-append p xs ys)

any-single :
    (p : CatEntry → Bool) (e : CatEntry) (entries : List CatEntry)
    → ok (e ∷ []) ≡ ok entries
    → any p entries ≡ true
    → p e ≡ true
unfolding any
any-single p e entries h k = ground arith

any-none :
    (p : CatEntry → Bool) (entries : List CatEntry) → ok [] ≡ ok entries → any p entries ≡ true → ⊥
unfolding any
any-none p entries h k = ground arith

module _ (p : CatEntry → Bool) (tree : LibraryTree) where
  any-cons-cases :
      (e : CatEntry) (es entries : List CatEntry)
      → ok (e ∷ es) ≡ ok entries
      → any p entries ≡ true
      → (p e ≡ true) ⊎ (any p es ≡ true)
  unfolding any
  any-cons-cases e es entries h k = ground arith

  Tells-here :
      (dir : List Text) (name : Text) (node : Node) (rest : Children)
      → TellsFrom p tree (dir ++ name ∷ []) node
      → Tells p tree dir (entry name node rest)
  Tells-here dir name node rest (inl (e, t, k)) =
      (dir ++ name ∷ [], node, e, here dir name node rest, t, k)
  Tells-here dir name node rest (inr (canonical, has_metadata, children, n, c, tells)) =
      let (path, found, e, s, t, k) = tells in
      (
        path,
        found,
        e,
        subst (λ n. Seen tree dir (entry name n rest) path found) (sym n) (inside c s),
        t,
        k,
      )

  mutual
    unfolding scan_cat_entry scan_cat_dir told

    told_sound :
        (path : List Text) (node : Node) (entries : List CatEntry)
        → scan_cat_entry tree path node ≡ ok entries
        → any p entries ≡ true
        → TellsFrom p tree path node
    told_sound path file entries h k = inl (_, refl, any-single p _ entries h k)
    told_sound path other entries h k = absurd (any-none p entries h k)
    told_sound path (symlink target) entries h k = inl (_, refl, any-single p _ entries h k)
    told_sound path (faulty kind m) entries h k = absurd (ground arith)
    told_sound path (locked canonical has_metadata m) entries h k =
        elim (Bool-cases (is_under_all tree canonical)) [
          | inl u ↦ inl (
            _,
            ground arith,
            any-single p (linked tree path item_link canonical) entries (ground arith) k,
          )
          | inr u ↦ elim (Bool-cases (is_some (category_for path) && has_metadata)) [
            | inl c ↦ inl (
              cat_entry tree path real_directory_candidate none,
              ground arith,
              any-single p (cat_entry tree path real_directory_candidate none) entries
                  (ground arith) k,
            )
            | inr c ↦ absurd (ground arith)
          ]
        ]
    told_sound path (directory canonical has_metadata children) entries h k =
        let r = directory_entry tree path canonical has_metadata children in
        let (found, t, shape) = enter-cases r (scan_cat_dir tree path children) entries h in
        elim shape [
          | inl whole ↦ inl (found, t, any-single p found entries (ap ok (sym whole)) k)
          | inr (c, below, b, whole) ↦
              elim (any-cons-cases found below entries (ap ok (sym whole)) k) [
                | inl f ↦ inl (found, t, f)
                | inr f ↦ inr (
                  canonical,
                  has_metadata,
                  children,
                  refl,
                  c,
                  Tells-sound path children below b f,
                )
              ]
        ]

    pub Tells-sound :
        (dir : List Text) (children : Children) (entries : List CatEntry)
        → scan_cat_dir tree dir children ≡ ok entries
        → any p entries ≡ true
        → Tells p tree dir children
    Tells-sound dir end entries h k = absurd (any-none p entries h k)
    Tells-sound dir (failing m) entries h k = absurd (ground arith)
    Tells-sound dir (entry name node rest) entries h k =
        let (first, f, g) = reached (scan_cat_entry tree (dir ++ name ∷ []) node) _ h in
        let (others, o, joined) = reached (scan_cat_dir tree dir rest) _ g in
        elim (any-append-cases p first others (ground arith)) [
          | inl a ↦ Tells-here dir name node rest (told_sound (dir ++ name ∷ []) node first f a)
          | inr a ↦
              let (path, found, e, s, t, u) = Tells-sound dir rest others o a in
              (path, found, e, later s, t, u)
        ]

  told_complete :
      (path : List Text) (node : Node) (entries : List CatEntry) (e : CatEntry)
      → scan_cat_entry tree path node ≡ ok entries
      → told tree path node ≡ some e
      → p e ≡ true
      → any p entries ≡ true
  unfolding scan_cat_entry told any
  told_complete path file entries e h t k = ground arith
  told_complete path other entries e h t k = ground arith
  told_complete path (symlink target) entries e h t k = ground arith
  told_complete path (faulty kind m) entries e h t k = ground arith
  told_complete path (locked canonical has_metadata m) entries e h t k = ground arith
  told_complete path (directory canonical has_metadata children) entries e h t k =
      let r = directory_entry tree path canonical has_metadata children in
      let (found, own, shape) = enter-cases r (scan_cat_dir tree path children) entries h in
      elim shape [ inl whole ↦ ground arith | inr (c, below, b, whole) ↦ ground arith ]

  pub Seen-complete :
      (dir : List Text) (children : Children) (entries : List CatEntry) (path : List Text)
      (node : Node) (e : CatEntry)
      → scan_cat_dir tree dir children ≡ ok entries
      → Seen tree dir children path node
      → told tree path node ≡ some e
      → p e ≡ true
      → any p entries ≡ true
  unfolding scan_cat_dir
  Seen-complete dir _ entries _ _ e h (here _ name node rest) t k =
      let (first, f, g) = reached (scan_cat_entry tree (dir ++ name ∷ []) node) _ h in
      let (others, o, joined) = reached (scan_cat_dir tree dir rest) _ g in
      let found = told_complete (dir ++ name ∷ []) node first e f t k in
      ground (arith, any-append p first others)
  Seen-complete dir _ entries path node e h (later {name = name} {node = n} {rest = rest} s) t k =
      let (first, f, g) = reached (scan_cat_entry tree (dir ++ name ∷ []) n) _ h in
      let (others, o, joined) = reached (scan_cat_dir tree dir rest) _ g in
      let found = Seen-complete dir rest others path node e o s t k in
      ground (arith, any-append p first others)
  Seen-complete dir _ entries path node e h
        (inside {name = name} {canonical = canonical} {has_metadata = has_metadata}
          {children = children} {rest = rest} c s)
        t k =
      let at = dir ++ name ∷ [] in
      let r = directory_entry tree at canonical has_metadata children in
      let (first, f, g) =
        reached (scan_cat_entry tree at (directory canonical has_metadata children)) _ h in
      let (others, o, joined) = reached (scan_cat_dir tree dir rest) _ g in
      let (own, below, b, i) = enter-below r (scan_cat_dir tree at children) first f c in
      let found = Seen-complete at children below path node e b s t k in
      ground (arith, any-append p first others)
