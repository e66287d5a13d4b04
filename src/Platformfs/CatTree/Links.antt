-- ===== src/Platformfs/CatTree/Links.antt =====
-- What making and removing a link do to the tree below `Cat/`.
use localref.Base.{
  Text, Result, err, subst, ◌≡◌, refl, sym, ◌∙◌, ◌⊎◌, List, [], ◌∷◌, ◌++◌, Bool, true, not, Option,
  none, some, find, retain, retain-append, append-nil, str_eq, str_eq_iff, str_eq_refl, ok, reached,
  arith, Bool-cases, inl, inr,
}
use localref.Types.CategoryPath.{CategoryPath}
use localref.Platformfs.Component.{sanitize_ntfs_component}
use localref.Platformfs.CatTree.Paths.{path_eq_refl}
use localref.Platformfs.CatTree.{
  Link, CatTree, category_dir, create_dir_all, has_directory, find_link, is_at, link_at,
  made_or_kept, named_link, linked_in, unlink_at, drop_link, create_category_link_named,
  remove_category_link,
}

module _ {A : Type 0} (p : A → Bool) where
  find-last : (xs : List A) (y : A) → find p xs ≡ none → p y ≡ true → find p (xs ++ y ∷ []) ≡ some y
  unfolding find
  find-last [] y h own = rw own
  find-last (x ∷ xs) y h own = ground (arith, find-last xs y)

  find-retain : (xs : List A) → find p (retain (λ x. not (p x)) xs) ≡ none
  unfolding find retain
  find-retain [] = refl
  find-retain (x ∷ xs) = ground (arith, find-retain xs)

  retain-none : (xs : List A) → find p xs ≡ none → retain (λ x. not (p x)) xs ≡ xs
  unfolding find retain
  retain-none [] h = refl
  retain-none (x ∷ xs) h = ground (arith, retain-none xs)

-- The link that a call makes.
abbrev pub link_to : List Text → Text → Text → Link
link_to path name target = record { directory = path; name = name; target = target }

at-own : (path : List Text) (name target : Text) → is_at path name (link_to path name target) ≡ true
at-own path name target = ground (arith, path_eq_refl path, str_eq_refl name)

-- A call that succeeds found its link, or made it where nothing stood.
Made : List Text → Text → Text → CatTree → CatTree → Type 0
Made path name target tree tree' =
    ((link : Link) × (find_link path name tree ≡ some link)
      × (link.target ≡ target)
      × (tree' ≡ tree))
    ⊎ ((find_link path name tree ≡ none)
        × (tree' ≡ record tree { links = tree.links ++ link_to path name target ∷ [] }))

link_at-Made :
    (path : List Text) (name target : Text) (o : Option Link) (tree tree' : CatTree)
    → find_link path name tree ≡ o
    → link_at path name target o tree ≡ ok tree'
    → Made path name target tree tree'
unfolding Made
link_at-Made path name target (some link) tree tree' e h =
    elim (Bool-cases (str_eq link.target target)) [
      | inl same ↦ inl (link, e, ground (arith, str_eq_iff link.target target), ground arith)
      | inr other ↦ absurd (ground arith)
    ]
link_at-Made path name target none tree tree' e h =
    elim (Bool-cases (has_directory (path ++ name ∷ []) tree)) [
      | inl taken ↦ absurd (ground arith)
      | inr free ↦ inr (e, ground arith)
    ]

find_link-create_dir_all :
    (path : List Text) (name : Text) (p : List Text) (tree : CatTree)
    → find_link path name (create_dir_all p tree) ≡ find_link path name tree
unfolding find_link create_dir_all
find_link-create_dir_all path name p tree = refl

-- The link that stands where the code looks for it.
abbrev pub Stands : List Text → Text → Text → CatTree → Type 0
Stands path name target tree =
    (link : Link) × (find_link path name tree ≡ some link) × (link.target ≡ target)

Made-Stands :
    (path : List Text) (name target : Text) (tree tree' : CatTree)
    → Made path name target tree tree'
    → Stands path name target tree'
unfolding Made find find_link
Made-Stands path name target tree tree' (inl (link, e, own, same)) = (link, rw same e, own)
Made-Stands path name target tree tree' (inr (e, made)) = (
  link_to path name target,
  rw made (
      find-last (is_at path name) tree.links (link_to path name target) e
        (at-own path name target)),
  refl,
)

made-through :
    (base tree' : CatTree) (r : Result CatTree)
    → made_or_kept base r ≡ (ok tt, tree')
    → r ≡ ok tree'
made-through base tree' (ok tree) h = ground arith
made-through base tree' (err problem) h = cc

linked_in-through :
    (entry_name target : Text) (tree tree' : CatTree) (r : Result (List Text))
    → linked_in entry_name target tree r ≡ (ok tt, tree')
    → (path : List Text) × (r ≡ ok path)
      × (named_link path entry_name target (create_dir_all path tree) ≡ ok tree')
linked_in-through entry_name target tree tree' (err problem) h = cc
linked_in-through entry_name target tree tree' (ok path) h =
    let base = create_dir_all path tree in
    (path, refl, made-through base tree' (named_link path entry_name target base) h)

created-through :
    (category : CategoryPath) (entry_name target : Text) (tree tree' : CatTree)
    → create_category_link_named category entry_name target tree ≡ (ok tt, tree')
    → (path : List Text) × (category_dir category ≡ ok path)
      × (named_link path entry_name target (create_dir_all path tree) ≡ ok tree')
unfolding create_category_link_named
created-through category entry_name target tree tree' h =
    linked_in-through entry_name target tree tree' (category_dir category) h

-- A link that is made, or that stood there, stands at the sanitized path of its category, and points
-- to its item.
pub create_category_link-Stands :
    (category : CategoryPath) (entry_name target : Text) (tree tree' : CatTree)
    → create_category_link_named category entry_name target tree ≡ (ok tt, tree')
    → (path : List Text) × (name : Text) × (category_dir category ≡ ok path)
      × (sanitize_ntfs_component entry_name ≡ ok name)
      × Stands path name target tree'
unfolding create_category_link_named
create_category_link-Stands category entry_name target tree tree' h =
    let (path, e, h1) = created-through category entry_name target tree tree' h in
    let (name, e', h2) = reached (sanitize_ntfs_component entry_name) _ h1 in
    (
      path,
      name,
      e,
      e',
      Made-Stands path name target (create_dir_all path tree) tree' (
          link_at-Made path name target (find_link path name (create_dir_all path tree))
            (create_dir_all path tree) tree' refl h2),
    )

remove-last :
    (p : Link → Bool) (links : List Link) (link : Link)
    → find p links ≡ none
    → p link ≡ true
    → retain (λ x. not (p x)) (links ++ link ∷ []) ≡ links
unfolding retain
remove-last p links link h own =
    retain-append (λ x. not (p x)) links (link ∷ []) ∙ rw (retain-none p links h, own, append-nil)

unlink-made :
    (lives : Text → Bool) (path : List Text) (name target : Text) (tree : CatTree)
    → find_link path name tree ≡ none
    → lives target ≡ true
    → let tree' = record tree { links = tree.links ++ link_to path name target ∷ [] } in
      unlink_at lives path name (find_link path name tree') tree' ≡ ok (true, tree)
unfolding find_link drop_link
unlink-made lives path name target tree absent there = rw (
  find-last (is_at path name) tree.links (link_to path name target) absent
      (at-own path name target),
  there,
  remove-last (is_at path name) tree.links (link_to path name target) absent
      (at-own path name target),
)

-- When a link is made where none stood, and its item is there, removing it succeeds and gives back
-- the links as they were; only the directories on its path stay.
pub remove_category_link-create :
    (lives : Text → Bool) (category : CategoryPath) (entry_name target : Text) (path : List Text)
    (name : Text) (tree tree' : CatTree)
    → category_dir category ≡ ok path
    → sanitize_ntfs_component entry_name ≡ ok name
    → find_link path name tree ≡ none
    → lives target ≡ true
    → create_category_link_named category entry_name target tree ≡ (ok tt, tree')
    → remove_category_link lives category entry_name tree' ≡ ok (true, create_dir_all path tree)
unfolding create_category_link_named remove_category_link Made
remove_category_link-create lives category entry_name target path name tree tree' e e' absent there
      h =
    let base : CatTree = create_dir_all path tree in
    let none_there : find_link path name base ≡ none =
      find_link-create_dir_all path name path tree ∙ absent in
    let (path', found, made) = created-through category entry_name target tree tree' h in
    let same : path ≡ path' = ground arith in
    let h' : named_link path entry_name target base ≡ ok tree' =
      subst (λ p. named_link p entry_name target (create_dir_all p tree) ≡ ok tree') (sym same)
        made in
    let called : named_link path entry_name target base
        ≡ link_at path name target (find_link path name base) base =
      rw e' in
    elim (link_at-Made path name target (find_link path name base) base tree' refl
      (sym called ∙ h')) [
        | inl (link, found, _, _) ↦ absurd (ground (arith, none_there, found))
        | inr (_, made) ↦
            rw (e, e', made) (unlink-made lives path name target base none_there there)
      ]
