-- ===== src/Platformfs/Merging/Outcome.antt =====
-- What `merge_category` of crates/core/src/platformfs/mod.rs comes to.
use localref.Base.{
  ◌≡◌, refl, sym, subst, ◌∙◌, ◌⊎◌, Text, List, [], ◌∷◌, ◌++◌, Bool, true, false, not, ◌||◌,
  if◌then◌else◌, Option, none, some, any, retain, contains, str_eq, str_eq_iff, str_eq_refl, Result,
  ok, err, is_ok, arith, Bool-cases, inl, inr, any-append,
}
use localref.Types.CategoryPath.{CategoryPath}
use localref.Platformfs.CatTree.{
  Link, CatTree, category_dir, has_directory, create_dir_all, add_directories,
}
use localref.Platformfs.CatTree.Paths.{path_eq, path_eq_iff, path_eq_refl, prefixes}
use localref.Platformfs.Merging.{
  is_some, child_name, link_names, child_names, prepend, read_dir, stands, is_live, is_entry,
  move_entries, is_empty_dir, remove_dir, merge_dirs, merge_category,
}
use localref.Platformfs.Merging.Shared.{any-implied}
use localref.Platformfs.Merging.Loop.{move_entries-Both, move_entries-moves}
use localref.Library.State.Actions.{continue, through}

child_name-own : (p : List Text) (n : Text) → child_name p (p ++ n ∷ []) ≡ some n
unfolding child_name
child_name-own [] n = refl
child_name-own (a ∷ p) n = ground (arith, str_eq_refl a, child_name-own p n)

child_name-eq :
    (p : List Text) (n : Text) (d : List Text)
    → path_eq (p ++ n ∷ []) d ≡ true
    → child_name p d ≡ some n
child_name-eq p n d h =
    subst (λ x. child_name p x ≡ some n) ((path_eq_iff (p ++ n ∷ []) d).0 h) (child_name-own p n)

not-is_empty_dir :
    (p : List Text) (n : Text) (tree : CatTree)
    → is_entry p n tree ≡ true
    → is_empty_dir p tree ≡ false
unfolding stands has_directory is_empty_dir
not-is_empty_dir p n tree h = ground (
  arith,
  any-implied (is_live (λ _. true) p n) (λ (link : Link). path_eq p link.directory) tree.links
      (λ link own. ground arith),
  any-implied (path_eq (p ++ n ∷ [])) (λ d. is_some (child_name p d)) tree.directories
      (λ d own. rw (child_name-eq p n d own) refl),
)

contains-link_names :
    (p : List Text) (n : Text) (links : List Link)
    → any (is_live (λ _. true) p n) links ≡ true
    → contains (link_names p links) n ≡ true
unfolding any contains link_names
contains-link_names p n [] h = cc
contains-link_names p n (link ∷ links) h =
    ground (arith, contains-link_names p n links, str_eq_iff n link.name, str_eq_refl n)

contains-child_names :
    (p : List Text) (n : Text) (ds : List (List Text))
    → any (path_eq (p ++ n ∷ [])) ds ≡ true
    → contains (child_names p ds) n ≡ true
unfolding any contains child_names
contains-child_names p n [] h = cc
contains-child_names p n (d ∷ ds) h = elim (Bool-cases (path_eq (p ++ n ∷ []) d)) [
  | inl own ↦ rw (child_name-eq p n d own) (ground (arith, str_eq_refl n))
  | inr other ↦ in_rest (child_name p d) (contains-child_names p n ds (ground arith))
]
  where
    in_rest :
        (o : Option Text)
        → contains (child_names p ds) n ≡ true
        → contains (prepend o (child_names p ds)) n ≡ true
    in_rest none k = k
    in_rest (some name) k = ground (arith, k)

contains-read_dir :
    (p : List Text) (n : Text) (tree : CatTree)
    → is_entry p n tree ≡ true
    → contains (read_dir p tree) n ≡ true
unfolding stands has_directory read_dir contains
contains-read_dir p n tree h =
    any-append (λ x. str_eq x n) (link_names p tree.links) (child_names p tree.directories)
    ∙ ground (arith, contains-link_names p n tree.links, contains-child_names p n tree.directories)

any-add_directories :
    (q : List Text → Bool) (ps ds : List (List Text))
    → any q ds ≡ true
    → any q (add_directories ps ds) ≡ true
unfolding add_directories
any-add_directories q [] ds h = h
any-add_directories q (p ∷ ps) ds h =
    any-add_directories q ps (if any (path_eq p) ds then ds else ds ++ p ∷ [])
      (ground (arith, any-append q ds (p ∷ [])))

stands-create_dir_all :
    (lives : Text → Bool) (p q : List Text) (n : Text) (tree : CatTree)
    → stands lives p n tree ≡ true
    → stands lives p n (create_dir_all q tree) ≡ true
unfolding stands has_directory create_dir_all
stands-create_dir_all lives p q n tree h =
    ground (arith, any-add_directories (path_eq (p ++ n ∷ [])) (prefixes q) tree.directories)

has_directory-create_dir_all :
    (p q : List Text) (tree : CatTree)
    → has_directory p tree ≡ true
    → has_directory p (create_dir_all q tree) ≡ true
unfolding has_directory create_dir_all
has_directory-create_dir_all p q tree h =
    any-add_directories (path_eq p) (prefixes q) tree.directories h

remove_dir-fails :
    (p : List Text) (n : Text) (r : Result (Unit {0}) × CatTree)
    → is_entry p n r.1 ≡ true
    → is_ok (continue r (λ _. remove_dir p)).0 ≡ false
unfolding remove_dir
remove_dir-fails p n (ok a, tree) h = rw (not-is_empty_dir p n tree h) refl
remove_dir-fails p n (err problem, tree) h = refl

done-eq : (r : Result (Unit {0}) × CatTree) → is_ok r.0 ≡ true → r ≡ (ok tt, r.1)
done-eq (ok a, tree) h = refl
done-eq (err problem, tree) h = cc

not-has_directory-retain :
    (p : List Text) (ds : List (List Text))
    → any (path_eq p) (retain (λ d. not (path_eq p d)) ds) ≡ false
unfolding any retain
not-has_directory-retain p [] = refl
not-has_directory-retain p (d ∷ ds) = ground (arith, not-has_directory-retain p ds)

any-retain_other :
    (p q : List Text) (ds : List (List Text))
    → path_eq q p ≡ false
    → any (path_eq p) ds ≡ true
    → any (path_eq p) (retain (λ d. not (path_eq q d)) ds) ≡ true
unfolding any retain
any-retain_other p q [] other h = cc
any-retain_other p q (d ∷ ds) other h =
    ground (arith, any-retain_other p q ds, path_eq_iff p d, path_eq_iff q d, path_eq_refl p)

remove_dir-done :
    (p q : List Text) (n : Text) (tree u : CatTree)
    → path_eq p (q ++ n ∷ []) ≡ false
    → is_entry q n tree ≡ true
    → remove_dir p tree ≡ (ok tt, u)
    → (is_entry q n u ≡ true) × (has_directory p u ≡ false)
unfolding remove_dir stands has_directory
remove_dir-done p q n tree u other h done = elim (Bool-cases (is_empty_dir p tree)) [
  | inl empty ↦
      let ds = retain (λ d. not (path_eq p d)) tree.directories in
      let e : record tree { directories = ds } ≡ u = ground arith in
      subst
        (λ t.
          ((any (is_live (λ _. true) q n) t.links || any (path_eq (q ++ n ∷ [])) t.directories)
            ≡ true)
          × (any (path_eq p) t.directories ≡ false))
        e
        (
          ground (arith, any-retain_other (q ++ n ∷ []) p tree.directories other),
          not-has_directory-retain p tree.directories,
        )
  | inr full ↦ absurd (ground arith)
]

module _ (lives : Text → Bool) (from to : List Text) (n : Text) (tree : CatTree)
    (there : has_directory from tree ≡ true) (source : is_entry from n tree ≡ true) where
  merge_dirs-there :
      merge_dirs lives from to tree
      ≡ continue
          (move_entries lives from to
            (read_dir from (create_dir_all to tree))
            (create_dir_all to tree))
          (λ _. remove_dir from)
  unfolding merge_dirs
  merge_dirs-there = rw (has_directory-create_dir_all from to tree there)

  merge_dirs-shared :
      stands lives to n tree ≡ true → is_ok (merge_dirs lives from to tree).0 ≡ false
  unfolding merge_dirs
  merge_dirs-shared target =
      let tree' = create_dir_all to tree in
      rw (has_directory-create_dir_all from to tree there) (
        remove_dir-fails from n (move_entries lives from to (read_dir from tree') tree')
          (move_entries-Both lives from to n (read_dir from tree') tree' (
            stands-create_dir_all (λ _. true) from to n tree source,
            stands-create_dir_all lives to to n tree target,
          )).0)

  not_own : is_ok (merge_dirs lives from to tree).0 ≡ true → path_eq from (to ++ n ∷ []) ≡ false
  unfolding stands
  not_own done = elim (Bool-cases (path_eq from (to ++ n ∷ []))) [
    | inl own ↦
        let e : from ≡ to ++ n ∷ [] = (path_eq_iff from (to ++ n ∷ [])).0 own in
        let below : has_directory (to ++ n ∷ []) tree ≡ true =
          subst (λ p. has_directory p tree ≡ true) e there in
        absurd (ground (arith, merge_dirs-shared (ground arith)))
    | inr other ↦ other
  ]

  merge_dirs-done :
      is_ok (merge_dirs lives from to tree).0 ≡ true
      → (is_entry to n (merge_dirs lives from to tree).1 ≡ true)
        × (has_directory from (merge_dirs lives from to tree).1 ≡ false)
  merge_dirs-done done =
      let tree' = create_dir_all to tree in
      let names = read_dir from tree' in
      let u = (merge_dirs lives from to tree).1 in
      let chain : continue (move_entries lives from to names tree') (λ _. remove_dir from)
          ≡ (ok tt, u) =
        sym merge_dirs-there ∙ done-eq (merge_dirs lives from to tree) done in
      let (_, t, moved, removed) =
        through (move_entries lives from to names tree') (λ _. remove_dir from) chain in
      let source' = stands-create_dir_all (λ _. true) from to n tree source in
      remove_dir-done from to n t u (not_own done)
        (move_entries-moves lives from to n names tree' t (contains-read_dir from n tree' source')
          source' moved)
        removed

merge_category-dirs :
    (lives : Text → Bool) (from to : CategoryPath) (from_path to_path : List Text) (tree : CatTree)
    → category_dir from ≡ ok from_path
    → category_dir to ≡ ok to_path
    → merge_category lives from to tree ≡ merge_dirs lives from_path to_path tree
unfolding merge_category
merge_category-dirs lives from to from_path to_path tree e e' = rw (e, e', merge_category)

merge_dirs-outcome :
    (lives : Text → Bool) (from to : List Text) (n : Text) (tree : CatTree)
    → has_directory from tree ≡ true
    → is_entry from n tree ≡ true
    → let (result, tree') = merge_dirs lives from to tree in
      (is_ok result ≡ false)
      ⊎ ((stands lives to n tree ≡ false)
          × (is_entry to n tree' ≡ true)
          × (has_directory from tree' ≡ false))
merge_dirs-outcome lives from to n tree there source =
    elim (Bool-cases (is_ok (merge_dirs lives from to tree).0)) [
      | inr fails ↦ inl fails
      | inl done ↦
          let (target, gone) = merge_dirs-done lives from to n tree there source done in
          inr (ground (arith, merge_dirs-shared lives from to n tree there source), target, gone)
    ]

-- For an entry of the source of a merge, where both paths are safe and the source is a directory: the
-- merge fails, or the name led to nothing in the target before, is an entry of the target afterwards,
-- and the directory of the source is gone. So a merge always fails where an entry of the source has a
-- name that leads to something in the target, as the link of an item does that is in both categories
-- when its directory is there.
pub merge_category-outcome :
    (lives : Text → Bool) (from to : CategoryPath) (from_path to_path : List Text) (n : Text)
    (tree : CatTree)
    → category_dir from ≡ ok from_path
    → category_dir to ≡ ok to_path
    → has_directory from_path tree ≡ true
    → is_entry from_path n tree ≡ true
    → let (result, tree') = merge_category lives from to tree in
      (is_ok result ≡ false)
      ⊎ ((stands lives to_path n tree ≡ false)
          × (is_entry to_path n tree' ≡ true)
          × (has_directory from_path tree' ≡ false))
merge_category-outcome lives from to from_path to_path n tree e e' there source =
    rw (merge_category-dirs lives from to from_path to_path tree e e')
      (merge_dirs-outcome lives from_path to_path n tree there source)
