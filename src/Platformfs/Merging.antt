-- ===== src/Platformfs/Merging.antt =====
-- `LibraryFs::merge_category` of crates/core/src/platformfs/mod.rs on the tree below `Cat/`. Of the
-- operating system, a Unix, it has the failures that the tree decides: of a rename, and that only an
-- empty directory can be removed. `lives` says which targets of links are there; neither category is
-- a link.
pub mod Shared
pub mod Loop
pub mod Outcome
use localref.Base.{
  Text, text, List, [], ◌∷◌, ◌++◌, map, Bool, true, false, not, ◌&&◌, ◌||◌, if◌then◌else◌, Option,
  none, some, any, retain, str_eq, Result, ok, err, io,
}
use localref.Types.CategoryPath.{CategoryPath}
use localref.Platformfs.CatTree.{Link, CatTree, category_dir, has_directory, create_dir_all, is_at}
use localref.Platformfs.CatTree.Paths.{path_eq}
use localref.Library.State.Actions.{Action, ◌>>=◌, return}

-- `strip_prefix` on the components
unfoldable pub strip_path : List Text → List Text → Option (List Text)
strip_path [] path = some path
strip_path (p ∷ ps) [] = none
strip_path (p ∷ ps) (c ∷ path) = let rest = strip_path ps path in if str_eq p c then rest else none

abbrev pub is_some {ℓ} : {A : Type ℓ} → Option A → Bool
is_some none = false
is_some (some _) = true

-- The name of a directory that stands directly in another.
unfoldable pub child_name : List Text → List Text → Option Text
child_name [] (name ∷ []) = some name
child_name [] _ = none
child_name (p ∷ ps) [] = none
child_name (p ∷ ps) (c ∷ path) = let rest = child_name ps path in if str_eq p c then rest else none

unfoldable pub link_names : List Text → List Link → List Text
link_names path [] = []
link_names path (link ∷ links) =
    let rest = link_names path links in
    if path_eq path link.directory then link.name ∷ rest else rest

abbrev pub prepend : Option Text → List Text → List Text
prepend none names = names
prepend (some name) names = name ∷ names

unfoldable pub child_names : List Text → List (List Text) → List Text
unfolding child_name
child_names path [] = []
child_names path (d ∷ ds) = prepend (child_name path d) (child_names path ds)

-- `fs::read_dir`
unfoldable pub read_dir : List Text → CatTree → List Text
unfolding link_names child_names
read_dir path tree = link_names path tree.links ++ child_names path tree.directories

abbrev pub is_live : (Text → Bool) → List Text → Text → Link → Bool
is_live lives path name link = is_at path name link && lives link.target

-- `exists` of a name in a directory, which follows links: `lives` says which targets are there.
unfoldable pub stands : (Text → Bool) → List Text → Text → CatTree → Bool
unfolding any has_directory
stands lives path name tree =
    any (is_live lives path name) tree.links || has_directory (path ++ name ∷ []) tree

-- Whether a directory has an entry of the name, also one that leads nowhere.
abbrev pub is_entry : List Text → Text → CatTree → Bool
is_entry = stands (λ _. true)

abbrev pub moved : List Text → Text → List Text → Option (List Text) → List Text
moved to name path none = path
moved to name path (some rest) = to ++ name ∷ rest

abbrev pub moved_path : List Text → List Text → Text → List Text → List Text
moved_path from to name path = moved to name path (strip_path (from ++ name ∷ []) path)

abbrev pub moved_link : List Text → List Text → Text → Link → Link
moved_link from to name link =
    if is_at from name link
    then record link { directory = to }
    else record link { directory = moved_path from to name link.directory }

-- `fs::rename` of an entry, with all below it
unfoldable pub rename_entry : List Text → List Text → Text → CatTree → CatTree
unfolding strip_path
rename_entry from to name tree = record {
  directories = map (moved_path from to name) tree.directories;
  links = map (moved_link from to name) tree.links;
}

-- A link at the new place gives way, unless it is the entry itself.
unfoldable pub replaced_entry : List Text → List Text → Text → CatTree → CatTree
unfolding retain
replaced_entry from to name tree =
    if path_eq from to
    then tree
    else record tree { links = retain (λ link. not (is_at to name link)) tree.links }

-- What `fs::rename` refuses: a directory into itself, what is not there, and a directory over a link.
unfoldable pub is_refused : List Text → List Text → Text → CatTree → Bool
unfolding stands strip_path has_directory
is_refused from to name tree =
    is_some (strip_path (from ++ name ∷ []) to)
    || not (is_entry from name tree)
    || is_entry to name tree && has_directory (from ++ name ∷ []) tree

-- One turn of the loop.
unfoldable pub move_entry : (Text → Bool) → List Text → List Text → Text → Action CatTree (Unit {0})
unfolding is_refused replaced_entry rename_entry
move_entry lives from to name tree =
    if stands lives to name tree
    then (ok tt, tree)
    else if is_refused from to name tree
    then (err (io name (text "cannot be renamed")), tree)
    else (ok tt, rename_entry from to name (replaced_entry from to name tree))

unfoldable pub move_entries :
    (Text → Bool) → List Text → List Text → List Text → Action CatTree (Unit {0})
unfolding move_entry
move_entries lives from to [] = return tt
move_entries lives from to (name ∷ names) =
    move_entry lives from to name >>= λ _. move_entries lives from to names

unfoldable pub is_empty_dir : List Text → CatTree → Bool
unfolding any child_name
is_empty_dir path tree =
    not (any (λ (link : Link). path_eq path link.directory) tree.links)
    && not (any (λ d. is_some (child_name path d)) tree.directories)

-- `fs::remove_dir`
unfoldable pub remove_dir : List Text → Action CatTree (Unit {0})
unfolding is_empty_dir retain
remove_dir path tree =
    if is_empty_dir path tree
    then (ok tt, record tree { directories = retain (λ d. not (path_eq path d)) tree.directories })
    else (err (io (text "Cat") (text "directory not empty")), tree)

unfoldable pub merge_dirs : (Text → Bool) → List Text → List Text → Action CatTree (Unit {0})
unfolding move_entries remove_dir create_dir_all read_dir
merge_dirs lives from_path to_path tree =
    let tree' = create_dir_all to_path tree in
    if not (has_directory from_path tree')
    then (ok tt, tree')
    else (move_entries lives from_path to_path (read_dir from_path tree') >>= λ _.
          remove_dir from_path)
        tree'

unfoldable pub merge_category :
    (Text → Bool) → CategoryPath → CategoryPath → Action CatTree (Unit {0})
unfolding merge_dirs
merge_category lives from to tree = elim (category_dir from) [
  | err problem ↦ (err problem, tree)
  | ok from_path ↦ elim (category_dir to) [
    | err problem ↦ (err problem, tree)
    | ok to_path ↦ merge_dirs lives from_path to_path tree
  ]
]
