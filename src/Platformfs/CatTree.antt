-- ===== src/Platformfs/CatTree.antt =====
-- The tree below `Cat/` as `LibraryFs` of crates/core/src/platformfs/mod.rs sees it: directories, and
-- links to item directories. Failures of the operating system are left out, and errors show the name
-- of a link where the code shows its full path.
pub mod Paths
pub mod Links
use localref.Base.{
  Text, List, [], ◌∷◌, ◌++◌, map, Bool, true, false, not, ◌&&◌, if◌then◌else◌, Option, none, some,
  find, retain, str_eq, any, Result, ok, err, ◌>>=◌, invalid_path_component, platform, text,
}
use localref.Types.CategoryPath.{CategoryPath, components}
use localref.Platformfs.Component.{sanitize_ntfs_component}
use Paths.{path_eq, prefixes}

-- A link in a directory below `Cat/`, with its name and the item directory below `All/`.
pub record Link : Type 0 where
  pub directory : List Text
  pub name : Text
  pub target : Text

pub record CatTree : Type 0 where
  pub directories : List (List Text)
  pub links : List Link

-- `path.push(sanitize_ntfs_component(component)?)` over the components
unfoldable pub sanitize_components : List Text → Result (List Text)
sanitize_components [] = ok []
sanitize_components (c ∷ cs) = do
  name ← sanitize_ntfs_component c
  path ← sanitize_components cs
  ok (name ∷ path)

unfoldable pub category_dir : CategoryPath → Result (List Text)
unfolding sanitize_components components
category_dir category = sanitize_components (components category)

unfoldable pub has_directory : List Text → CatTree → Bool
unfolding any
has_directory path tree = any (path_eq path) tree.directories

unfoldable pub add_directories : List (List Text) → List (List Text) → List (List Text)
unfolding any
add_directories [] ds = ds
add_directories (p ∷ ps) ds = add_directories ps (if any (path_eq p) ds then ds else ds ++ p ∷ [])

-- `fs::create_dir_all`
unfoldable pub create_dir_all : List Text → CatTree → CatTree
unfolding add_directories prefixes
create_dir_all path tree = record tree {
  directories = add_directories (prefixes path) tree.directories;
}

abbrev pub is_at : List Text → Text → Link → Bool
is_at path name link = path_eq path link.directory && str_eq name link.name

unfoldable pub find_link : List Text → Text → CatTree → Option Link
unfolding find
find_link path name tree = find (is_at path name) tree.links

unfoldable pub create_category_dir : CategoryPath → CatTree → Result CatTree
unfolding create_dir_all
create_category_dir category tree = do path ← category_dir category; ok (create_dir_all path tree)

-- What stands at the path of the link already.
abbrev pub link_at : List Text → Text → Text → Option Link → CatTree → Result CatTree
link_at path name target (some link) tree =
    if str_eq link.target target
    then ok tree
    else err (invalid_path_component name "category link path exists with a different target")
link_at path name target none tree =
    if has_directory (path ++ name ∷ []) tree
    then err (invalid_path_component name "category link path exists with a different target")
    else ok (record tree {
      links = tree.links ++ record { directory = path; name = name; target = target } ∷ [];
    })

-- What comes of the tree with the directories made: they stay when the link fails.
abbrev pub made_or_kept : CatTree → Result CatTree → Result (Unit {0}) × CatTree
made_or_kept base (ok tree) = (ok tt, tree)
made_or_kept base (err problem) = (err problem, base)

abbrev pub named_link : List Text → Text → Text → CatTree → Result CatTree
named_link path entry_name target base = sanitize_ntfs_component entry_name >>= λ name.
    link_at path name target (find_link path name base) base

abbrev pub linked_in : Text → Text → CatTree → Result (List Text) → Result (Unit {0}) × CatTree
linked_in entry_name target tree (err problem) = (err problem, tree)
linked_in entry_name target tree (ok path) =
    let base = create_dir_all path tree in
    made_or_kept base (named_link path entry_name target base)

unfoldable pub create_category_link_named :
    CategoryPath → Text → Text → CatTree → Result (Unit {0}) × CatTree
unfolding create_dir_all
create_category_link_named category entry_name target tree =
    linked_in entry_name target tree (category_dir category)

-- `create_category_link`: the link has the name of the item's directory.
unfoldable pub create_category_link : CategoryPath → Text → CatTree → Result (Unit {0}) × CatTree
unfolding create_dir_all
create_category_link category item_dir tree =
    create_category_link_named category item_dir item_dir tree

-- `remove_dir` of the link
unfoldable pub drop_link : List Text → Text → CatTree → CatTree
unfolding retain
drop_link path name tree = record tree {
  links = retain (λ link. not (is_at path name link)) tree.links;
}

-- What stands at the path of the link to remove: a link whose target is gone does not exist for
-- `Path::exists`, and a directory is not an item.
abbrev pub unlink_at :
    (Text → Bool) → List Text → Text → Option Link → CatTree → Result (Bool × CatTree)
unlink_at lives path name (some link) tree =
    if lives link.target then ok (true, drop_link path name tree) else ok (false, tree)
unlink_at lives path name none tree =
    if has_directory (path ++ name ∷ []) tree
    then err (invalid_path_component name "category links must target an All/ item directory")
    else ok (false, tree)

unfoldable pub remove_category_link :
    (Text → Bool) → CategoryPath → Text → CatTree → Result (Bool × CatTree)
unfolding drop_link
remove_category_link lives category entry_name tree = do
  path ← category_dir category
  name ← sanitize_ntfs_component entry_name
  unlink_at lives path name (find_link path name tree) tree
