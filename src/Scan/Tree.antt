-- ===== src/Scan/Tree.antt =====
-- The data of crates/core/src/scan/mod.rs, and how it prints paths. The tree below `Cat/` is what
-- `fs::read_dir`, `symlink_metadata` and `canonicalize` say of it, as Unix prints its paths. The
-- operating system's answers are `canonical` paths, what it refuses to read or to look at, and for an
-- entry of `All/` what stands in it when links are followed.
use localref.Base.{
  ◌++◌, Text, text, List, ◌∷◌, Bool, false, ◌&&◌, ◌==◌, ltb, if◌then◌else◌, Option, none, some,
  replace_char,
}
use localref.Types.CategoryPath.{CategoryPath}
use localref.Platformfs.Merging.{strip_path}
use localref.Library.Reconcile.{join}

-- An entry of a directory. For `faulty` ones `symlink_metadata` fails; `read_dir` may know whether it
-- is a file, or fail on its type as well. A `directory` that is a junction has a canonical path
-- elsewhere; the test is whether `metadata.toml` exists in it, which does not read the directory. A
-- `locked` directory cannot be read. `other` is a socket or a device. A listing may end by `failing`.
mutual
  pub data Node : Type 0 where
    file other : Node
    symlink : Option (List Text) → Node
    faulty : Option Bool → Text → Node
    locked : Option (List Text) → Bool → Text → Node
    directory : Option (List Text) → Bool → Children → Node

  pub data Children : Type 0 where
    end : Children
    failing : Text → Children
    entry : Text → Node → Children → Children

-- A first entry of `All/`: whether it is a directory, and what is in it, a file or not.
pub record AllItem : Type 0 where
  pub name : Text
  pub is_dir : Bool
  pub inside : List (Text × Bool)

pub data Reading : Type 0 where
  absent granted : Reading
  refused : Text → Reading

pub record LibraryTree : Type 0 where
  pub root : List Text
  pub all_reading : Reading
  pub all : List AllItem
  pub all_canonical : Option (List Text)
  pub cat_reading : Reading
  pub cat : Children

pub data AllEntryKind : Type 0 where
  managed_item ignored unmanaged_candidate unmanaged_all_file : AllEntryKind

pub record AllEntry : Type 0 where
  pub path : Text
  pub kind : AllEntryKind

pub data CatEntryKind : Type 0 where
  category_directory item_link broken_link stale_item_link real_directory_candidate invalid_file :
      CatEntryKind

pub record CatEntry : Type 0 where
  pub category : Option CategoryPath
  pub path : Text
  pub kind : CatEntryKind
  pub target_path : Option Text

pub record LibraryScan : Type 0 where
  pub all_entries : List AllEntry
  pub cat_entries : List CatEntry

-- `to_string_lossy` of a path from `/`
unfoldable pub print_path : List Text → Text
unfolding join
print_path path = b'/' ∷ join path

abbrev pub relative_or : List Text → Option (List Text) → Text
relative_or path none = print_path path
relative_or path (some rest) = join rest

abbrev pub has_drive : Text → Bool
has_drive (a ∷ b ∷ s) = ltb a 128 && b == b':'
has_drive _ = false

abbrev pub cat_path : LibraryTree → List Text → Text
cat_path tree path = print_path (tree.root ++ text "Cat" ∷ path)

unfoldable pub relative : List Text → List Text → Text
unfolding print_path join strip_path replace_char
relative root path =
    let normalized = replace_char 92 b'/' (relative_or path (strip_path root path)) in
    if has_drive normalized then replace_char 92 b'/' (print_path path) else normalized
