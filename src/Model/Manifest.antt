-- ===== src/Model/Manifest.antt =====
-- `CatManifest` of crates/core/src/manifest.rs: for each item the set of categories whose links the
-- daemon has made. The maps and sets of the code are lists, each key once.
pub mod Laws
use localref.Base.{
  Text, List, [], ◌∷◌, Bool, true, false, if◌then◌else◌, is_empty, str_eq, contains, retain, not,
}
use localref.Model.Membership.{insert_text, remove_text}

pub record CatManifest : Type 0 where
  pub entries : List (Text × List Text)

-- `entry(id).or_default().insert(category)`
unfoldable pub insert_entry : Text → Text → List (Text × List Text) → List (Text × List Text)
unfolding insert_text
insert_entry id category [] = (id, insert_text category []) ∷ []
insert_entry id category ((key, categories) ∷ rest) =
    let rest' = insert_entry id category rest in
    if str_eq key id
    then (key, insert_text category categories) ∷ rest
    else (key, categories) ∷ rest'

-- The set without the category takes the place of the set, and an empty one goes with its key.
abbrev pub put_unless_empty : Text → List Text → List (Text × List Text) → List (Text × List Text)
put_unless_empty key [] rest = rest
put_unless_empty key (c ∷ cs) rest = (key, c ∷ cs) ∷ rest

unfoldable pub remove_entry : Text → Text → List (Text × List Text) → List (Text × List Text)
unfolding remove_text
remove_entry id category [] = []
remove_entry id category ((key, categories) ∷ rest) =
    let rest' = remove_entry id category rest in
    if str_eq key id
    then put_unless_empty key (remove_text category categories) rest
    else (key, categories) ∷ rest'

unfoldable pub has_entry : Text → Text → List (Text × List Text) → Bool
unfolding contains
has_entry id category [] = false
has_entry id category ((key, categories) ∷ rest) =
    let later = has_entry id category rest in
    if str_eq key id then contains categories category else later

unfoldable pub insert : Text → Text → CatManifest → CatManifest
insert id category m = record { entries = insert_entry id category m.entries }

unfoldable pub remove : Text → Text → CatManifest → CatManifest
remove id category m = record { entries = remove_entry id category m.entries }

unfoldable pub remove_item : Text → CatManifest → CatManifest
unfolding retain
remove_item id m = record { entries = retain (λ entry. not (str_eq entry.0 id)) m.entries }

unfoldable pub contains_pair : Text → Text → CatManifest → Bool
unfolding has_entry
contains_pair id category m = has_entry id category m.entries

unfoldable pub is_empty_manifest : CatManifest → Bool
is_empty_manifest m = is_empty m.entries

-- `CatManifest::default`
unfoldable pub empty : CatManifest
empty = record { entries = [] }
