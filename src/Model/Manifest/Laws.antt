-- ===== src/Model/Manifest/Laws.antt =====
-- The manifest as a set of pairs, with no key twice and no empty set.
use localref.Base.{
  Text, ◌≡◌, refl, ◌↔◌, List, [], ◌∷◌, Bool, true, false, not, ◌&&◌, ◌||◌, if◌then◌else◌, is_empty,
  str_eq, str_eq_iff, str_eq_refl, contains, any, retain, arith,
}
use localref.Model.Membership.{insert_text, remove_text, contains-insert, contains-remove}
use localref.Model.Manifest.{
  CatManifest, insert_entry, remove_entry, has_entry, put_unless_empty, insert, remove, remove_item,
  contains_pair, is_empty_manifest,
}

abbrev pub has_key : Text → List (Text × List Text) → Bool
has_key id [] = false
has_key id ((key, categories) ∷ rest) = str_eq key id || has_key id rest

contains-nil : (t : Text) → contains [] t ≡ false
unfolding contains any
contains-nil t = refl

-- No key stands twice, and every set holds something.
abbrev pub IsTidyList : List (Text × List Text) → Type 0
IsTidyList [] = Unit {0}
IsTidyList ((key, categories) ∷ rest) =
    (has_key key rest ≡ false) × (is_empty categories ≡ false) × IsTidyList rest

abbrev pub IsTidy : CatManifest → Type 0
IsTidy m = IsTidyList m.entries

insert_text-filled : (c : Text) (cs : List Text) → is_empty (insert_text c cs) ≡ false
unfolding insert_text contains any
insert_text-filled c [] = refl
insert_text-filled c (d ∷ ds) = ground arith

has_key-insert :
    (k id c : Text) (es : List (Text × List Text))
    → has_key k (insert_entry id c es) ≡ (has_key k es || str_eq id k)
unfolding insert_entry
has_key-insert k id c [] = ground arith
has_key-insert k id c ((key, cs) ∷ rest) =
    ground (arith, has_key-insert k id c rest, str_eq_iff key id, str_eq_iff key k, str_eq_iff id k)

insert_entry-IsTidy :
    (id c : Text) (es : List (Text × List Text)) → IsTidyList es → IsTidyList (insert_entry id c es)
unfolding insert_entry
insert_entry-IsTidy id c [] t = (refl, insert_text-filled c [], tt)
insert_entry-IsTidy id c ((key, cs) ∷ rest) (fresh, filled, tidy) = ground (
  arith,
  insert_entry-IsTidy id c rest tidy,
  insert_text-filled c cs,
  has_key-insert key id c rest,
  str_eq_iff key id,
  str_eq_iff id key,
)

has_entry-absent :
    (id c : Text) (es : List (Text × List Text)) → has_key id es ≡ false → has_entry id c es ≡ false
unfolding has_entry
has_entry-absent id c [] h = refl
has_entry-absent id c ((key, cs) ∷ rest) h = ground (arith, has_entry-absent id c rest)

has_entry-insert :
    (id c k d : Text) (es : List (Text × List Text))
    → has_entry k d (insert_entry id c es) ≡ (has_entry k d es || (str_eq id k && str_eq c d))
unfolding insert_entry has_entry
has_entry-insert id c k d [] = ground (arith, contains-insert d c [], contains-nil d)
has_entry-insert id c k d ((key, cs) ∷ rest) = ground (
  arith,
  has_entry-insert id c k d rest,
  contains-insert d c cs,
  str_eq_iff key id,
  str_eq_iff key k,
  str_eq_iff id k,
)

has_key-put :
    (k key : Text) (cs : List Text) (rest : List (Text × List Text))
    → has_key k rest ≡ false
    → str_eq key k ≡ false
    → has_key k (put_unless_empty key cs rest) ≡ false
has_key-put k key [] rest h ne = h
has_key-put k key (c ∷ cs) rest h ne = ground arith

has_key-remove :
    (k id c : Text) (es : List (Text × List Text))
    → has_key k es ≡ false
    → has_key k (remove_entry id c es) ≡ false
unfolding remove_entry
has_key-remove k id c [] h = refl
has_key-remove k id c ((key, cs) ∷ rest) h =
    ground (arith, has_key-remove k id c rest, has_key-put k key (remove_text c cs) rest)

put-IsTidy :
    (key : Text) (cs : List Text) (rest : List (Text × List Text))
    → has_key key rest ≡ false
    → IsTidyList rest
    → IsTidyList (put_unless_empty key cs rest)
put-IsTidy key [] rest fresh tidy = tidy
put-IsTidy key (c ∷ cs) rest fresh tidy = (fresh, refl, tidy)

remove_entry-IsTidy :
    (id c : Text) (es : List (Text × List Text)) → IsTidyList es → IsTidyList (remove_entry id c es)
unfolding remove_entry
remove_entry-IsTidy id c [] t = tt
remove_entry-IsTidy id c ((key, cs) ∷ rest) (fresh, filled, tidy) = ground (
  arith,
  remove_entry-IsTidy id c rest tidy,
  put-IsTidy key (remove_text c cs) rest fresh tidy,
  has_key-remove key id c rest,
)

has_entry-put :
    (k d key : Text) (cs : List Text) (rest : List (Text × List Text))
    → has_key key rest ≡ false
    → has_entry k d (put_unless_empty key cs rest)
      ≡ (if str_eq key k then contains cs d else has_entry k d rest)
unfolding has_entry
has_entry-put k d key [] rest fresh =
    ground (arith, contains-nil d, str_eq_iff key k, has_entry-absent key d rest)
has_entry-put k d key (c ∷ cs) rest fresh = refl

has_entry-remove :
    (id c k d : Text) (es : List (Text × List Text))
    → IsTidyList es
    → has_entry k d (remove_entry id c es) ≡ (has_entry k d es && not (str_eq id k && str_eq c d))
unfolding remove_entry has_entry
has_entry-remove id c k d [] t = refl
has_entry-remove id c k d ((key, cs) ∷ rest) (fresh, filled, tidy) = ground (
  arith,
  has_entry-remove id c k d rest tidy,
  has_entry-put k d key (remove_text c cs) rest fresh,
  contains-remove d c cs,
  str_eq_iff key id,
  str_eq_iff key k,
  str_eq_iff id k,
)

has_key-retain :
    (k id : Text) (es : List (Text × List Text))
    → has_key k es ≡ false
    → has_key k (retain (λ entry. not (str_eq entry.0 id)) es) ≡ false
unfolding retain
has_key-retain k id [] h = refl
has_key-retain k id ((key, cs) ∷ rest) h = ground (arith, has_key-retain k id rest)

retain-IsTidy :
    (id : Text) (es : List (Text × List Text))
    → IsTidyList es
    → IsTidyList (retain (λ entry. not (str_eq entry.0 id)) es)
unfolding retain
retain-IsTidy id [] t = tt
retain-IsTidy id ((key, cs) ∷ rest) (fresh, filled, tidy) =
    ground (arith, retain-IsTidy id rest tidy, has_key-retain key id rest fresh)

has_entry-retain :
    (id k d : Text) (es : List (Text × List Text))
    → has_entry k d (retain (λ entry. not (str_eq entry.0 id)) es)
      ≡ (has_entry k d es && not (str_eq id k))
unfolding retain has_entry
has_entry-retain id k d [] = refl
has_entry-retain id k d ((key, cs) ∷ rest) =
    ground
      (arith, has_entry-retain id k d rest, str_eq_iff key id, str_eq_iff key k, str_eq_iff id k)

-- On a tidy manifest, in which no item stands twice and no set is empty, every operation leaves a
-- tidy one.
pub operations-IsTidy :
    (id c : Text) (m : CatManifest)
    → IsTidy m
    → IsTidy (insert id c m) × IsTidy (remove id c m) × IsTidy (remove_item id m)
unfolding insert remove remove_item
operations-IsTidy id c m t = (
  insert_entry-IsTidy id c m.entries t,
  remove_entry-IsTidy id c m.entries t,
  retain-IsTidy id m.entries t,
)

-- On a tidy manifest the operations are those of a set of pairs: `insert` adds the one pair,
-- `remove` takes the one pair, and `remove_item` takes every pair of the item.
pub contains_pair-operations :
    (id c k d : Text) (m : CatManifest)
    → IsTidy m
    → (contains_pair k d (insert id c m) ≡ (contains_pair k d m || (str_eq id k && str_eq c d)))
      × (contains_pair k d (remove id c m)
          ≡ (contains_pair k d m && not (str_eq id k && str_eq c d)))
      × (contains_pair k d (remove_item id m) ≡ (contains_pair k d m && not (str_eq id k)))
unfolding insert remove remove_item contains_pair
contains_pair-operations id c k d m t = (
  has_entry-insert id c k d m.entries,
  has_entry-remove id c k d m.entries t,
  has_entry-retain id k d m.entries,
)

first-contains : (c : Text) (cs : List Text) → contains (c ∷ cs) c ≡ true
unfolding contains any
first-contains c cs = ground (arith, str_eq_refl c)

empty-backward :
    (es : List (Text × List Text))
    → IsTidyList es
    → ((id c : Text) → has_entry id c es ≡ false)
    → is_empty es ≡ true
unfolding has_entry
empty-backward [] t h = refl
empty-backward ((key, []) ∷ rest) t h = ground arith
empty-backward ((key, c ∷ cs) ∷ rest) t h =
    ground (arith, h key c, str_eq_refl key, first-contains c cs)

empty-forward :
    (es : List (Text × List Text)) → is_empty es ≡ true → (id c : Text) → has_entry id c es ≡ false
unfolding has_entry
empty-forward [] h id c = refl
empty-forward (e ∷ es) h id c = cc

-- A tidy manifest is empty exactly if it holds no pair.
pub is_empty_manifest_iff :
    (m : CatManifest)
    → IsTidy m
    → (is_empty_manifest m ≡ true) ↔ ((id c : Text) → contains_pair id c m ≡ false)
unfolding is_empty_manifest contains_pair
is_empty_manifest_iff m t = (empty-forward m.entries, empty-backward m.entries t)
