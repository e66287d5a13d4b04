-- ===== src/Platformfs/Merging/Shared.antt =====
-- What a merge of crates/core/src/platformfs/mod.rs comes to for a name that stands in the category
-- that is merged.
use localref.Base.{
  ◌≡◌, refl, sym, ap, subst, ◌∙◌, Text, List, [], ◌∷◌, ◌++◌, map, Bool, true, false, not, retain,
  Bool-cases, inl, inr, ◌&&◌, Option, none, some, any, str_eq, str_eq_iff, str_eq_refl, arith,
}
use localref.Platformfs.CatTree.{Link, CatTree, has_directory, is_at}
use localref.Platformfs.CatTree.Paths.{path_eq, path_eq_iff, path_eq_refl}
use localref.Platformfs.Merging.{
  is_live, is_entry, replaced_entry, strip_path, is_some, stands, moved, moved_path, moved_link,
  rename_entry,
}

module _ {A : Type 0} where
  any-map :
      (p q : A → Bool) (f : A → A) (xs : List A)
      → ((x : A) → p x ≡ true → q (f x) ≡ true)
      → any p xs ≡ true
      → any q (map f xs) ≡ true
  unfolding any
  any-map p q f [] keep h = cc
  any-map p q f (x ∷ xs) keep h = ground (arith, keep x, any-map p q f xs keep)

path_eq-snoc :
    (s t : List Text) (m n : Text)
    → path_eq (s ++ m ∷ []) (t ++ n ∷ []) ≡ (path_eq s t && str_eq m n)
unfolding path_eq
path_eq-snoc [] [] m n = ground arith
path_eq-snoc [] (b ∷ []) m n = ground arith
path_eq-snoc [] (b ∷ c ∷ t) m n = ground arith
path_eq-snoc (a ∷ []) [] m n = ground arith
path_eq-snoc (a ∷ c ∷ s) [] m n = ground arith
path_eq-snoc (a ∷ s) (b ∷ t) m n = ground (arith, path_eq-snoc s t m n)

-- A path starts with another below a name only if it did, or is the other.
strip_path-snoc :
    (q p : List Text) (n : Text)
    → is_some (strip_path q p) ≡ false
    → path_eq q (p ++ n ∷ []) ≡ false
    → is_some (strip_path q (p ++ n ∷ [])) ≡ false
unfolding strip_path path_eq
strip_path-snoc [] p n h other = cc
strip_path-snoc (a ∷ q) (b ∷ p) n h other = ground (arith, strip_path-snoc q p n)
strip_path-snoc (a ∷ []) [] n h other = ground arith
strip_path-snoc (a ∷ c ∷ q) [] n h other = ground arith

pub strip_path-above : (p : List Text) (n : Text) → is_some (strip_path (p ++ n ∷ []) p) ≡ false
unfolding strip_path
strip_path-above [] n = refl
strip_path-above (a ∷ p) n = ground (arith, strip_path-above p n)

moved-outside :
    (to : List Text) (name : Text) (path : List Text) (o : Option (List Text))
    → is_some o ≡ false
    → moved to name path o ≡ path
moved-outside to name path none h = refl
moved-outside to name path (some rest) h = cc

strip_path_self : (p : List Text) → strip_path p p ≡ some []
unfolding strip_path
strip_path_self [] = refl
strip_path_self (a ∷ p) = ground (arith, str_eq_refl a, strip_path_self p)

pub any-implied :
    {A : Type 0} (p q : A → Bool) (xs : List A)
    → ((x : A) → p x ≡ true → q x ≡ true)
    → any p xs ≡ true
    → any q xs ≡ true
unfolding any
any-implied p q [] keep h = cc
any-implied p q (x ∷ xs) keep h = ground (arith, keep x, any-implied p q xs keep)

-- A move that leaves the place of an entry leaves the entry.
abbrev pub Elsewhere : List Text → List Text → Text → Text → Type 0
Elsewhere from p m n =
    (is_some (strip_path (from ++ m ∷ []) p) ≡ false) × ((path_eq from p && str_eq m n) ≡ false)

moved_link-Elsewhere :
    (q : Text → Bool) (from to p : List Text) (m n : Text) (link : Link)
    → Elsewhere from p m n
    → is_live q p n link ≡ true
    → is_live q p n (moved_link from to m link) ≡ true
moved_link-Elsewhere q from to p m n link (outside, other) h =
    let e : p ≡ link.directory = (path_eq_iff p link.directory).0 (ground arith) in
    let name : n ≡ link.name = (str_eq_iff n link.name).0 (ground arith) in
    let stays : moved_path from to m link.directory ≡ link.directory =
      moved-outside to m link.directory (strip_path (from ++ m ∷ []) link.directory)
        (ap (λ d. is_some (strip_path (from ++ m ∷ []) d)) (sym e) ∙ outside) in
    let not_moved : is_at from m link ≡ false = rw (sym e, sym name) other in
    rw not_moved (rw stays h)

moved_path-Elsewhere :
    (from to p : List Text) (m n : Text) (d : List Text)
    → Elsewhere from p m n
    → path_eq (p ++ n ∷ []) d ≡ true
    → path_eq (p ++ n ∷ []) (moved_path from to m d) ≡ true
moved_path-Elsewhere from to p m n d (outside, other) h =
    let e : p ++ n ∷ [] ≡ d = (path_eq_iff (p ++ n ∷ []) d).0 h in
    let stays : moved_path from to m (p ++ n ∷ []) ≡ p ++ n ∷ [] =
      moved-outside to m (p ++ n ∷ []) (strip_path (from ++ m ∷ []) (p ++ n ∷ []))
        (strip_path-snoc (from ++ m ∷ []) p n outside (path_eq-snoc from p m n ∙ other)) in
    subst (λ x. path_eq (p ++ n ∷ []) (moved_path from to m x) ≡ true) e
      (rw stays (path_eq_refl (p ++ n ∷ [])))

-- The move of `m` leaves what stands as `n` in a directory that it does not move.
pub stands-rename_other :
    (q : Text → Bool) (from to p : List Text) (m n : Text) (tree : CatTree)
    → Elsewhere from p m n
    → stands q p n tree ≡ true
    → stands q p n (rename_entry from to m tree) ≡ true
unfolding stands rename_entry has_directory
stands-rename_other q from to p m n tree elsewhere h = ground (
  arith,
  any-map (is_live q p n) (is_live q p n) (moved_link from to m) tree.links
      (λ link. moved_link-Elsewhere q from to p m n link elsewhere),
  any-map (path_eq (p ++ n ∷ [])) (path_eq (p ++ n ∷ [])) (moved_path from to m) tree.directories
      (λ d. moved_path-Elsewhere from to p m n d elsewhere),
)

moved_link-own :
    (q : Text → Bool) (from to : List Text) (n : Text) (link : Link)
    → is_live q from n link ≡ true
    → is_live q to n (moved_link from to n link) ≡ true
moved_link-own q from to n link h =
    let own : is_at from n link ≡ true = ground arith in
    rw own (rw (path_eq_refl to) (ground arith))

moved_path-own :
    (from to : List Text) (n : Text) (d : List Text)
    → path_eq (from ++ n ∷ []) d ≡ true
    → path_eq (to ++ n ∷ []) (moved_path from to n d) ≡ true
moved_path-own from to n d h =
    subst (λ x. path_eq (to ++ n ∷ []) (moved_path from to n x) ≡ true)
      ((path_eq_iff (from ++ n ∷ []) d).0 h)
      (rw (strip_path_self (from ++ n ∷ [])) (path_eq_refl (to ++ n ∷ [])))

-- What stands in the source under the name of the move stands in the target after it.
pub stands-rename :
    (q : Text → Bool) (from to : List Text) (n : Text) (tree : CatTree)
    → stands q from n tree ≡ true
    → stands q to n (rename_entry from to n tree) ≡ true
unfolding stands rename_entry has_directory
stands-rename q from to n tree h = ground (
  arith,
  any-map (is_live q from n) (is_live q to n) (moved_link from to n) tree.links
      (moved_link-own q from to n),
  any-map (path_eq (from ++ n ∷ [])) (path_eq (to ++ n ∷ [])) (moved_path from to n)
      tree.directories (moved_path-own from to n),
)

any-retain_kept :
    {A : Type 0} (p keep : A → Bool) (xs : List A)
    → ((x : A) → p x ≡ true → keep x ≡ true)
    → any p xs ≡ true
    → any p (retain keep xs) ≡ true
unfolding any retain
any-retain_kept p keep [] kept h = cc
any-retain_kept p keep (x ∷ xs) kept h = ground (arith, kept x, any-retain_kept p keep xs kept)

-- What stands in another place, or under another name, is not replaced.
pub stands-replaced_entry :
    (q : Text → Bool) (from to p : List Text) (m n : Text) (tree : CatTree)
    → (path_eq from to ≡ false → (path_eq p to && str_eq n m) ≡ false)
    → stands q p n tree ≡ true
    → stands q p n (replaced_entry from to m tree) ≡ true
unfolding stands replaced_entry has_directory
stands-replaced_entry q from to p m n tree other h = elim (Bool-cases (path_eq from to)) [
  | inl own ↦ rw own h
  | inr apart ↦ rw apart (
      ground (
        arith,
        any-retain_kept (is_live q p n) (λ link. not (is_at to m link)) tree.links
            (λ link there. kept link apart there),
      ))
]
  where
    kept :
        (link : Link)
        → path_eq from to ≡ false
        → is_live q p n link ≡ true
        → not (is_at to m link) ≡ true
    kept link apart there = ground (
      arith,
      other apart,
      path_eq_iff p link.directory,
      path_eq_iff to link.directory,
      str_eq_iff n link.name,
      str_eq_iff m link.name,
      path_eq_refl p,
      str_eq_refl n,
    )

-- What is there is an entry.
pub is_entry-stands :
    (q : Text → Bool) (p : List Text) (n : Text) (tree : CatTree)
    → stands q p n tree ≡ true
    → is_entry p n tree ≡ true
unfolding stands
is_entry-stands q p n tree h = ground (
  arith,
  any-implied (is_live q p n) (is_live (λ _. true) p n) tree.links (λ link live. ground arith),
)
