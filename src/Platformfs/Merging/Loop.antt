-- ===== src/Platformfs/Merging/Loop.antt =====
-- The loop of `merge_category` of crates/core/src/platformfs/mod.rs, for one name.
use localref.Base.{
  ◌≡◌, refl, ◌⊎◌, Bool, str_eq_refl, sym, ap, subst, ◌∙◌, Text, List, [], ◌∷◌, ◌++◌, true, false,
  ◌&&◌, contains, str_eq, str_eq_iff, Result, ok, err, is_ok, arith, Bool-cases, inl, inr,
}
use localref.Platformfs.CatTree.{CatTree}
use localref.Platformfs.CatTree.Paths.{path_eq, path_eq_refl}
use localref.Platformfs.Merging.{
  strip_path, is_some, stands, is_entry, is_refused, rename_entry, replaced_entry, move_entry,
  move_entries,
}
use localref.Library.State.Actions.{Action, continue, through}
use localref.Platformfs.Merging.Shared.{
  strip_path-above, stands-rename_other, stands-rename, stands-replaced_entry, is_entry-stands,
}

-- The move that is made once neither the test nor the system stops it leaves other entries.
renamed-other :
    (q : Text → Bool) (from to p : List Text) (m n : Text) (tree : CatTree)
    → is_some (strip_path (from ++ m ∷ []) p) ≡ false
    → (path_eq from p && str_eq m n) ≡ false
    → (path_eq from to ≡ false → (path_eq p to && str_eq n m) ≡ false)
    → stands q p n tree ≡ true
    → stands q p n (rename_entry from to m (replaced_entry from to m tree)) ≡ true
renamed-other q from to p m n tree outside other apart h =
    stands-rename_other q from to p m n (replaced_entry from to m tree) (outside, other)
      (stands-replaced_entry q from to p m n tree apart h)

renamed-own :
    (from to : List Text) (n : Text) (tree : CatTree)
    → is_entry from n tree ≡ true
    → is_entry to n (rename_entry from to n (replaced_entry from to n tree)) ≡ true
renamed-own from to n tree h =
    stands-rename (λ _. true) from to n (replaced_entry from to n tree)
      (stands-replaced_entry (λ _. true) from to from n n tree (λ apart. ground arith) h)

is_refused-parts :
    (from to : List Text) (name : Text) (tree : CatTree)
    → is_refused from to name tree ≡ false
    → (is_some (strip_path (from ++ name ∷ []) to) ≡ false) × (is_entry from name tree ≡ true)
unfolding is_refused
is_refused-parts from to name tree h = (ground arith, ground arith)

-- What one turn comes to.
move_entry-cases :
    (lives : Text → Bool) (from to : List Text) (m : Text) (tree : CatTree)
    → (((move_entry lives from to m tree).1 ≡ tree)
        × ((is_ok (move_entry lives from to m tree).0 ≡ false) ⊎ (stands lives to m tree ≡ true)))
      ⊎ ((stands lives to m tree ≡ false)
          × (is_some (strip_path (from ++ m ∷ []) to) ≡ false)
          × (is_entry from m tree ≡ true)
          × ((move_entry lives from to m tree).1
              ≡ rename_entry from to m (replaced_entry from to m tree)))
unfolding move_entry
move_entry-cases lives from to m tree = elim (Bool-cases (stands lives to m tree)) [
  | inl there ↦ inl (rw there refl, inr there)
  | inr new ↦ elim (Bool-cases (is_refused from to m tree)) [
    | inl refused ↦ inl (rw (new, refused) refl, inl (rw (new, refused) refl))
    | inr fine ↦
        let (outside, own) = is_refused-parts from to m tree fine in
        inr (new, outside, own, rw (new, fine) refl)
  ]
]

move_entry-target :
    (lives : Text → Bool) (from to : List Text) (m n : Text) (tree : CatTree)
    → stands lives to n tree ≡ true
    → stands lives to n (move_entry lives from to m tree).1 ≡ true
move_entry-target lives from to m n tree h = elim (move_entry-cases lives from to m tree) [
  | inl (same, _) ↦ rw same h
  | inr (new, outside, _, moved) ↦
      let other : str_eq m n ≡ false = ground (arith, str_eq_iff m n) in
      rw moved (
        renamed-other lives from to to m n tree outside (ground arith)
          (λ apart. ground (arith, str_eq_iff n m, str_eq_iff m n)) h)
]

-- An entry of the target stays one, for it only gives way to another of its name.
move_entry-kept :
    (lives : Text → Bool) (from to : List Text) (m n : Text) (tree : CatTree)
    → is_entry to n tree ≡ true
    → is_entry to n (move_entry lives from to m tree).1 ≡ true
move_entry-kept lives from to m n tree h = elim (move_entry-cases lives from to m tree) [
  | inl (same, _) ↦ rw same h
  | inr (new, outside, own, moved) ↦ elim (Bool-cases (str_eq m n)) [
    | inr other ↦ rw moved (
        renamed-other (λ _. true) from to to m n tree outside (ground arith)
          (λ apart. ground (arith, str_eq_iff n m, str_eq_iff m n, str_eq_refl n)) h)
    | inl equal ↦
        let e : m ≡ n = (str_eq_iff m n).0 equal in
        rw moved (
          subst (λ x. is_entry to x (rename_entry from to m (replaced_entry from to m tree)) ≡ true)
            e (renamed-own from to m tree own))
  ]
]

-- An entry stays in the source while the loop does not move it.
move_entry-source :
    (lives : Text → Bool) (from to : List Text) (m n : Text) (tree : CatTree)
    → is_entry from n tree ≡ true
    → (str_eq m n ≡ true → stands lives to n tree ≡ true)
    → is_entry from n (move_entry lives from to m tree).1 ≡ true
move_entry-source lives from to m n tree h skipped = elim (move_entry-cases lives from to m tree) [
  | inl (same, _) ↦ rw same h
  | inr (new, outside, _, moved) ↦
      let other : (path_eq from from && str_eq m n) ≡ false =
        ground (arith, str_eq_iff m n, skipped, path_eq_refl from) in
      rw moved (
        renamed-other (λ _. true) from to from m n tree (strip_path-above from m) other
          (λ apart. ground arith) h)
]

move_entry-own :
    (lives : Text → Bool) (from to : List Text) (n : Text) (tree : CatTree)
    → is_ok (move_entry lives from to n tree).0 ≡ true
    → is_entry to n (move_entry lives from to n tree).1 ≡ true
move_entry-own lives from to n tree done = elim (move_entry-cases lives from to n tree) [
  | inl (same, inl fails) ↦ absurd (ground arith)
  | inl (same, inr there) ↦ rw same (is_entry-stands lives to n tree there)
  | inr (new, outside, own, moved) ↦ rw moved (renamed-own from to n tree own)
]

-- The source has an entry of the name, and something is there in the target.
abbrev pub Both : (Text → Bool) → List Text → List Text → Text → CatTree → Type 0
Both lives from to n tree = (is_entry from n tree ≡ true) × (stands lives to n tree ≡ true)

module _ {A B : Type 0} (P : CatTree → Type 0) where
  continue-keeps :
      (r : Result A × CatTree) (rest : A → Action CatTree B)
      → P r.1
      → ((a : A) (s : CatTree) → P s → P (rest a s).1)
      → P (continue r rest).1
  continue-keeps (ok a, s) rest h keep = keep a s h
  continue-keeps (err problem, s) rest h keep = h

move_entries-kept :
    (lives : Text → Bool) (from to : List Text) (n : Text) (names : List Text) (tree : CatTree)
    → is_entry to n tree ≡ true
    → is_entry to n (move_entries lives from to names tree).1 ≡ true
unfolding move_entries
move_entries-kept lives from to n [] tree h = h
move_entries-kept lives from to n (m ∷ names) tree h =
    continue-keeps (λ t. is_entry to n t ≡ true) (move_entry lives from to m tree)
      (λ _. move_entries lives from to names) (move_entry-kept lives from to m n tree h)
      (λ _ s. move_entries-kept lives from to n names s)

pub move_entries-Both :
    (lives : Text → Bool) (from to : List Text) (n : Text) (names : List Text) (tree : CatTree)
    → Both lives from to n tree
    → Both lives from to n (move_entries lives from to names tree).1
unfolding move_entries
move_entries-Both lives from to n [] tree h = h
move_entries-Both lives from to n (m ∷ names) tree (source, target) =
    continue-keeps (Both lives from to n) (move_entry lives from to m tree)
      (λ _. move_entries lives from to names)
      (
        move_entry-source lives from to m n tree source (λ _. target),
        move_entry-target lives from to m n tree target,
      )
      (λ _ s. move_entries-Both lives from to n names s)

moved_own :
    (lives : Text → Bool) (from to : List Text) (m n : Text) (names : List Text)
    (tree t u : CatTree)
    → str_eq m n ≡ true
    → is_entry from n tree ≡ true
    → move_entry lives from to m tree ≡ (ok tt, t)
    → move_entries lives from to names t ≡ (ok tt, u)
    → is_entry to n u ≡ true
moved_own lives from to m n names tree t u own h first rest =
    let e : m ≡ n = (str_eq_iff m n).0 own in
    let step : move_entry lives from to n tree ≡ (ok tt, t) =
      subst (λ x. move_entry lives from to x tree ≡ (ok tt, t)) e first in
    ap (λ r. is_entry to n r.1) (sym rest)
    ∙ move_entries-kept lives from to n names t (
        ap (λ r. is_entry to n r.1) (sym step)
        ∙ move_entry-own lives from to n tree (ap (λ r. is_ok r.0) step))

pub move_entries-moves :
    (lives : Text → Bool) (from to : List Text) (n : Text) (names : List Text) (tree u : CatTree)
    → contains names n ≡ true
    → is_entry from n tree ≡ true
    → move_entries lives from to names tree ≡ (ok tt, u)
    → is_entry to n u ≡ true
unfolding move_entries contains
move_entries-moves lives from to n [] tree u listed h done = cc
move_entries-moves lives from to n (m ∷ names) tree u listed h done =
    let (_, t, first, rest) =
      through (move_entry lives from to m tree) (λ _. move_entries lives from to names) done in
    elim (Bool-cases (str_eq m n)) [
      | inl own ↦ moved_own lives from to m n names tree t u own h first rest
      | inr other ↦
          move_entries-moves lives from to n names t u (ground arith)
            (ap (λ r. is_entry from n r.1) (sym first)
              ∙ move_entry-source lives from to m n tree h (λ same. absurd (ground arith)))
            rest
    ]
