-- ===== src/Daemon/Queue/Modes.antt =====
-- `BTreeSet<PauseMode>`: a list in increasing order, and the laws of its operations.
use localref.Base.{
  ℕ, suc, ◌<◌, ◌≤◌, ◌≡◌, refl, List, [], ◌∷◌, Bool, true, false, not, ◌||◌, ◌&&◌, ltb, ◌==◌,
  if◌then◌else◌, arith,
}
use localref.Daemon.Task.{PauseMode, rank}

unfoldable pub contains_mode : PauseMode → List PauseMode → Bool
contains_mode m [] = false
contains_mode m (x ∷ xs) = rank x == rank m || contains_mode m xs

-- `insert`: whether the mode is new
unfoldable pub insert_mode : PauseMode → List PauseMode → List PauseMode × Bool
insert_mode m [] = (m ∷ [], true)
insert_mode m (x ∷ xs) =
    let rest = insert_mode m xs in
    if rank m == rank x
    then (x ∷ xs, false)
    else if ltb (rank m) (rank x)
    then (m ∷ x ∷ xs, true)
    else (x ∷ rest.0, rest.1)

-- `remove`: whether the mode was there
unfoldable pub remove_mode : PauseMode → List PauseMode → List PauseMode × Bool
remove_mode m [] = ([], false)
remove_mode m (x ∷ xs) =
    let rest = remove_mode m xs in if rank x == rank m then (xs, true) else (x ∷ rest.0, rest.1)

-- Ranks grow along the list, and each is at least `n`.
abbrev pub SortedFrom : ℕ → List PauseMode → Type 0
SortedFrom n [] = Unit {0}
SortedFrom n (x ∷ xs) = (n ≤ rank x) × SortedFrom (suc (rank x)) xs

pub contains-below :
    (m : PauseMode) (n : ℕ) (xs : List PauseMode)
    → SortedFrom n xs
    → rank m < n
    → contains_mode m xs ≡ false
unfolding contains_mode
contains-below m n [] s h = refl
contains-below m n (x ∷ xs) s h = ground (arith, contains-below m (suc (rank x)) xs)

pub contains-insert :
    (m k : PauseMode) (xs : List PauseMode)
    → contains_mode k (insert_mode m xs).0 ≡ (rank m == rank k || contains_mode k xs)
unfolding contains_mode insert_mode
contains-insert m k [] = refl
contains-insert m k (x ∷ xs) = ground (arith, contains-insert m k xs)

pub changed-insert :
    (m : PauseMode) (n : ℕ) (xs : List PauseMode)
    → SortedFrom n xs
    → (insert_mode m xs).1 ≡ not (contains_mode m xs)
unfolding contains_mode insert_mode
changed-insert m n [] s = refl
changed-insert m n (x ∷ xs) s =
    ground (arith, changed-insert m (suc (rank x)) xs, contains-below m (suc (rank x)) xs)

pub insert-SortedFrom :
    (m : PauseMode) (n : ℕ) (xs : List PauseMode)
    → SortedFrom n xs
    → n ≤ rank m
    → SortedFrom n (insert_mode m xs).0
unfolding insert_mode
insert-SortedFrom m n [] s h = (h, tt)
insert-SortedFrom m n (x ∷ xs) s h = ground (arith, insert-SortedFrom m (suc (rank x)) xs)

pub weaken-SortedFrom : (k n : ℕ) (xs : List PauseMode) → SortedFrom n xs → k ≤ n → SortedFrom k xs
weaken-SortedFrom k n [] s h = tt
weaken-SortedFrom k n (x ∷ xs) s h = (omega arith, s.1)

pub remove-SortedFrom :
    (m : PauseMode) (n : ℕ) (xs : List PauseMode)
    → SortedFrom n xs
    → SortedFrom n (remove_mode m xs).0
unfolding remove_mode
remove-SortedFrom m n [] s = tt
remove-SortedFrom m n (x ∷ xs) s =
    ground (arith, remove-SortedFrom m (suc (rank x)) xs, weaken-SortedFrom n (suc (rank x)) xs)

pub contains-remove :
    (m k : PauseMode) (n : ℕ) (xs : List PauseMode)
    → SortedFrom n xs
    → contains_mode k (remove_mode m xs).0 ≡ (not (rank m == rank k) && contains_mode k xs)
unfolding contains_mode remove_mode
contains-remove m k n [] s = ground arith
contains-remove m k n (x ∷ xs) s =
    ground (arith, contains-remove m k (suc (rank x)) xs, contains-below k (suc (rank x)) xs)
