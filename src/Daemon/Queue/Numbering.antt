-- ===== src/Daemon/Queue/Numbering.antt =====
-- The history as a numbered list: how its ids and its unfinished records change under the two
-- updates in place, `mark_running` and `finish`.
use localref.Base.{
  ℕ, suc, ◌<◌, ◌≡◌, refl, ap, List, [], ◌∷◌, ◌++◌, Bool, true, false, not, ◌||◌, ◌==◌,
  if◌then◌else◌, arith, retain,
}
use localref.Daemon.Task.{DaemonTaskRecord, DaemonTaskState, queued, running}
use localref.Daemon.Queue.{update_first, set_running, knows}

abbrev pub ids : List DaemonTaskRecord → List ℕ
ids [] = []
ids (r ∷ rs) = r.id ∷ ids rs

-- The ids are `n`, `n + 1` and so on, and the next one is `m`.
abbrev pub Numbered : ℕ → List DaemonTaskRecord → ℕ → Type 0
Numbered n [] m = n ≡ m
Numbered n (r ∷ rs) m = (r.id ≡ n) × Numbered (suc n) rs m

abbrev pub is_unfinished : DaemonTaskState → Bool
is_unfinished queued = true
is_unfinished running = true
is_unfinished _ = false

-- The records that are queued or running.
unfoldable pub pending : List DaemonTaskRecord → List DaemonTaskRecord
unfolding retain
pending = retain λ r. is_unfinished r.state

abbrev pub without : ℕ → List ℕ → List ℕ
without k [] = []
without k (n ∷ ns) = let rest = without k ns in if n == k then rest else n ∷ rest

pub ids-append : (xs ys : List DaemonTaskRecord) → ids (xs ++ ys) ≡ ids xs ++ ids ys
ids-append [] ys = refl
ids-append (x ∷ xs) ys = ap (◌∷◌ x.id) (ids-append xs ys)

pub Numbered-append :
    (n m : ℕ) (hs : List DaemonTaskRecord) (r : DaemonTaskRecord)
    → Numbered n hs m
    → r.id ≡ m
    → Numbered n (hs ++ r ∷ []) (suc m)
Numbered-append n m [] r h e = omega arith
Numbered-append n m (x ∷ xs) r h e = (h.0, Numbered-append (suc n) m xs r h.1 e)

-- Whether an id is on file depends on the ids alone.
knows_ids : ℕ → List ℕ → Bool
knows_ids k [] = false
knows_ids k (n ∷ ns) = n == k || knows_ids k ns

knows-ids : (k : ℕ) (rs : List DaemonTaskRecord) → knows k rs ≡ knows_ids k (ids rs)
unfolding knows knows_ids
knows-ids k [] = refl
knows-ids k (r ∷ rs) = ground (arith, knows-ids k rs)

pub knows_same_ids :
    (k : ℕ) (rs ss : List DaemonTaskRecord) → ids rs ≡ ids ss → knows k rs ≡ knows k ss
knows_same_ids k rs ss e = cc (knows-ids k rs, knows-ids k ss)

module _ (p : DaemonTaskRecord → Bool) where
  -- A record that a filter keeps is on file.
  pub knows-retain :
      (k : ℕ) (hs : List DaemonTaskRecord) → knows k (retain p hs) ≡ true → knows k hs ≡ true
  unfolding knows retain
  knows-retain k [] h = h
  knows-retain k (r ∷ rs) h = ground (arith, knows-retain k rs)

  knows-below :
      (k n m : ℕ) (hs : List DaemonTaskRecord)
      → Numbered n hs m
      → k < n
      → knows k (retain p hs) ≡ false
  unfolding knows retain
  knows-below k n m [] h lt = refl
  knows-below k n m (r ∷ rs) h lt = ground (arith, knows-below k (suc n) m rs)

  without-below :
      (k n m : ℕ) (hs : List DaemonTaskRecord)
      → Numbered n hs m
      → k < n
      → without k (ids (retain p hs)) ≡ ids (retain p hs)
  unfolding retain
  without-below k n m [] h lt = refl
  without-below k n m (r ∷ rs) h lt = ground (arith, without-below k (suc n) m rs)

pub ids-drop :
    (k : ℕ) (rs : List DaemonTaskRecord)
    → ids (retain (λ (x : DaemonTaskRecord). not (x.id == k)) rs) ≡ without k (ids rs)
unfolding retain
ids-drop k [] = refl
ids-drop k (r ∷ rs) = ground (arith, ids-drop k rs)

-- An update in place that keeps the id keeps the numbering.
pub Numbered-update :
    (k n m : ℕ) (f : DaemonTaskRecord → DaemonTaskRecord) (hs : List DaemonTaskRecord)
    → ((r : DaemonTaskRecord) → r.id ≡ k → (f r).id ≡ k)
    → Numbered n hs m
    → Numbered n (update_first k f hs) m
unfolding update_first
Numbered-update k n m f [] same h = h
Numbered-update k n m f (r ∷ rs) same h =
    ground (arith, same r, Numbered-update k (suc n) m f rs same)

-- To mark an unfinished record as running leaves the unfinished ids as they are.
pub pending-mark :
    (k n m : ℕ) (hs : List DaemonTaskRecord)
    → Numbered n hs m
    → knows k (pending hs) ≡ true
    → ids (pending (update_first k set_running hs)) ≡ ids (pending hs)
unfolding update_first knows pending retain
pending-mark k n m [] h kn = refl
pending-mark k n m (r ∷ rs) h kn =
    ground
      (arith, knows-below (λ x. is_unfinished x.state) k (suc n) m rs, pending-mark k (suc n) m rs)

-- To file a final record drops its id from the unfinished ones.
pub pending-finish :
    (x : DaemonTaskRecord) (n m : ℕ) (hs : List DaemonTaskRecord)
    → Numbered n hs m
    → is_unfinished x.state ≡ false
    → ids (pending (update_first x.id (λ _. x) hs)) ≡ without x.id (ids (pending hs))
unfolding update_first pending retain
pending-finish x n m [] h final = refl
pending-finish x n m (r ∷ rs) h final = ground (
  arith,
  without-below (λ y. is_unfinished y.state) x.id (suc n) m rs,
  pending-finish x (suc n) m rs,
)
