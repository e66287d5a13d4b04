-- ===== src/Logging/Ring.antt =====
-- crates/core/src/logging.rs: `LogRingBuffer`, the most recent log entries behind a mutex. `none` is
-- the panic of `Vec::remove` on an empty vector.
use localref.Base.{
  ℕ, suc, ◌+◌, ◌%◌, ◌≤◌, ◌<◌, ◌≡◌, refl, ◌∙◌, Text, List, [], ◌∷◌, ◌++◌, append_assoc, append-nil,
  ltb, zero, ◌||◌, is_empty, if◌then◌else◌, leb, Option, none, some, length, length-append, arith,
  u64_mod, Bool-cases, inl, inr,
}

pub record LogEntry : Type 0 where
  pub id : ℕ
  pub ts : Text
  pub level : Text
  pub target : Text
  pub message : Text
  pub event_kind : Option Text
  pub item_id : Option Text
  pub path : Option Text

pub record LogRingBuffer : Type 0 where
  pub entries : List LogEntry
  pub capacity : ℕ
  pub next_id : ℕ

abbrev pub with_capacity : ℕ → LogRingBuffer
with_capacity capacity = record { entries = []; capacity = capacity; next_id = 1 }

-- `entries.remove(0)`
abbrev pub remove_first : List LogEntry → Option (List LogEntry)
remove_first [] = none
remove_first (x ∷ xs) = some xs

abbrev pub push_to : LogEntry → LogRingBuffer → Option (List LogEntry) → Option LogRingBuffer
push_to entry b none = none
push_to entry b (some entries) = some (record b { entries = entries ++ entry ∷ [] })

unfoldable pub push : LogEntry → LogRingBuffer → Option LogRingBuffer
push entry b =
    push_to entry b
      (if leb b.capacity (length b.entries) then remove_first b.entries else some b.entries)

-- The id, and the buffer with the next one. The counter wraps in a release build.
unfoldable pub take_id : LogRingBuffer → ℕ × LogRingBuffer
take_id b = (b.next_id, record b { next_id = (b.next_id + 1) % u64_mod })

-- The last `n` of a list.
unfoldable pub last : ℕ → List LogEntry → List LogEntry
last n [] = []
last n (x ∷ xs) = let rest = last n xs in if leb (length (x ∷ xs)) n then x ∷ xs else rest

last_short : (n : ℕ) (xs : List LogEntry) → length xs ≤ n → last n xs ≡ xs
unfolding last
last_short n [] h = refl
last_short n (x ∷ xs) h = ground arith

length-last-le : (n : ℕ) (xs : List LogEntry) → length (last n xs) ≤ n
unfolding last
length-last-le n [] = omega arith
length-last-le n (x ∷ xs) = ground (arith, length-last-le n xs)

last-append-last :
    (n : ℕ) (xs : List LogEntry) (x : LogEntry)
    → last n (last n xs ++ x ∷ []) ≡ last n (xs ++ x ∷ [])
unfolding last
last-append-last n [] x = refl
last-append-last n (y ∷ xs) x = elim (Bool-cases (leb (length (y ∷ xs)) n)) [
  | inl fits ↦ rw fits refl
  | inr long ↦ rw long (last-append-last n xs x ∙ ground (arith, length-append xs (x ∷ [])))
]

push_to-last :
    (entry : LogEntry) (b : LogRingBuffer) (xs : List LogEntry)
    → 0 < b.capacity
    → length xs ≤ b.capacity
    → push_to entry b (if leb b.capacity (length xs) then remove_first xs else some xs)
      ≡ some (record b { entries = last b.capacity (xs ++ entry ∷ []) })
unfolding last
push_to-last entry b [] room bound = ground arith
push_to-last entry b (x ∷ xs) room bound =
    ground (arith, length-append xs (entry ∷ []), last_short b.capacity (xs ++ entry ∷ []))

push-last :
    (entry : LogEntry) (b : LogRingBuffer)
    → 0 < b.capacity
    → length b.entries ≤ b.capacity
    → push entry b ≡ some (record b { entries = last b.capacity (b.entries ++ entry ∷ []) })
unfolding push
push-last entry b room bound = push_to-last entry b b.entries room bound

unfoldable pub pushes : List LogEntry → LogRingBuffer → Option LogRingBuffer
unfolding push
pushes [] b = some b
pushes (entry ∷ rest) b = elim (push entry b) [ none ↦ none | some b' ↦ pushes rest b' ]

pushes-last :
    (more : List LogEntry) (seen : List LogEntry) (b : LogRingBuffer)
    → 0 < b.capacity
    → b.entries ≡ last b.capacity seen
    → pushes more b ≡ some (record b { entries = last b.capacity (seen ++ more) })
unfolding pushes
pushes-last [] seen b room kept = rw append-nil (ground arith)
pushes-last (x ∷ more) seen b room kept =
    let pushed : push x b ≡ some (record b { entries = last b.capacity (seen ++ x ∷ []) }) =
      push-last x b room (ground (arith, length-last-le b.capacity seen))
      ∙ ground (arith, last-append-last b.capacity seen x) in
    rw (pushed, pushes)
      (pushes-last more (seen ++ x ∷ []) (record b { entries = last b.capacity (seen ++ x ∷ []) })
          room refl
        ∙ rw append_assoc)

no_room :
    (entries : List LogEntry)
    → pushes entries (with_capacity 0) ≡ (
        if is_empty entries
        then some (record (with_capacity 0) { entries = last 0 entries })
        else none)
unfolding pushes push last
no_room [] = refl
no_room (x ∷ entries) = refl

-- A buffer that has room for an entry keeps exactly the last entries that were pushed, as many as it
-- has room for, oldest first, and no push panics. One with no room panics at the first push.
pub pushes-with_capacity :
    (entries : List LogEntry) (capacity : ℕ)
    → (pushes entries (with_capacity capacity) ≡ (
        if ltb 0 capacity || is_empty entries
        then some (record (with_capacity capacity) { entries = last capacity entries })
        else none))
      × (length (last capacity entries) ≤ capacity)
pushes-with_capacity entries zero = (no_room entries, length-last-le 0 entries)
pushes-with_capacity entries (suc n) = (
  pushes-last entries [] (with_capacity (suc n)) (omega arith) (unfold last in refl) ∙ ground arith,
  length-last-le (suc n) entries,
)
