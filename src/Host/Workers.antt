-- ===== src/Host/Workers.antt =====
-- `register_worker_failure` and `worker_restart_delay` of crates/host/src/scheduler.rs. Times are
-- nanoseconds of the monotonic clock.
use localref.Base.{
  ℕ, ◌+◌, ◌-◌, ◌*◌, ◌≤◌, ◌≡◌, refl, Text, List, [], ◌∷◌, ◌++◌, Bool, true, false, not,
  if◌then◌else◌, ltb, ◌==◌, Option, none, some, length, retain, drop_start, arith, length-append,
  Bool-cases, inl, inr,
}
use localref.Host.Health.{RuntimeHealthSnapshot, degraded, fatal, is_fatal, update}

abbrev pub window : ℕ
window = 300 * 1000000000

-- `duration_since` is zero for a time that has not come.
abbrev pub is_old : ℕ → ℕ → Bool
is_old now failure = ltb window (now - failure)

-- The seconds to wait.
abbrev pub worker_restart_delay : ℕ → Option ℕ
worker_restart_delay failure_count =
    if failure_count == 1
    then some 1
    else if failure_count == 2
    then some 5
    else if failure_count == 3
    then some 30
    else none

-- The failures that count, and the new one.
unfoldable pub remember : ℕ → List ℕ → List ℕ
unfolding drop_start
remember now failures = drop_start (is_old now) failures ++ now ∷ []

abbrev pub health_after : Text → Text → ℕ → Option ℕ → RuntimeHealthSnapshot → RuntimeHealthSnapshot
health_after component message count none health = update fatal component message count health
health_after component message count (some delay) health =
    update degraded component message count health

-- The delay, the failures to remember and the health.
unfoldable pub register_worker_failure :
    Text → Text → ℕ → List ℕ → RuntimeHealthSnapshot → Option ℕ × (List ℕ × RuntimeHealthSnapshot)
unfolding remember
register_worker_failure component message now failures health =
    let failures' = remember now failures in
    let delay = worker_restart_delay (length failures') in
    (delay, (failures', health_after component message (length failures') delay health))

-- Times do not fall along the list, and none is after `now`.
abbrev pub IsHistory : ℕ → ℕ → List ℕ → Type 0
IsHistory low now [] = Unit {0}
IsHistory low now (t ∷ ts) = (low ≤ t) × (t ≤ now) × IsHistory t now ts

-- How many failures lie within the window.
unfoldable pub recent : ℕ → List ℕ → ℕ
unfolding retain
recent now failures = length (retain (λ t. not (is_old now t)) failures)

fresh-retain :
    (low now : ℕ) (ts : List ℕ)
    → IsHistory low now ts
    → is_old now low ≡ false
    → retain (λ t. not (is_old now t)) ts ≡ ts
unfolding retain
fresh-retain low now [] h fresh = refl
fresh-retain low now (t ∷ ts) (le, _, rest) fresh =
    let still : is_old now t ≡ false = ground arith in
    rw still (ground (arith, fresh-retain t now ts rest still))

drop-retain :
    (low now : ℕ) (ts : List ℕ)
    → IsHistory low now ts
    → drop_start (is_old now) ts ≡ retain (λ t. not (is_old now t)) ts
unfolding drop_start retain
drop-retain low now [] h = refl
drop-retain low now (t ∷ ts) (le, _, rest) = elim (Bool-cases (is_old now t)) [
  | inl old ↦ rw old (drop-retain t now ts rest)
  | inr fresh ↦ rw (fresh, fresh-retain t now ts rest fresh)
]

IsHistory-append :
    (low now : ℕ) (ts : List ℕ)
    → IsHistory low now ts
    → low ≤ now
    → IsHistory low now (ts ++ now ∷ [])
IsHistory-append low now [] h le = ground arith
IsHistory-append low now (t ∷ ts) (a, b, rest) le = (a, b, IsHistory-append t now ts rest b)

remember_eq :
    (low now : ℕ) (ts : List ℕ)
    → IsHistory low now ts
    → remember now ts ≡ retain (λ t. not (is_old now t)) ts ++ now ∷ []
unfolding remember
remember_eq low now ts h = rw (drop-retain low now ts h)

IsHistory-drop :
    (p : ℕ → Bool) (low now : ℕ) (ts : List ℕ)
    → IsHistory low now ts
    → IsHistory low now (drop_start p ts)
unfolding drop_start
IsHistory-drop p low now [] h = h
IsHistory-drop p low now (t ∷ ts) (a, b, rest) =
    ground (arith, lower low t now (drop_start p ts) a, IsHistory-drop p t now ts rest)
  where
    lower : (m n now : ℕ) (ts : List ℕ) → m ≤ n → IsHistory n now ts → IsHistory m now ts
    lower m n now [] le h = tt
    lower m n now (t ∷ ts) le (a, b, rest) = (omega arith, b, rest)

counted :
    (low now : ℕ) (ts : List ℕ)
    → IsHistory low now ts
    → length (remember now ts) ≡ recent now ts + 1
unfolding recent
counted low now ts h =
    rw (remember_eq low now ts h) (length-append (retain (λ t. not (is_old now t)) ts) (now ∷ []))

remember-IsHistory :
    (now : ℕ) (ts : List ℕ) → IsHistory 0 now ts → IsHistory 0 now (remember now ts)
unfolding remember
remember-IsHistory now ts h =
    IsHistory-append 0 now (drop_start (is_old now) ts) (IsHistory-drop (is_old now) 0 now ts h)
      (omega arith)

delay_after :
    (n : ℕ)
    → worker_restart_delay (n + 1)
      ≡ (if n == 0 then some 1 else if n == 1 then some 5 else if n == 2 then some 30 else none)
delay_after n = ground arith

given_up :
    (component message : Text) (n k : ℕ) (health : RuntimeHealthSnapshot)
    → 3 ≤ n
    → is_fatal (health_after component message k (worker_restart_delay (n + 1)) health).state ≡ true
unfolding update
given_up component message n k health le =
    let stopped : worker_restart_delay (n + 1) ≡ none = ground arith in rw stopped (ground arith)

-- With the earlier failures in order of their times and none later than now: the worker is given up
-- exactly if three failures or more lie within the last 300 seconds; it then
-- counts as fatal, and otherwise it is restarted after 1, 5 or 30 seconds, by the number of failures
-- within that time. The failures that are remembered are those and the new one, still in order.
pub register_worker_failure-gives_up :
    (component message : Text) (now : ℕ) (failures : List ℕ) (health : RuntimeHealthSnapshot)
    → IsHistory 0 now failures
    → let (delay, (failures', health')) =
        register_worker_failure component message now failures health in
      (length failures' ≡ recent now failures + 1)
      × IsHistory 0 now failures'
      × (delay ≡ (
          if recent now failures == 0
          then some 1
          else if recent now failures == 1
          then some 5
          else if recent now failures == 2
          then some 30
          else none))
      × (3 ≤ recent now failures → is_fatal health'.state ≡ true)
unfolding register_worker_failure
register_worker_failure-gives_up component message now failures health h =
    let count : length (remember now failures) ≡ recent now failures + 1 =
      counted 0 now failures h in
    (
      count,
      remember-IsHistory now failures h,
      rw count (delay_after (recent now failures)),
      λ le.
          rw count
            (given_up component message (recent now failures) (recent now failures + 1) health le),
    )
