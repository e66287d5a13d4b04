-- ===== src/Host/Health.antt =====
-- crates/host/src/health.rs: the snapshot behind the mutex of `RuntimeHealthTracker`.
use localref.Base.{
  ℕ, ◌≤◌, ◌<◌, ◌≡◌, Text, text, List, [], ◌∷◌, Bool, true, false, not, ◌||◌, ◌&&◌, if◌then◌else◌,
  any, saturating_add64, saturating_add64-ge, saturating_add64-le, arith, u64_mod,
}

pub data RuntimeHealthState : Type 0 where
  healthy degraded fatal : RuntimeHealthState

pub record RuntimeHealthSnapshot : Type 0 where
  pub state : RuntimeHealthState
  pub component : Text
  pub message : Text
  pub occurrence_count : ℕ
  pub generation : ℕ

-- `RuntimeHealthSnapshot::default`
unfoldable pub initial : RuntimeHealthSnapshot
unfolding text
initial = record {
  state = healthy;
  component = text "runtime";
  message = text "Localref runtime is healthy";
  occurrence_count = 0;
  generation = 0;
}

abbrev pub is_fatal : RuntimeHealthState → Bool
is_fatal fatal = true
is_fatal _ = false

unfoldable pub update :
    RuntimeHealthState → Text → Text → ℕ → RuntimeHealthSnapshot → RuntimeHealthSnapshot
update state component message occurrence_count health =
    if is_fatal health.state && not (is_fatal state) then health else record {
      state = state;
      component = component;
      message = message;
      occurrence_count = occurrence_count;
      generation = saturating_add64 health.generation 1;
    }

-- One call of `degraded` or `fatal`.
pub record Report : Type 0 where
  pub is_crash : Bool
  pub component : Text
  pub message : Text
  pub count : ℕ

unfoldable pub report : Report → RuntimeHealthSnapshot → RuntimeHealthSnapshot
unfolding update
report r health =
    update (if r.is_crash then fatal else degraded) r.component r.message r.count health

unfoldable pub reports : List Report → RuntimeHealthSnapshot → RuntimeHealthSnapshot
unfolding report
reports [] health = health
reports (r ∷ rs) health = reports rs (report r health)

is_fatal-report :
    (r : Report) (health : RuntimeHealthSnapshot)
    → is_fatal (report r health).state ≡ (is_fatal health.state || r.is_crash)
unfolding report update
is_fatal-report r health = ground arith

generation-report :
    (r : Report) (health : RuntimeHealthSnapshot)
    → health.generation < u64_mod
    → (health.generation ≤ (report r health).generation) × ((report r health).generation < u64_mod)
unfolding report update
generation-report r health h =
    ground (arith, saturating_add64-ge health.generation 1, saturating_add64-le health.generation 1)

-- From a generation within 64 bits: after any sequence of reports the runtime counts as fatally broken exactly if it was before or one
-- of them was a crash: no later report of a lesser state takes it back. The generation never falls
-- and never overflows.
pub reports-is_fatal :
    (rs : List Report) (health : RuntimeHealthSnapshot)
    → health.generation < u64_mod
    → (is_fatal (reports rs health).state
        ≡ (is_fatal health.state || any (λ (r : Report). r.is_crash) rs))
      × (health.generation ≤ (reports rs health).generation)
      × ((reports rs health).generation < u64_mod)
unfolding reports any
reports-is_fatal [] health h = ground arith
reports-is_fatal (r ∷ rs) health h =
    let (le, lt) = generation-report r health h in
    let (broken, le', lt') = reports-is_fatal rs (report r health) lt in
    ground (arith, broken, is_fatal-report r health)
