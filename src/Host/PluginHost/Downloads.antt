-- ===== src/Host/PluginHost/Downloads.antt =====
-- What `decide_run_outcome` and `safe_download_filename` of crates/host/src/plugin_host.rs give.
use localref.Base.{
  ◌≡◌, ◌↔◌, ◌⊎◌, refl, Text, text, [], ◌∷◌, Bool, true, false, ◌&&◌, not, Option, none, some, all,
  is_empty, str_eq, str_eq_iff, arith, Bool-cases, inl, inr,
}
use localref.Host.PluginHost.{
  RunOutput, save, is_kept, safe_chars, safe_download_filename, decide_run_outcome, outcome_of,
}

-- A name that may be offered.
abbrev pub is_offered : Text → Bool
is_offered s = all is_kept s && not (is_empty s)

dash_kept : is_kept b'-' ≡ true
unfolding is_kept
dash_kept = refl

default_offered : is_offered (text "localref-export.txt") ≡ true
unfolding text all is_kept
default_offered = refl

all-safe_chars : (s : Text) → all is_kept (safe_chars s) ≡ true
unfolding all safe_chars
all-safe_chars [] = refl
all-safe_chars (c ∷ s) = ground (arith, dash_kept, all-safe_chars s)

safe_chars_kept : (s : Text) → all is_kept s ≡ true → safe_chars s ≡ s
unfolding all safe_chars
safe_chars_kept [] h = refl
safe_chars_kept (c ∷ s) h = ground (arith, safe_chars_kept s)

is_offered-safe_download_filename : (s : Text) → is_offered (safe_download_filename s) ≡ true
unfolding safe_download_filename
is_offered-safe_download_filename s = elim (Bool-cases (is_empty (safe_chars s))) [
  | inl e ↦ rw e default_offered
  | inr e ↦ rw e (rw (all-safe_chars s, e) (refl))
]

safe_download_filename_fixed : (s : Text) → is_offered s ≡ true → safe_download_filename s ≡ s
unfolding safe_download_filename
safe_download_filename_fixed s h = ground (arith, safe_chars_kept s)

offered_or_fixed : (s : Text) → (is_offered s ≡ false) ⊎ (safe_download_filename s ≡ s)
offered_or_fixed s = elim (Bool-cases (is_offered s)) [
  | inl yes_offered ↦ inr (safe_download_filename_fixed s yes_offered)
  | inr other ↦ inl other
]

Saved : Text → Text → Option Text → Option Text → Type 0
Saved name content result filename =
    (result ≡ some content)
    × ((given : Text) × (filename ≡ some given) × (name ≡ safe_download_filename given))

outcome_of-save :
    (name content : Text) (result filename : Option Text)
    → outcome_of result filename ≡ save name content
    → Saved name content result filename
unfolding Saved
outcome_of-save name content (some r) (some f) h = (ground arith, (f, refl, ground arith))
outcome_of-save name content (some r) none h = cc
outcome_of-save name content none filename h = cc

save-outcome_of :
    (name content : Text) (result filename : Option Text)
    → Saved name content result filename
    → outcome_of result filename ≡ save name content
unfolding Saved
save-outcome_of name content result filename (e, (given, f, n)) = rw (e, f, n) refl

-- The host saves a file exactly for an answer of status `ok` with a result, which is the content, and
-- a file name, of which it offers the safe form. That is never empty and has only letters and digits
-- of ASCII, dashes, underscores and dots, and a name of this form is offered as it is.
pub decide_run_outcome_iff :
    (output : RunOutput) (name content : Text)
    → ((decide_run_outcome output ≡ save name content) ↔ (
        (output.status ≡ text "ok")
        × (output.result ≡ some content)
        × ((given : Text) × (output.filename ≡ some given)
            × (name ≡ safe_download_filename given))))
      × ((given : Text)
          → (is_offered (safe_download_filename given) ≡ true)
            × ((is_offered given ≡ false) ⊎ (safe_download_filename given ≡ given)))
unfolding decide_run_outcome Saved
decide_run_outcome_iff output name content = (
  (
    λ h. elim (Bool-cases (str_eq output.status (text "ok"))) [
      | inl same ↦
          let (result, filename) =
            outcome_of-save name content output.result output.filename (ground arith) in
          ((str_eq_iff output.status (text "ok")).0 same, result, filename)
      | inr other ↦ absurd (ground arith)
    ],
    λ (status, result, filename).
        rw ((str_eq_iff output.status (text "ok")).1 status)
          (save-outcome_of name content output.result output.filename (result, filename)),
  ),
  λ given. (is_offered-safe_download_filename given, offered_or_fixed given),
)
