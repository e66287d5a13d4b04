-- ===== src/Examples/Logs.antt =====
-- Runs of the writer of the log of crates/core/src/logging.rs.
use localref.Base.{
  ℕ, ◌≡◌, refl, List, all, [], ◌∷◌, none, some, true, if◌then◌else◌, leb, ◌==◌, arith, length,
}
use localref.Logging.{LogFiles, SizeLimitedLogWriter, new, rotate}
use localref.Logging.Ring.{LogEntry}
use localref.Logging.Writing.{writes, Within, writes-Within}

abbrev log : List ℕ
log = 1 ∷ 2 ∷ 3 ∷ []

-- An active file and backup number one.
abbrev files : LogFiles
files = record { active = some log; backup = λ i. if i == 1 then some (9 ∷ []) else none }

abbrev writer : SizeLimitedLogWriter
writer = record { files = files; current_len = 3; max_bytes = 4; backup_count = 2 }

abbrev entry : List ℕ
entry = 7 ∷ 8 ∷ []

second_backup : (rotate writer).files.backup 2 ≡ some (9 ∷ [])
unfolding rotate
second_backup = refl

abbrev entries : List (List ℕ)
entries = entry ∷ (4 ∷ []) ∷ entry ∷ []

entries_fit : all (λ (e : List ℕ). leb (length e) 4) entries ≡ true
unfolding all
entries_fit = refl

writes-Within_example : Within 4 (writes entries (new files 4 2))
writes-Within_example = writes-Within files 4 2 entries entries_fit (omega arith)

abbrev logged : ℕ → LogEntry
logged id = record {
  id = id;
  ts = [];
  level = [];
  target = [];
  message = [];
  event_kind = none;
  item_id = none;
  path = none;
}

abbrev recent : List LogEntry
recent = logged 1 ∷ logged 2 ∷ logged 3 ∷ []
