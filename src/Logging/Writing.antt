-- ===== src/Logging/Writing.antt =====
-- What a write to the log of crates/core/src/logging.rs does to the active file and its backups.
use localref.Base.{
  ℕ, zero, suc, ◌+◌, ◌≡◌, ◌<◌, refl, List, all, [], ◌∷◌, ◌≤◌, leb, ◌∙◌, false, true, ◌++◌, Option,
  none, some, Bool, if◌then◌else◌, ltb, ◌&&◌, arith, length, length-append, saturating_add64-eq,
  u64_mod, Bool-cases, inl, inr,
}
use localref.Logging.{
  LogFiles, SizeLimitedLogWriter, content, is_full, open_append, new, rotate, append, write,
  rotate_files,
}
use localref.Logging.Rotation.{rotate_files-shifts}

-- The active file is open, and its length is counted.
abbrev pub IsOpen : List ℕ → SizeLimitedLogWriter → Type 0
IsOpen file w = (w.files.active ≡ some file) × (w.current_len ≡ length file)

append-IsOpen :
    (bytes file : List ℕ) (w : SizeLimitedLogWriter)
    → IsOpen file w
    → length file + length bytes < u64_mod
    → IsOpen (file ++ bytes) (append bytes w)
unfolding append
append-IsOpen bytes file w (active, counted) small = (
  ground arith,
  ground (arith, length-append file bytes, saturating_add64-eq (length file) (length bytes) small),
)

-- Whether a write starts a new file.
abbrev pub starts_new : List ℕ → List ℕ → ℕ → Bool
starts_new file bytes max_bytes = ltb 0 (length file) && ltb max_bytes (length file + length bytes)

rotate_files-active : (n : ℕ) (files : LogFiles) → (rotate_files n files).active ≡ none
unfolding rotate_files
rotate_files-active zero files = refl
rotate_files-active (suc n) files = (rotate_files-shifts n files 0).0

rotate-IsOpen : (w : SizeLimitedLogWriter) → IsOpen [] (rotate w)
unfolding rotate open_append
rotate-IsOpen w = (ground (arith, rotate_files-active w.backup_count w.files), refl)

write-starts_new :
    (bytes file : List ℕ) (w : SizeLimitedLogWriter)
    → IsOpen file w
    → length file + length bytes < u64_mod
    → write bytes w
      ≡ (if starts_new file bytes w.max_bytes then append bytes (rotate w) else append bytes w)
unfolding write
write-starts_new bytes file w (active, counted) small =
    rw (counted, saturating_add64-eq (length file) (length bytes) small)

-- A write to an open writer, below the range of a 64-bit word, keeps its count right and its limits
-- as they are. The bytes start a new file after a rotation where the active file has bytes and would
-- pass the limit, and are added to it otherwise; no byte of them is cut.
pub write-outcome :
    (bytes file : List ℕ) (w : SizeLimitedLogWriter)
    → IsOpen file w
    → length file + length bytes < u64_mod
    → IsOpen (if starts_new file bytes w.max_bytes then bytes else file ++ bytes) (write bytes w)
      × ((write bytes w).files.backup ≡ (
          if starts_new file bytes w.max_bytes
          then (rotate_files w.backup_count w.files).backup
          else w.files.backup))
      × ((write bytes w).max_bytes ≡ w.max_bytes)
      × ((write bytes w).backup_count ≡ w.backup_count)
unfolding append rotate open_append
write-outcome bytes file w is_open small =
    let written = write-starts_new bytes file w is_open small in
    elim (Bool-cases (starts_new file bytes w.max_bytes)) [
      | inl fresh ↦
          let appended =
            append-IsOpen bytes [] (rotate w) (rotate-IsOpen w) (omega (arith, small)) in
          ((ground arith, ground arith), ground arith, ground arith, ground arith)
      | inr goes_on ↦
          let appended = append-IsOpen bytes file w is_open small in
          ((ground arith, ground arith), ground arith, ground arith, ground arith)
    ]

-- One write for each entry.
abbrev pub writes : List (List ℕ) → SizeLimitedLogWriter → SizeLimitedLogWriter
writes [] w = w
writes (bytes ∷ rest) w = writes rest (write bytes w)

abbrev pub Within : ℕ → SizeLimitedLogWriter → Type 0
Within limit w = (file : List ℕ) × IsOpen file w × (length file ≤ limit) × (w.max_bytes ≡ limit)

write-Within :
    (bytes : List ℕ) (limit : ℕ) (w : SizeLimitedLogWriter)
    → Within limit w
    → length bytes ≤ limit
    → limit + limit < u64_mod
    → Within limit (write bytes w)
write-Within bytes limit w (file, is_open, within, max) fits small =
    let (opened, _, kept, _) = write-outcome bytes file w is_open (omega (arith, small)) in
    (
      if starts_new file bytes w.max_bytes then bytes else file ++ bytes,
      opened,
      ground (arith, length-append file bytes),
      kept ∙ max,
    )

writes-Within-from :
    (entries : List (List ℕ)) (limit : ℕ) (w : SizeLimitedLogWriter)
    → Within limit w
    → all (λ (e : List ℕ). leb (length e) limit) entries ≡ true
    → limit + limit < u64_mod
    → Within limit (writes entries w)
unfolding all
writes-Within-from [] limit w within fit small = within
writes-Within-from (bytes ∷ rest) limit w within fit small =
    writes-Within-from rest limit (write bytes w)
      (write-Within bytes limit w within (ground arith) small) (ground arith) small

length-content-le :
    (active : Option (List ℕ)) (limit : ℕ)
    → is_full active limit ≡ false
    → length (content active) ≤ limit
length-content-le none limit h = omega arith
length-content-le (some file) limit h = ground arith

new-Within : (files : LogFiles) (limit n : ℕ) → Within limit (new files limit n)
unfolding new open_append
new-Within files limit n =
    let files' = if is_full files.active limit then rotate_files n files else files in
    let bound : length (content files'.active) ≤ limit =
      elim (Bool-cases (is_full files.active limit)) [
        | inl full ↦ ground (arith, rotate_files-active n files)
        | inr room ↦ ground (arith, length-content-le files.active limit room)
      ] in
    (content files'.active, (refl, refl), bound, refl)

-- A writer opens on any files, and after any entries of which none is above the limit, which is
-- below half the range of a 64-bit word, the active file is open, its length is counted, and it is
-- not above the limit.
pub writes-Within :
    (files : LogFiles) (limit n : ℕ) (entries : List (List ℕ))
    → all (λ (e : List ℕ). leb (length e) limit) entries ≡ true
    → limit + limit < u64_mod
    → Within limit (writes entries (new files limit n))
writes-Within files limit n entries fit small =
    writes-Within-from entries limit (new files limit n) (new-Within files limit n) fit small
