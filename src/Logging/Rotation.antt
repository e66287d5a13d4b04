-- ===== src/Logging/Rotation.antt =====
-- What a rotation of the log of crates/core/src/logging.rs does to the files.
use localref.Base.{
  ℕ, zero, suc, ◌≡◌, ◌∙◌, List, Option, none, if◌then◌else◌, leb, ◌==◌, arith, Option-cases, inl,
  inr,
}
use localref.Logging.{LogFiles, put, rename_backup, shift, move_active, rotate_files}

rename_backup-at :
    (i : ℕ) (backup : ℕ → Option (List ℕ)) (j : ℕ)
    → backup (suc i) ≡ none
    → rename_backup i backup j
      ≡ (if j == suc i then backup i else if j == i then none else backup j)
unfolding rename_backup
rename_backup-at i backup j free = elim (Option-cases (backup i)) [
  | inl e ↦ ground arith
  | inr (file, e) ↦ ground arith
]

shift-at :
    (n : ℕ) (backup : ℕ → Option (List ℕ)) (j : ℕ)
    → backup (suc n) ≡ none
    → shift n backup (suc j)
      ≡ (if j == 0 then none else if leb j n then backup j else backup (suc j))
unfolding shift
shift-at zero backup j free = ground arith
shift-at (suc n) backup j free =
    shift-at n (rename_backup (suc n) backup) j
      (ground (arith, rename_backup-at (suc n) backup (suc n) free))
    ∙ ground (
      arith,
      rename_backup-at (suc n) backup j free,
      rename_backup-at (suc n) backup (suc j) free,
    )

-- A rotation that keeps at least one backup leaves no active file. What was the active file is
-- backup number one, each backup below the last has the next number, the last one is gone, and a
-- file with a higher number is left alone; where a number had no file, the next one has none.
pub rotate_files-shifts :
    (n : ℕ) (files : LogFiles) (j : ℕ)
    → ((rotate_files (suc n) files).active ≡ none)
      × ((rotate_files (suc n) files).backup (suc j) ≡ (
          if j == 0
          then files.active
          else if leb j n
          then files.backup j
          else files.backup (suc j)))
unfolding rotate_files move_active
rotate_files-shifts n files j = elim (Option-cases files.active) [
  | inl e ↦
      (ground arith, ground (arith, shift-at n (put (suc n) none files.backup) j (ground arith)))
  | inr (file, e) ↦
      (ground arith, ground (arith, shift-at n (put (suc n) none files.backup) j (ground arith)))
]
