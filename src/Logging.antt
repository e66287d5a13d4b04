-- ===== src/Logging.antt =====
-- crates/core/src/logging.rs: `SizeLimitedLogWriter` and `rotate_files` where every call of the
-- operating system succeeds. A file is its bytes; backups are known by their number.
use localref.Base.{
  ℕ, zero, suc, ◌+◌, List, [], ◌∷◌, ◌++◌, Option, none, some, Bool, false, ◌&&◌, if◌then◌else◌, ltb,
  leb, ◌==◌, length, saturating_add64,
}
pub mod Ring
pub mod Rotation
pub mod Writing

-- The active file, and the file of each number, in one directory.
pub record LogFiles : Type 0 where
  pub active : Option (List ℕ)
  pub backup : ℕ → Option (List ℕ)

abbrev pub put : ℕ → Option (List ℕ) → (ℕ → Option (List ℕ)) → (ℕ → Option (List ℕ))
put i file backup j = if j == i then file else backup j

-- `fs::rename`, where the source exists
unfoldable pub rename_backup : ℕ → (ℕ → Option (List ℕ)) → (ℕ → Option (List ℕ))
rename_backup i backup = elim (backup i) [
  | none ↦ backup
  | some file ↦ put (suc i) (some file) (put i none backup)
]

-- The numbers from `i` down to 1.
unfoldable pub shift : ℕ → (ℕ → Option (List ℕ)) → (ℕ → Option (List ℕ))
unfolding rename_backup
shift zero backup = backup
shift (suc i) backup = shift i (rename_backup (suc i) backup)

-- The active file becomes the first backup.
unfoldable pub move_active : LogFiles → LogFiles
move_active files = elim files.active [
  | none ↦ files
  | some file ↦ record { active = none; backup = put 1 (some file) files.backup }
]

unfoldable pub rotate_files : ℕ → LogFiles → LogFiles
unfolding shift move_active
rotate_files zero files = record files { active = none }
rotate_files (suc n) files =
    move_active (record files { backup = shift n (put (suc n) none files.backup) })

-- The bytes behind the buffer are counted as written.
pub record SizeLimitedLogWriter : Type 0 where
  pub files : LogFiles
  pub current_len : ℕ
  pub max_bytes : ℕ
  pub backup_count : ℕ

-- `File::options().create(true).append(true).open`
abbrev pub content : Option (List ℕ) → List ℕ
content none = []
content (some file) = file

unfoldable pub open_append : LogFiles → LogFiles
open_append files = record files { active = some (content files.active) }

abbrev pub is_full : Option (List ℕ) → ℕ → Bool
is_full none max_bytes = false
is_full (some file) max_bytes = leb max_bytes (length file)

unfoldable pub new : LogFiles → ℕ → ℕ → SizeLimitedLogWriter
unfolding rotate_files open_append
new files max_bytes backup_count =
    let files' =
      open_append
        (if is_full files.active max_bytes then rotate_files backup_count files else files) in
    record {
      files = files';
      current_len = length (content files'.active);
      max_bytes = max_bytes;
      backup_count = backup_count;
    }

unfoldable pub rotate : SizeLimitedLogWriter → SizeLimitedLogWriter
unfolding rotate_files open_append
rotate w = record w { files = open_append (rotate_files w.backup_count w.files); current_len = 0 }

-- `write_all`, and the count of the bytes
unfoldable pub append : List ℕ → SizeLimitedLogWriter → SizeLimitedLogWriter
append bytes w = record w {
  files = record w.files { active = some (content w.files.active ++ bytes) };
  current_len = saturating_add64 w.current_len (length bytes);
}

unfoldable pub write : List ℕ → SizeLimitedLogWriter → SizeLimitedLogWriter
unfolding rotate append
write bytes w =
    if ltb 0 w.current_len && ltb w.max_bytes (saturating_add64 w.current_len (length bytes))
    then append bytes (rotate w)
    else append bytes w
