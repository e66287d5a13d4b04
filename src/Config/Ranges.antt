-- ===== src/Config/Ranges.antt =====
-- What a configuration that was read satisfies.
use localref.Base.{
  ℕ, ◌*◌, ◌≤◌, ◌≡◌, refl, sym, ◌∙◌, Text, text, List, [], ◌∷◌, Bool, true, false, ◌&&◌, leb, retain,
  any, contains, str_eq, str_eq_iff, arith, Bool-cases, inl, inr,
}
use localref.Config.Settings.{
  ConfigFile, LocalrefConfig, Outcome, done, failed, ◌>>=◌, known_columns, visible, clamp,
  unwrap_or, from_config_file, require, root_of, check_logging, Platform, assemble,
}

contains-retain :
    (p : Text → Bool) (ks : List Text) (c : Text)
    → contains (retain p ks) c ≡ (contains ks c && p c)
unfolding contains any retain
contains-retain p [] c = refl
contains-retain p (k ∷ ks) c = elim (Bool-cases (str_eq k c)) [
  | inl same ↦ ground (arith, contains-retain p ks c, str_eq_iff k c)
  | inr other ↦ ground (arith, contains-retain p ks c)
]

any-contains : (c : Text) (ks : List Text) → any (λ k. str_eq k c) ks ≡ contains ks c
unfolding contains
any-contains c ks = refl

-- A column is shown exactly if it was asked for and is known.
pub contains-visible :
    (columns : List Text) (c : Text)
    → contains (visible columns) c ≡ (contains known_columns c && contains columns c)
unfolding visible
contains-visible columns c =
    let kept : List Text = retain (λ column. contains known_columns column) columns in
    contains-retain (λ known. any (λ column. str_eq column known) kept) known_columns c
    ∙ rw (any-contains c kept, contains-retain (contains known_columns) columns c) (ground arith)

clamp-bounds : (low high n : ℕ) → low ≤ high → (low ≤ clamp low high n) × (clamp low high n ≤ high)
unfolding clamp
clamp-bounds low high n h = ground arith

done-through :
    {A B : Type 0} (r : Outcome A) (rest : A → Outcome B) {b : B}
    → (r >>= rest) ≡ done b
    → (a : A) × (r ≡ done a) × (rest a ≡ done b)
done-through (done a) rest h = (a, refl, h)
done-through (failed e) rest h = cc

required : (b : Bool) (message : Text) → require b message ≡ done tt → b ≡ true
required true message h = refl
required false message h = cc

logging-checked :
    (file : ConfigFile)
    → check_logging file ≡ done tt
    → (64 * 1024 ≤ unwrap_or (10 * 1024 * 1024) file.max_file_bytes)
      × (unwrap_or 2 file.backup_count ≤ 10)
unfolding check_logging
logging-checked file h =
    let (_, bytes, backups) =
      done-through (require (leb (64 * 1024) (unwrap_or (10 * 1024 * 1024) file.max_file_bytes)) _)
        _ h in
    (ground (arith, required _ _ bytes), ground (arith, required _ _ backups))

module _ (platform : Platform) where
  open platform use {parse_addr}

  accepted :
      (file : ConfigFile) (config : LocalrefConfig platform)
      → from_config_file platform file ≡ done config
      → (root : Text) × (rest : platform.Addr) × (csc : platform.Addr) × (check_logging file
          ≡ done tt)
        × (assemble platform file root rest csc ≡ config)
  unfolding from_config_file
  accepted file config h =
      let (root, _, h1) = done-through (root_of platform file.library_root) _ h in
      let (rest, _, h2) =
        done-through
          (parse_addr (unwrap_or (text "127.0.0.1:24817") file.rest_addr) (text "rest.addr")) _
          h1 in
      let (csc, _, h3) =
        done-through
          (parse_addr (unwrap_or (text "127.0.0.1:23119") file.csc_addr) (text "csc.addr")) _ h2 in
      let (_, checks, h4) = done-through (check_logging file) _ h3 in
      (root, rest, csc, checks, ground arith)

  -- A configuration that `from_config_file` accepts has a detail width from 340 to 620, log files of
  -- 64 KiB or more and at most 10 backups, and shows exactly the known columns among those that were
  -- asked for, which are the first four if none were named.
  pub from_config_file-ranges :
      (file : ConfigFile) (config : LocalrefConfig platform)
      → from_config_file platform file ≡ done config
      → (340 ≤ config.desktop_detail_width)
        × (config.desktop_detail_width ≤ 620)
        × (64 * 1024 ≤ config.log_max_file_bytes)
        × (config.log_backup_count ≤ 10)
        × ((c : Text)
            → contains config.desktop_visible_columns c ≡ (
                contains known_columns c
                && contains
                    (unwrap_or
                      (text "Author" ∷ text "Venue" ∷ text "Year" ∷ text "Type" ∷ [])
                      file.visible_columns)
                    c))
  unfolding assemble
  from_config_file-ranges file config h =
      let (root, rest, csc, checks, same) = accepted file config h in
      let (bytes, backups) = logging-checked file checks in
      let (low, high) = clamp-bounds 340 620 (unwrap_or 420 file.detail_width) (omega arith) in
      let asked : List Text =
        unwrap_or (text "Author" ∷ text "Venue" ∷ text "Year" ∷ text "Type" ∷ [])
          file.visible_columns in
      rw (sym same) (low, high, bytes, backups, λ c. contains-visible asked c)
