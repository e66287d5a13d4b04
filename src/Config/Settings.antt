-- ===== src/Config/Settings.antt =====
-- `from_config_file` of crates/core/src/config/mod.rs with the setters that it uses. The home
-- directory, the parsing of socket addresses and their printing are parameters.
use localref.Base.{
  ℕ, ◌*◌, Text, text, List, [], ◌∷◌, ◌++◌, Bool, true, false, ltb, leb, if◌then◌else◌, Option, none,
  some, is_empty, retain, any, contains, str_eq, trim,
}

-- `ConfigFile` with its tables; a table that is missing has no entry.
pub record ConfigFile : Type 0 where
  pub workspace_name : Option Text
  pub library_root : Option Text
  pub rest_addr : Option Text
  pub rest_endpoint : Option Text
  pub csc_addr : Option Text
  pub start_hidden : Option Bool
  pub quiet_start : Option Bool
  pub visible_columns : Option (List Text)
  pub detail_width : Option ℕ
  pub max_file_bytes : Option ℕ
  pub backup_count : Option ℕ

abbrev pub unwrap_or {ℓ} : {A : Type ℓ} → A → Option A → A
unwrap_or d none = d
unwrap_or d (some a) = a

unfoldable pub known_columns : List Text
unfolding text
known_columns = text "Author" ∷ text "Venue" ∷ text "Year" ∷ text "Type" ∷ text "Categories" ∷ []

-- `set_desktop_visible_columns`: what it keeps, in the order of the known columns
unfoldable pub visible : List Text → List Text
visible columns =
    let kept = retain (λ column. contains known_columns column) columns in
    retain (λ known. any (λ column. str_eq column known) kept) known_columns

-- `clamp`
unfoldable pub clamp : ℕ → ℕ → ℕ → ℕ
clamp low high n = if ltb n low then low else if ltb high n then high else n

-- `workspace_name`: cut, and replaced if nothing is left
abbrev pub workspace : Option Text → Text
workspace none = text "Localref"
workspace (some value) = if is_empty (trim value) then text "Localref" else trim value

pub data Outcome (A : Type 0) : Type 0 where
  done : A → Outcome A
  failed : Text → Outcome A

infixl 5 ◌>>=◌
abbrev pub ◌>>=◌ : {A B : Type 0} → Outcome A → (A → Outcome B) → Outcome B
failed e >>= f = failed e
done a >>= f = f a

abbrev pub require : Bool → Text → Outcome (Unit {0})
require true message = done tt
require false message = failed message

-- The checks of the table `logging`.
unfoldable pub check_logging : ConfigFile → Outcome (Unit {0})
unfolding text
check_logging file =
    require (leb (64 * 1024) (unwrap_or (10 * 1024 * 1024) file.max_file_bytes))
      (text "logging.max_file_bytes must be at least 65536")
    >>= λ _.
        require (leb (unwrap_or 2 file.backup_count) 10)
          (text "logging.backup_count must be between 0 and 10")

-- What the code takes from the standard library and the system: socket addresses, the home directory
-- and the joining of paths.
pub record Platform : Type 1 where
  pub Addr : Type 0
  pub parse_addr : Text → Text → Outcome Addr
  pub show_addr : Addr → Text
  pub home_dir : Outcome Text
  pub join : Text → Text → Text

module _ (platform : Platform) where
  open platform use {Addr, parse_addr, show_addr, home_dir, join}

  pub record LocalrefConfig : Type 0 where
    pub workspace_name : Text
    pub library_root : Text
    pub rest_addr : Addr
    pub rest_endpoint : Text
    pub csc_addr : Addr
    pub desktop_start_hidden : Bool
    pub desktop_quiet_start : Bool
    pub desktop_visible_columns : List Text
    pub desktop_detail_width : ℕ
    pub log_max_file_bytes : ℕ
    pub log_backup_count : ℕ
    pub plugins_dir : Text

  abbrev pub root_of : Option Text → Outcome Text
  root_of (some path) = done path
  root_of none = home_dir >>= λ home. done (join (join home (text ".localref")) (text "libroot"))

  -- The configuration once everything is checked.
  unfoldable pub assemble : ConfigFile → Text → Addr → Addr → LocalrefConfig
  unfolding text visible clamp
  assemble file library_root rest_addr csc_addr = record {
    workspace_name = workspace file.workspace_name;
    library_root = library_root;
    rest_addr = rest_addr;
    rest_endpoint = unwrap_or (text "http://" ++ show_addr rest_addr) file.rest_endpoint;
    csc_addr = csc_addr;
    desktop_start_hidden = unwrap_or true file.start_hidden;
    desktop_quiet_start = unwrap_or true file.quiet_start;
    desktop_visible_columns = visible (
        unwrap_or (text "Author" ∷ text "Venue" ∷ text "Year" ∷ text "Type" ∷ [])
          file.visible_columns);
    desktop_detail_width = clamp 340 620 (unwrap_or 420 file.detail_width);
    log_max_file_bytes = unwrap_or (10 * 1024 * 1024) file.max_file_bytes;
    log_backup_count = unwrap_or 2 file.backup_count;
    plugins_dir = join (join library_root (text ".localref")) (text "plugins");
  }

  unfoldable pub from_config_file : ConfigFile → Outcome LocalrefConfig
  from_config_file file = do
    library_root ← root_of file.library_root
    rest_addr ← parse_addr (unwrap_or (text "127.0.0.1:24817") file.rest_addr) (text "rest.addr")
    csc_addr ← parse_addr (unwrap_or (text "127.0.0.1:23119") file.csc_addr) (text "csc.addr")
    _ ← check_logging file
    done (assemble file library_root rest_addr csc_addr)
