-- ===== src/Examples/Configurations.antt =====
-- Runs of the configuration of crates/core/src/config/mod.rs.
use localref.Base.{◌≡◌, refl, Text, text, [], ◌∷◌, ◌++◌, none, some}
use localref.Config.Escape.{plain, read, escape_toml_basic, read-escape_toml_basic}
use localref.Config.Settings.{
  ConfigFile, LocalrefConfig, done, failed, Platform, from_config_file, check_logging, assemble,
}

-- A path with a quote, a backslash and a control.
abbrev awkward : Text
awkward = text "C:\\O'Brien" ++ 34 ∷ 7 ∷ []

read-escape_toml_basic_example : read plain (escape_toml_basic awkward) ≡ some awkward
read-escape_toml_basic_example = read-escape_toml_basic awkward

abbrev platform : Platform
platform = record {
  Addr = Text;
  parse_addr = λ value _. done value;
  show_addr = λ a. a;
  home_dir = failed (text "no home");
  join = λ a b. a ++ b'/' ∷ b;
}

abbrev file : ConfigFile
file = record {
  workspace_name = none;
  library_root = some (text "root");
  rest_addr = none;
  rest_endpoint = none;
  csc_addr = none;
  start_hidden = none;
  quiet_start = none;
  visible_columns = some (text "Year" ∷ text "Colour" ∷ text "Author" ∷ []);
  detail_width = some 1000;
  max_file_bytes = some 70000;
  backup_count = none;
}

abbrev config : LocalrefConfig platform
config = assemble platform file (text "root") (text "127.0.0.1:24817") (text "127.0.0.1:23119")

reads : from_config_file platform file ≡ done config
unfolding from_config_file check_logging
reads = refl
