-- ===== src/Host/PluginHost.antt =====
-- crates/host/src/plugin_host.rs: what a submitted form becomes on the way to a plugin, and what the
-- host does with the answer. A form is a map from keys to values in the order of its keys.
pub mod Forms
pub mod Downloads
use localref.Base.{
  ℕ, Text, text, List, [], ◌∷◌, Bool, true, false, not, ◌||◌, ◌==◌, if◌then◌else◌, Option, none,
  some, find, retain, contains, is_empty, str_eq, is_ascii_alphanumeric, is_whitespace, trim,
}
use localref.Plugin.Manifest.{UiTarget, UiAction, UiPage, PluginUiSpec}
use localref.Plugin.Protocol.{ActionArgs, split_ids}

abbrev pub reserved : List Text
unfolding text
reserved =
    text "plugin_action" ∷ text "action" ∷ text "return_to" ∷ text "selected" ∷ text "active" ∷ []

-- `or_else`
abbrev pub or_else {ℓ} : {A : Type ℓ} → Option A → Option A → Option A
or_else none other = other
or_else (some a) other = some a

abbrev pub option_eq : Option Text → Text → Bool
option_eq none name = false
option_eq (some x) name = str_eq x name

abbrev pub target_of_action : Option UiAction → Option UiTarget
target_of_action none = none
target_of_action (some a) = some a.target

abbrev pub target_of_page : Option UiPage → Option UiTarget
target_of_page none = none
target_of_page (some p) = some p.target

abbrev pub unwrap_target : Option UiTarget → UiTarget
unwrap_target none = UiTarget.nothing
unwrap_target (some t) = t

-- The target that the interface declares for an action.
unfoldable pub declared_target : Option PluginUiSpec → Text → UiTarget
unfolding find
declared_target none name = UiTarget.nothing
declared_target (some ui) name = unwrap_target (
    or_else (target_of_action (find (λ (a : UiAction). str_eq a.id name) ui.actions)) (
      or_else (target_of_page (find (λ (p : UiPage). option_eq p.action name) ui.pages))
        (target_of_page (find (λ (p : UiPage). option_eq p.preview name) ui.pages))))

unfoldable pub get : Text → List (Text × Text) → Option Text
get key [] = none
get key ((k, v) ∷ form) = if str_eq k key then some v else get key form

abbrev pub unwrap_text : Option Text → Text
unwrap_text none = []
unwrap_text (some s) = s

abbrev pub non_empty : Option Text → Option Text
non_empty none = none
non_empty (some s) = if is_empty s then none else some s

abbrev pub for_selection : UiTarget → List Text → List Text
for_selection UiTarget.selection ids = ids
for_selection UiTarget.active ids = []
for_selection UiTarget.nothing ids = []

abbrev pub for_active : UiTarget → Option Text → Option Text
for_active UiTarget.selection id = none
for_active UiTarget.active id = id
for_active UiTarget.nothing id = none

unfoldable pub is_param : (Text × Text) → Bool
unfolding contains
is_param entry = not (contains reserved entry.0)

unfoldable pub build_action_args :
    Option PluginUiSpec → Text → Text → List (Text × Text) → ActionArgs
unfolding declared_target get text
build_action_args ui action_name endpoint form = record {
  endpoint = endpoint;
  selected =
      for_selection (declared_target ui action_name)
        (split_ids (unwrap_text (get (text "selected") form)));
  active = for_active (declared_target ui action_name) (non_empty (get (text "active") form));
  params = retain is_param form;
}

abbrev pub timeout_of_action : Option UiAction → Option ℕ
timeout_of_action none = none
timeout_of_action (some a) = a.timeout_secs

abbrev pub timeout_of_page : Option UiPage → Option ℕ
timeout_of_page none = none
timeout_of_page (some p) = p.timeout_secs

unfoldable pub action_timeout_secs : Option PluginUiSpec → Text → Option ℕ
unfolding find
action_timeout_secs none name = none
action_timeout_secs (some ui) name =
    or_else (timeout_of_action (find (λ (a : UiAction). str_eq a.id name) ui.actions)) (
      timeout_of_page
        (find (λ (p : UiPage). option_eq p.action name || option_eq p.preview name) ui.pages))

-- The answer of a plugin.
pub record RunOutput : Type 0 where
  pub status : Text
  pub result : Option Text
  pub filename : Option Text
  pub message : Option Text

pub data RunOutcome : Type 0 where
  done : RunOutcome
  inline : Text → RunOutcome
  save : Text → Text → RunOutcome
  error : Text → RunOutcome

unfoldable pub is_kept : ℕ → Bool
unfolding is_ascii_alphanumeric
is_kept c = is_ascii_alphanumeric c || c == b'-' || c == b'_' || c == b'.'

-- `filter_map` over the characters
unfoldable pub safe_chars : Text → Text
safe_chars [] = []
safe_chars (c ∷ s) =
    let rest = safe_chars s in
    if is_kept c then c ∷ rest else if is_whitespace c then b'-' ∷ rest else rest

unfoldable pub safe_download_filename : Text → Text
unfolding safe_chars text
safe_download_filename value =
    let safe = safe_chars value in if is_empty safe then text "localref-export.txt" else safe

abbrev pub message_or_default : Option Text → Text
unfolding text
message_or_default none = text "plugin action failed"
message_or_default (some m) = m

abbrev pub outcome_of : Option Text → Option Text → RunOutcome
outcome_of (some result) (some filename) = save (safe_download_filename filename) result
outcome_of (some result) none = inline result
outcome_of none _ = done

unfoldable pub decide_run_outcome : RunOutput → RunOutcome
unfolding text
decide_run_outcome output =
    if not (str_eq output.status (text "ok"))
    then error (message_or_default output.message)
    else outcome_of output.result output.filename
