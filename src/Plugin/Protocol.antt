-- ===== src/Plugin/Protocol.antt =====
-- How the host speaks to a plugin: the argument vectors of crates/plugin/src/invoke.rs, and
-- `parse_args` of crates/plugin-sdk/src/runtime.rs, which reads them in the plugin.
pub mod Reading
use localref.Base.{
  Text, text, List, [], ◌∷◌, ◌++◌, Bool, true, false, ◌||◌, not, if◌then◌else◌, Option, none, some,
  String, str_eq, split, split_once, is_empty, retain,
}

pub record ActionArgs : Type 0 where
  pub endpoint : Text
  pub selected : List Text
  pub active : Option Text
  pub params : List (Text × Text)

pub record HookArgs : Type 0 where
  pub endpoint : Text
  pub item : Option Text
  pub category : Option Text

-- `join(",")`
unfoldable pub join_ids : List Text → Text
join_ids [] = []
join_ids (x ∷ []) = x
join_ids (x ∷ y ∷ xs) = x ++ b',' ∷ join_ids (y ∷ xs)

abbrev pub flagged : String → Option Text → List Text
flagged flag none = []
flagged flag (some value) = text flag ∷ value ∷ []

unfoldable pub selected_argv : List Text → List Text
unfolding join_ids
selected_argv [] = []
selected_argv (x ∷ xs) = text "--selected" ∷ join_ids (x ∷ xs) ∷ []

unfoldable pub params_argv : List (Text × Text) → List Text
params_argv [] = []
params_argv ((key, value) ∷ params) = text "--param" ∷ (key ++ b'=' ∷ value) ∷ params_argv params

unfoldable pub build_argv : Text → ActionArgs → List Text
unfolding selected_argv params_argv
build_argv action args =
    text "run"
    ∷ action
    ∷ text "--endpoint"
    ∷ args.endpoint
    ∷ (selected_argv args.selected ++ (flagged "--active" args.active ++ params_argv args.params))

unfoldable pub build_hook_argv : Text → HookArgs → List Text
build_hook_argv event args =
    text "hook"
    ∷ event
    ∷ text "--endpoint"
    ∷ args.endpoint
    ∷ (flagged "--item" args.item ++ flagged "--category" args.category)

unfoldable pub build_cron_argv : Text → Text → List Text
build_cron_argv job endpoint = text "cron" ∷ job ∷ text "--endpoint" ∷ endpoint ∷ []

-- A hash map from the names of parameters to their values.
unfoldable pub insert_param : Text → Text → List (Text × Text) → List (Text × Text)
insert_param key value [] = (key, value) ∷ []
insert_param key value ((k, v) ∷ rest) =
    let inserted = insert_param key value rest in
    if str_eq k key then (key, value) ∷ rest else (k, v) ∷ inserted

pub record RunFlags : Type 0 where
  pub endpoint : Text
  pub selected : List Text
  pub active : Option Text
  pub params : List (Text × Text)

pub data Invocation : Type 0 where
  run : Text → RunFlags → Invocation
  hook : Text → HookArgs → Invocation
  cron : Text → Text → Invocation
  manifest : Invocation

-- `while let Some(flag) = args.next()`, where a flag that takes a value takes the next argument.
unfoldable pub read_flags {ℓ} :
    {S : Type ℓ} → (Text → Bool) → (Text → Option Text → S → S) → List Text → S → S
read_flags takes turn [] s = s
read_flags takes turn (flag ∷ []) s = if takes flag then turn flag none s else s
read_flags takes turn (flag ∷ value ∷ rest) s =
    let taken = read_flags takes turn rest (turn flag (some value) s) in
    let skipped = read_flags takes turn (value ∷ rest) s in if takes flag then taken else skipped

abbrev pub unwrap_or_default : Option Text → Text
unwrap_or_default none = []
unwrap_or_default (some value) = value

unfoldable pub split_ids : Text → List Text
unfolding split retain
split_ids csv = retain (λ s. not (is_empty s)) (split b',' csv)

unfoldable pub run_takes : Text → Bool
run_takes flag =
    str_eq flag (text "--endpoint")
    || str_eq flag (text "--selected")
    || str_eq flag (text "--active")
    || str_eq flag (text "--param")

abbrev pub insert_split : Option (Text × Text) → List (Text × Text) → List (Text × Text)
insert_split none params = params
insert_split (some (key, value)) params = insert_param key value params

abbrev pub insert_arg : Option Text → List (Text × Text) → List (Text × Text)
insert_arg none params = params
insert_arg (some arg) params = insert_split (split_once b'=' arg) params

unfoldable pub run_turn : Text → Option Text → RunFlags → RunFlags
unfolding split_ids insert_param
run_turn flag value f =
    if str_eq flag (text "--endpoint")
    then record f { endpoint = unwrap_or_default value }
    else if str_eq flag (text "--selected")
    then record f { selected = split_ids (unwrap_or_default value) }
    else if str_eq flag (text "--active")
    then record f { active = value }
    else record f { params = insert_arg value f.params }

unfoldable pub hook_takes : Text → Bool
hook_takes flag =
    str_eq flag (text "--endpoint")
    || str_eq flag (text "--item")
    || str_eq flag (text "--category")

unfoldable pub hook_turn : Text → Option Text → HookArgs → HookArgs
hook_turn flag value f =
    if str_eq flag (text "--endpoint")
    then record f { endpoint = unwrap_or_default value }
    else if str_eq flag (text "--item")
    then record f { item = value }
    else record f { category = value }

abbrev pub no_run_flags : RunFlags
no_run_flags = record { endpoint = []; selected = []; active = none; params = [] }

abbrev pub no_hook_args : HookArgs
no_hook_args = record { endpoint = []; item = none; category = none }

abbrev pub with_endpoint : Text → Invocation → Option Invocation
with_endpoint endpoint invocation = if is_empty endpoint then none else some invocation

unfoldable pub parse_hook : List Text → Option Invocation
unfolding read_flags hook_takes hook_turn
parse_hook [] = none
parse_hook (event ∷ args) =
    let f = read_flags hook_takes hook_turn args no_hook_args in
    with_endpoint f.endpoint (hook event f)

unfoldable pub parse_cron : List Text → Option Invocation
unfolding read_flags
parse_cron [] = none
parse_cron (job ∷ args) =
    let endpoint : Text =
      read_flags (λ flag. str_eq flag (text "--endpoint")) (λ _ value _. unwrap_or_default value)
        args [] in
    with_endpoint endpoint (cron job endpoint)

unfoldable pub parse_run : List Text → Option Invocation
unfolding read_flags run_takes run_turn
parse_run [] = none
parse_run (action ∷ args) =
    let f = read_flags run_takes run_turn args no_run_flags in
    with_endpoint f.endpoint (run action f)

unfoldable pub parse_args : List Text → Option Invocation
unfolding parse_hook parse_cron parse_run
parse_args [] = none
parse_args (first ∷ args) =
    if str_eq first (text "manifest")
    then some manifest
    else if str_eq first (text "hook")
    then parse_hook args
    else if str_eq first (text "cron")
    then parse_cron args
    else if str_eq first (text "run")
    then parse_run args
    else none
