-- ===== src/Plugin/Protocol/Reading.antt =====
-- What `parse_args` of crates/plugin-sdk/src/runtime.rs reads of the arguments that
-- crates/plugin/src/invoke.rs builds.
use localref.Base.{
  ℕ, ◌≡◌, refl, ◌∙◌, ap, Text, text, List, [], ◌∷◌, ◌++◌, Bool, true, false, ◌&&◌, not, ◌==◌,
  Option, none, some, all, split, split_once, is_empty, str_eq, arith,
}
use localref.Plugin.Protocol.{
  ActionArgs, HookArgs, RunFlags, run, hook, cron, join_ids, selected_argv, params_argv, build_argv,
  build_hook_argv, build_cron_argv, insert_param, read_flags, split_ids, run_takes, run_turn,
  insert_arg, hook_takes, hook_turn, parse_args, parse_run, parse_hook, parse_cron, no_run_flags,
  flagged, no_hook_args,
}

-- The text has no such character.
abbrev pub lacks : ℕ → Text → Bool
lacks c s = all (λ x. not (x == c)) s

pub split-lacks : (c : ℕ) (s : Text) → lacks c s ≡ true → split c s ≡ s ∷ []
unfolding all split
split-lacks c [] h = refl
split-lacks c (x ∷ s) h = ground (arith, split-lacks c s)

pub split-append : (c : ℕ) (s t : Text) → lacks c s ≡ true → split c (s ++ c ∷ t) ≡ s ∷ split c t
unfolding all split
split-append c [] t h = ground arith
split-append c (x ∷ s) t h = ground (arith, split-append c s t)

split_once-append :
    (c : ℕ) (s t : Text) → lacks c s ≡ true → split_once c (s ++ c ∷ t) ≡ some (s, t)
unfolding all split_once
split_once-append c [] t h = ground arith
split_once-append c (x ∷ s) t h = ground (arith, split_once-append c s t)

-- An id as the host passes it.
abbrev pub is_id : Text → Bool
is_id s = lacks b',' s && not (is_empty s)

split_ids-join_ids : (ids : List Text) → all is_id ids ≡ true → split_ids (join_ids ids) ≡ ids
unfolding all join_ids split_ids
split_ids-join_ids [] h = refl
split_ids-join_ids (x ∷ []) h = rw (split-lacks b',' x (ground arith)) (ground arith)
split_ids-join_ids (x ∷ y ∷ ids) h =
    rw (split-append b',' x (join_ids (y ∷ ids)) (ground arith))
      (ground (arith, split_ids-join_ids (y ∷ ids)))

read_flags-taken {ℓ} :
    {S : Type ℓ} (takes : Text → Bool) (turn : Text → Option Text → S → S) (flag value : Text)
    (rest : List Text) (s : S)
    → takes flag ≡ true
    → read_flags takes turn (flag ∷ value ∷ rest) s
      ≡ read_flags takes turn rest (turn flag (some value) s)
unfolding read_flags
read_flags-taken takes turn flag value rest s h = rw h

turn-param :
    (arg : Text) (f : RunFlags)
    → run_turn (text "--param") (some arg) f ≡ record f { params = insert_arg (some arg) f.params }
unfolding run_turn text str_eq
turn-param arg f = refl

takes-param : run_takes (text "--param") ≡ true
unfolding run_takes text str_eq
takes-param = refl

-- The parameters, inserted one after the other.
unfoldable pub insert_all : List (Text × Text) → List (Text × Text) → List (Text × Text)
insert_all [] m = m
insert_all ((key, value) ∷ params) m = insert_all params (insert_param key value m)

abbrev pub are_keys : List (Text × Text) → Bool
are_keys params = all (λ (p : Text × Text). lacks b'=' p.0) params

read_flags-params :
    (params : List (Text × Text)) (f : RunFlags)
    → are_keys params ≡ true
    → read_flags run_takes run_turn (params_argv params) f
      ≡ record f { params = insert_all params f.params }
unfolding all params_argv insert_all
read_flags-params [] f h = unfold read_flags in refl
read_flags-params ((key, value) ∷ params) f h =
    read_flags-taken run_takes run_turn (text "--param") (key ++ b'=' ∷ value) (params_argv params)
      f takes-param
    ∙ rw (turn-param (key ++ b'=' ∷ value) f, split_once-append b'=' key value (ground arith))
        (read_flags-params params (record f { params = insert_param key value f.params })
          (ground arith))

-- The flags that a run of an action states, with nothing before them.
abbrev pub stated : ActionArgs → RunFlags
stated args = record {
  endpoint = args.endpoint;
  selected = args.selected;
  active = args.active;
  params = insert_all args.params [];
}

read_flags-active :
    (active : Option Text) (rest : List Text) (f : RunFlags)
    → f.active ≡ none
    → read_flags run_takes run_turn (flagged "--active" active ++ rest) f
      ≡ read_flags run_takes run_turn rest (record f { active = active })
unfolding run_takes run_turn text str_eq
read_flags-active none rest f h = ap (read_flags run_takes run_turn rest) (ground arith)
read_flags-active (some id) rest f h =
    read_flags-taken run_takes run_turn (text "--active") id rest f refl

read_flags-selected :
    (ids : List Text) (rest : List Text) (f : RunFlags)
    → all is_id ids ≡ true
    → f.selected ≡ []
    → read_flags run_takes run_turn (selected_argv ids ++ rest) f
      ≡ read_flags run_takes run_turn rest (record f { selected = ids })
unfolding run_takes run_turn text str_eq selected_argv
read_flags-selected [] rest f h unset = ap (read_flags run_takes run_turn rest) (ground arith)
read_flags-selected (x ∷ xs) rest f h unset =
    read_flags-taken run_takes run_turn (text "--selected") (join_ids (x ∷ xs)) rest f refl
    ∙ rw (split_ids-join_ids (x ∷ xs) h)

read_flags-run :
    (args : ActionArgs)
    → all is_id args.selected ≡ true
    → are_keys args.params ≡ true
    → read_flags run_takes run_turn
        (text "--endpoint"
          ∷ args.endpoint
          ∷ (selected_argv args.selected
              ++ (flagged "--active" args.active ++ params_argv args.params)))
        no_run_flags
      ≡ stated args
unfolding run_takes run_turn text str_eq
read_flags-run args ids keys =
    read_flags-taken run_takes run_turn (text "--endpoint") args.endpoint _ no_run_flags refl
    ∙ read_flags-selected args.selected _ _ ids refl
    ∙ read_flags-active args.active (params_argv args.params) _ refl
    ∙ read_flags-params args.params _ keys

-- A plugin reads what the host passed: from the arguments that the host builds for an action,
-- `parse_args` returns the action, the endpoint, the selected ids, the active id and the parameters,
-- inserted in their order. The endpoint is not empty, no id is empty or has a comma, and no key has
-- an equals sign; the values of the parameters and the action are any texts.
pub parse_args-build_argv :
    (action : Text) (args : ActionArgs)
    → is_empty args.endpoint ≡ false
    → all is_id args.selected ≡ true
    → are_keys args.params ≡ true
    → parse_args (build_argv action args) ≡ some (run action (stated args))
unfolding parse_args build_argv text str_eq
parse_args-build_argv action args endpoint ids keys =
    unfold parse_run in rw (read_flags-run args ids keys, endpoint)

read_flags-category :
    (category : Option Text) (f : HookArgs)
    → f.category ≡ none
    → read_flags hook_takes hook_turn (flagged "--category" category) f
      ≡ record f { category = category }
unfolding read_flags hook_takes hook_turn text str_eq
read_flags-category none f unset = ground arith
read_flags-category (some c) f unset = refl

read_flags-hook :
    (item category : Option Text) (f : HookArgs)
    → f.category ≡ none
    → f.item ≡ none
    → read_flags hook_takes hook_turn (flagged "--item" item ++ flagged "--category" category) f
      ≡ record f { item = item; category = category }
read_flags-hook none category f no_category no_item =
    read_flags-category category f no_category ∙ ground arith
read_flags-hook (some i) category f no_category no_item =
    read_flags-taken hook_takes hook_turn (text "--item") i (flagged "--category" category) f
      (unfold hook_takes text str_eq in refl)
    ∙ unfold hook_turn text str_eq in
      read_flags-category category (record f { item = some i }) no_category

read_flags-given :
    (args : HookArgs)
    → read_flags hook_takes hook_turn
        (text "--endpoint"
          ∷ args.endpoint
          ∷ (flagged "--item" args.item ++ flagged "--category" args.category))
        no_hook_args
      ≡ args
unfolding hook_takes hook_turn text str_eq
read_flags-given args =
    read_flags-taken hook_takes hook_turn (text "--endpoint") args.endpoint _ no_hook_args refl
    ∙ read_flags-hook args.item args.category (record no_hook_args { endpoint = args.endpoint })
        refl refl

-- A plugin reads the event, the endpoint, the item and the category of the hook that the host runs,
-- and the job and the endpoint of a cron job, where the endpoint is not empty.
pub parse_args-build_hook_argv :
    (event job : Text) (args : HookArgs)
    → is_empty args.endpoint ≡ false
    → (parse_args (build_hook_argv event args) ≡ some (hook event args))
      × (parse_args (build_cron_argv job args.endpoint) ≡ some (cron job args.endpoint))
unfolding parse_args build_hook_argv build_cron_argv text str_eq
parse_args-build_hook_argv event job args endpoint = (
  unfold parse_hook in rw (read_flags-given args, endpoint),
  unfold parse_cron read_flags in rw endpoint,
)
