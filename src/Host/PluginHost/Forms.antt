-- ===== src/Host/PluginHost/Forms.antt =====
-- How a form of crates/host/src/plugin_host.rs arrives in a plugin: `build_action_args`, the
-- arguments of crates/plugin/src/invoke.rs and `parse_args` of crates/plugin-sdk/src/runtime.rs.
use localref.Base.{
  ℕ, ◌≡◌, refl, ◌∙◌, Text, text, List, [], ◌∷◌, Bool, true, false, ◌&&◌, not, ◌==◌, if◌then◌else◌,
  Option, none, some, all, split, extend_first, retain, is_empty, contains, str_eq, str_eq_iff,
  str_eq_refl, arith,
}
use localref.Plugin.Manifest.{UiTarget, PluginUiSpec}
use localref.Plugin.Protocol.{RunFlags, run, insert_param, split_ids, build_argv, parse_args}
use localref.Plugin.Protocol.Reading.{
  lacks, is_id, are_keys, insert_all, stated, parse_args-build_argv,
}
use localref.Host.PluginHost.{
  reserved, declared_target, get, or_else, non_empty, for_selection, for_active, unwrap_text,
  is_param, build_action_args,
}

lacks-extend_first :
    (c x : ℕ) (parts : List Text)
    → all (lacks c) parts ≡ true
    → (x == c) ≡ false
    → all (lacks c) (extend_first x parts) ≡ true
unfolding all
lacks-extend_first c x [] h other = ground arith
lacks-extend_first c x (part ∷ parts) h other = ground arith

lacks-split : (c : ℕ) (s : Text) → all (lacks c) (split c s) ≡ true
unfolding all split
lacks-split c [] = refl
lacks-split c (x ∷ s) =
    ground (arith, lacks-split c s, lacks-extend_first c x (split c s) (lacks-split c s))

is_id-retain :
    (parts : List Text)
    → all (lacks b',') parts ≡ true
    → all is_id (retain (λ s. not (is_empty s)) parts) ≡ true
unfolding all retain
is_id-retain [] h = refl
is_id-retain (x ∷ parts) h = ground (arith, is_id-retain parts)

is_id-split_ids : (csv : Text) → all is_id (split_ids csv) ≡ true
unfolding split_ids
is_id-split_ids csv = is_id-retain (split b',' csv) (lacks-split b',' csv)

is_id-selection : (t : UiTarget) (csv : Text) → all is_id (for_selection t (split_ids csv)) ≡ true
unfolding all
is_id-selection UiTarget.selection csv = is_id-split_ids csv
is_id-selection UiTarget.active csv = refl
is_id-selection UiTarget.nothing csv = refl

get-insert_param :
    (k key value : Text) (m : List (Text × Text))
    → get k (insert_param key value m) ≡ (if str_eq key k then some value else get k m)
unfolding get insert_param
get-insert_param k key value [] = refl
get-insert_param k key value ((j, v) ∷ m) = ground (
  arith,
  get-insert_param k key value m,
  str_eq_iff key k,
  str_eq_iff j key,
  str_eq_iff j k,
  str_eq_refl k,
)

abbrev pub is_none : Option Text → Bool
is_none none = true
is_none (some _) = false

-- No key stands twice.
unfoldable pub is_map : List (Text × Text) → Bool
unfolding get
is_map [] = true
is_map ((k, v) ∷ form) = is_none (get k form) && is_map form

get-insert_all :
    (k : Text) (params m : List (Text × Text))
    → is_map params ≡ true
    → get k (insert_all params m) ≡ or_else (get k params) (get k m)
unfolding insert_all is_map
get-insert_all k [] m h = unfold get in refl
get-insert_all k ((j, v) ∷ params) m h =
    get-insert_all k params (insert_param j v m) (ground arith)
    ∙ ground (arith, get-insert_param k j v m, str_eq_iff j k)

get-retain :
    (k : Text) (form : List (Text × Text))
    → get k (retain is_param form) ≡ (if contains reserved k then none else get k form)
unfolding get retain is_param
get-retain k [] = ground arith
get-retain k ((j, v) ∷ form) = ground (arith, get-retain k form, str_eq_iff j k)

is_map-retain :
    (form : List (Text × Text)) → is_map form ≡ true → is_map (retain is_param form) ≡ true
unfolding is_map retain is_param
is_map-retain [] h = refl
is_map-retain ((j, v) ∷ form) h = ground (arith, get-retain j form, is_map-retain form)

are_keys-retain :
    (form : List (Text × Text)) → are_keys form ≡ true → are_keys (retain is_param form) ≡ true
unfolding all retain
are_keys-retain [] h = refl
are_keys-retain (entry ∷ form) h = ground (arith, are_keys-retain form)

nothing_in_empty : (k : Text) → get k [] ≡ none
unfolding get
nothing_in_empty k = refl

-- A submitted form, a map whose keys have no equals sign, arrives in the plugin, where the endpoint
-- is not empty: the plugin reads the action and the endpoint; the ids of the field `selected`, where
-- the interface declares the action for a selection, and none otherwise; the field `active`, where
-- it is declared for the active item and is not empty; and as parameters exactly the fields that
-- are not reserved, with their values.
pub parse_args-build_action_args :
    (ui : Option PluginUiSpec) (action endpoint : Text) (form : List (Text × Text))
    → is_empty endpoint ≡ false
    → is_map form ≡ true
    → are_keys form ≡ true
    → (f : RunFlags) × (parse_args (build_argv action (build_action_args ui action endpoint form))
        ≡ some (run action f))
      × (f.endpoint ≡ endpoint)
      × (f.selected
          ≡ for_selection
              (declared_target ui action)
              (split_ids (unwrap_text (get (text "selected") form))))
      × (f.active ≡ for_active (declared_target ui action) (non_empty (get (text "active") form)))
      × ((key : Text) → get key f.params ≡ (if contains reserved key then none else get key form))
unfolding build_action_args
parse_args-build_action_args ui action endpoint form given map keys =
    let args = build_action_args ui action endpoint form in
    (
      stated args,
      parse_args-build_argv action args given
          (is_id-selection (declared_target ui action) (unwrap_text (get (text "selected") form)))
          (are_keys-retain form keys),
      refl,
      refl,
      refl,
      λ key.
          get-insert_all key (retain is_param form) [] (is_map-retain form map)
          ∙ ground (arith, get-retain key form, nothing_in_empty key),
    )
