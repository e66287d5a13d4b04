-- ===== src/Csc/Sessions/Blocking.antt =====
-- A session that cannot be imported, in crates/csc/src/daemon_sink.rs.
use localref.Base.{
  Bool, ◌++◌, any, ◌⊎◌, Bool-cases, inl, inr, true, not, ◌&&◌, ◌≡◌, refl, ap, ◌∙◌, List, [], ◌∷◌,
  false, none, err, LocalrefError, display, arith,
}
use localref.Csc.Sessions.{
  ConnectorItem, ConnectorImportRequest, ConnectorSession, failed, ConnectorDaemon, place_items,
  option_eq, completed, is_completed,
}
use localref.Csc.Sessions.Sink.{
  try_import_locked, import_session, settle, import_of, accept_import, pruned,
}

-- A session that takes the items of a request.
abbrev pub takes : {Value : Type 0} → ConnectorImportRequest Value → ConnectorSession Value → Bool
takes request s = option_eq s.session_id request.session_id && not (is_completed s)

module _ {Value : Type 0} where
  -- Where the items of a request are: in the first session of its id that is not imported, with the
  -- others as they were, or else in a new one behind all of them.
  abbrev pub Placed :
      ConnectorImportRequest Value
      → List (ConnectorSession Value)
      → List (ConnectorSession Value)
      → Type 0
  Placed request ss placed =
      ((before : List (ConnectorSession Value)) × (t : ConnectorSession Value) × (behind : List
          (ConnectorSession Value))
        × (ss ≡ before ++ t ∷ behind)
        × (any (takes request) before ≡ false)
        × (takes request t ≡ true)
        × (placed ≡ before ++ record t { items = request.normalized_items } ∷ behind))
      ⊎ ((any (takes request) ss ≡ false)
          × (placed
              ≡ ss
                ++ record {
                  session_id = request.session_id;
                  items = request.normalized_items;
                  attachments = [];
                  outcome = none;
                }
                  ∷ []))

  place_items-Placed :
      (request : ConnectorImportRequest Value) (ss : List (ConnectorSession Value))
      → Placed request ss (place_items request ss)
  unfolding place_items any
  place_items-Placed request [] = inr (refl, refl)
  place_items-Placed request (s ∷ ss) = elim (Bool-cases (takes request s)) [
    | inl e ↦ inl ([], s, ss, refl, refl, e, ground arith)
    | inr e ↦ elim (place_items-Placed request ss) [
      | inl (before, t, behind, whole, others, own, placed) ↦
          inl (s ∷ before, t, behind, ap (λ x. s ∷ x) whole, ground arith, own, ground arith)
      | inr (others, placed) ↦ inr (ground arith, ground arith)
    ]
  ]

module _ {Value D : Type 0} (daemon : ConnectorDaemon Value D) where
  place_items-behind :
      (request : ConnectorImportRequest Value) (s : ConnectorSession Value)
      (ss : List (ConnectorSession Value))
      → option_eq s.session_id request.session_id ≡ false
      → place_items request (s ∷ ss) ≡ s ∷ place_items request ss
  unfolding place_items
  place_items-behind request s ss h = ground arith

  completed-place_items :
      (request : ConnectorImportRequest Value) (ss : List (ConnectorSession Value))
      → completed (place_items request ss) ≡ completed ss
  unfolding place_items completed
  completed-place_items request [] = refl
  completed-place_items request (s ∷ ss) = ground (arith, completed-place_items request ss)

  try_import_locked-blocked :
      (s : ConnectorSession Value) (ss : List (ConnectorSession Value)) (item : ConnectorItem Value)
      (items : List (ConnectorItem Value)) (d d' : D) (problem : LocalrefError)
      → s.outcome ≡ none
      → s.items ≡ item ∷ items
      → daemon.import_connector_item (import_of daemon s item) d ≡ (err problem, d')
      → try_import_locked daemon (s ∷ ss) d ≡ (failed (display problem), s ∷ ss, d')
  unfolding try_import_locked
  try_import_locked-blocked s ss item items d d' problem o i e =
      ap (λ out. import_session daemon s ss (try_import_locked daemon ss) out s.items d) o
      ∙ ap (λ its. import_session daemon s ss (try_import_locked daemon ss) none its d) i
      ∙ ap (settle daemon s ss (try_import_locked daemon ss)) e

  -- While the first session waits with an item that the daemon cannot import, a request of another
  -- session is answered with the problem of the first one, and the daemon is asked for no other import.
  -- The items of the request are stored behind the first session, in the one of its id that is not
  -- imported or in a new one, and as many sessions are complete as before.
  pub accept_import-blocked :
      (request : ConnectorImportRequest Value) (s : ConnectorSession Value)
      (ss : List (ConnectorSession Value)) (item : ConnectorItem Value)
      (items : List (ConnectorItem Value)) (d d' : D) (problem : LocalrefError)
      → s.outcome ≡ none
      → s.items ≡ item ∷ items
      → option_eq s.session_id request.session_id ≡ false
      → daemon.import_connector_item (import_of daemon s item) d ≡ (err problem, d')
      → (placed : List (ConnectorSession Value)) × (accept_import daemon request (s ∷ ss) d
          ≡ (failed (display problem), s ∷ placed, d'))
        × Placed request ss placed
        × (completed (s ∷ placed) ≡ completed (s ∷ ss))
  unfolding accept_import completed
  accept_import-blocked request s ss item items d d' problem o i n e = (
    place_items request ss,
    ap (λ placed. pruned daemon (try_import_locked daemon placed d))
          (place_items-behind request s ss n)
        ∙ ap (pruned daemon)
            (try_import_locked-blocked s (place_items request ss) item items d d' problem o i e),
    place_items-Placed request ss,
    ground (arith, completed-place_items request ss),
  )
