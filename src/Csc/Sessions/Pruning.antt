-- ===== src/Csc/Sessions/Pruning.antt =====
-- What an accepted request leaves in the sessions of crates/csc/src/daemon_sink.rs.
use localref.Base.{
  ℕ, ◌-◌, ◌≤◌, ◌≡◌, refl, ap, subst, List, [], ◌∷◌, Bool, true, not, ◌||◌, Option, none, some,
  Result, ok, err, arith, all, retain, is_empty,
}
use localref.Csc.Sessions.{
  ConnectorItem, ImportOutcome, ConnectorImportRequest, ConnectorSession, accepted, failed,
  ConnectorDaemon, place_items, completed, is_completed, drop_completed, prune_completed_sessions,
}
use localref.Csc.Sessions.Sink.{
  Answer, try_import_locked, import_session, settle, import_of, accept_import, pruned, with_session,
}

module _ {Value : Type 0} where
  -- Nothing of the session is left to import.
  abbrev pub is_settled : ConnectorSession Value → Bool
  is_settled s = is_empty s.items || is_completed s

  completed-drop_completed :
      (n : ℕ) (ss : List (ConnectorSession Value))
      → completed (drop_completed n ss) ≡ completed ss - n
  unfolding completed drop_completed
  completed-drop_completed n [] = omega arith
  completed-drop_completed n (s ∷ ss) =
      ground (arith, completed-drop_completed n ss, completed-drop_completed (n - 1) ss)

  retain-drop_completed :
      (n : ℕ) (ss : List (ConnectorSession Value))
      → retain (λ s. not (is_completed s)) (drop_completed n ss)
        ≡ retain (λ s. not (is_completed s)) ss
  unfolding retain drop_completed
  retain-drop_completed n [] = refl
  retain-drop_completed n (s ∷ ss) =
      ground (arith, retain-drop_completed n ss, retain-drop_completed (n - 1) ss)

  all-drop_completed :
      (p : ConnectorSession Value → Bool) (n : ℕ) (ss : List (ConnectorSession Value))
      → all p ss ≡ true
      → all p (drop_completed n ss) ≡ true
  unfolding all drop_completed
  all-drop_completed p n [] h = refl
  all-drop_completed p n (s ∷ ss) h =
      ground (arith, all-drop_completed p n ss, all-drop_completed p (n - 1) ss)

  pub completed-prune_le :
      (ss : List (ConnectorSession Value)) → completed (prune_completed_sessions ss) ≤ 16
  unfolding prune_completed_sessions
  completed-prune_le ss = omega (arith, completed-drop_completed (completed ss - 16) ss)

  retain-prune :
      (ss : List (ConnectorSession Value))
      → retain (λ s. not (is_completed s)) (prune_completed_sessions ss)
        ≡ retain (λ s. not (is_completed s)) ss
  unfolding prune_completed_sessions
  retain-prune ss = retain-drop_completed (completed ss - 16) ss

module _ {Value D : Type 0} (daemon : ConnectorDaemon Value D) where
  abbrev is_settled_answer : Answer Value D → Bool
  is_settled_answer (accepted, sessions, d) = all is_settled sessions
  is_settled_answer (failed m, sessions, d) = true

  with_session-settled :
      (s : ConnectorSession Value) (answer : Answer Value D)
      → is_settled s ≡ true
      → is_settled_answer answer ≡ true
      → is_settled_answer (with_session daemon s answer) ≡ true
  unfolding all
  with_session-settled s (accepted, sessions, d) h k = ground arith
  with_session-settled s (failed m, sessions, d) h k = refl

  settle-settled :
      (s : ConnectorSession Value) (ss : List (ConnectorSession Value))
      (others : D → Answer Value D) (result : Result ImportOutcome × D)
      → ((d : D) → is_settled_answer (others d) ≡ true)
      → is_settled_answer (settle daemon s ss others result) ≡ true
  settle-settled s ss others (err problem, d) h = refl
  settle-settled s ss others (ok outcome, d) h =
      with_session-settled (record s { outcome = some outcome }) (others d) (ground arith) (h d)

  import_session-settled :
      (s : ConnectorSession Value) (ss : List (ConnectorSession Value))
      (others : D → Answer Value D) (o : Option ImportOutcome) (items : List (ConnectorItem Value))
      (d : D)
      → s.outcome ≡ o
      → s.items ≡ items
      → ((d : D) → is_settled_answer (others d) ≡ true)
      → is_settled_answer (import_session daemon s ss others o items d) ≡ true
  import_session-settled s ss others (some outcome) items d e i h =
      with_session-settled s (others d) (ground arith) (h d)
  import_session-settled s ss others none [] d e i h =
      with_session-settled s (others d) (ground arith) (h d)
  import_session-settled s ss others none (item ∷ items) d e i h =
      settle-settled s ss others (daemon.import_connector_item (import_of daemon s item) d) h

  try_import_locked-settled :
      (ss : List (ConnectorSession Value)) (d : D)
      → is_settled_answer (try_import_locked daemon ss d) ≡ true
  unfolding try_import_locked all
  try_import_locked-settled [] d = refl
  try_import_locked-settled (s ∷ ss) d =
      import_session-settled s ss (try_import_locked daemon ss) s.outcome s.items d refl refl
        (try_import_locked-settled ss)

  pruned-accepted :
      (answer : Answer Value D) (sessions : List (ConnectorSession Value)) (d : D)
      → is_settled_answer answer ≡ true
      → pruned daemon answer ≡ (accepted, sessions, d)
      → (completed sessions ≤ 16) × (all is_settled sessions ≡ true)
  unfolding prune_completed_sessions
  pruned-accepted (failed m, found, c) sessions d h e = ground arith
  pruned-accepted (accepted, found, c) sessions d h e =
      let same : prune_completed_sessions found ≡ sessions = ap (λ (a : Answer Value D). a.1) e in
      (
        subst (λ (x : List (ConnectorSession Value)). completed x ≤ 16) same
            (completed-prune_le found),
        subst (λ (x : List (ConnectorSession Value)). all is_settled x ≡ true) same
            (all-drop_completed is_settled (completed found - 16) found h),
      )

  -- A request that is accepted leaves no session that has an item and is not imported, and at most
  -- sixteen that are imported. What pruning drops are imported sessions: those that wait stay, in
  -- their order.
  pub accept_import-settled :
      (request : ConnectorImportRequest Value) (ss ss' : List (ConnectorSession Value)) (d d' : D)
      → accept_import daemon request ss d ≡ (accepted, ss', d')
      → (completed ss' ≤ 16)
        × (all is_settled ss' ≡ true)
        × (retain (λ s. not (is_completed s)) (prune_completed_sessions ss)
            ≡ retain (λ s. not (is_completed s)) ss)
  unfolding accept_import
  accept_import-settled request ss ss' d d' h =
      let placed = place_items request ss in
      let (few, settled) =
        pruned-accepted (try_import_locked daemon placed d) ss' d'
          (try_import_locked-settled placed d) h in
      (few, settled, retain-prune ss)
