-- ===== src/Csc/Sessions/Keeping.antt =====
-- Where the attachments are that crates/csc/src/daemon_sink.rs is handed.
use localref.Base.{
  ◌-◌, ◌≡◌, refl, ap, sym, ◌∙◌, Text, List, [], ◌∷◌, ◌++◌, Bool, true, ◌||◌, Option, none, some,
  Result, ok, err, LocalrefError, arith, Bool-cases, inl, inr, any, any-append,
}
use localref.Platformfs.Merging.{is_some}
use localref.Csc.Sessions.{
  ConnectorItem, ConnectorAttachment, ConnectorImport, ImportOutcome, ConnectorSession, Reply, Spot,
  accepted, failed, ConnectorDaemon, completed, prune_completed_sessions, session_index,
}
use localref.Csc.Sessions.Sink.{
  Answer, try_import_locked, import_session, settle, import_of, accept_attachment, accept_at,
  accept_into, accept_orphan, standalone, buffered, with_attachment, replied, pruned, with_session,
}
use localref.Csc.Sessions.Waiting.{
  waits_with, waits, waits_around, drop_completed-waits, waits_around-index, waits-with_attachment,
}

-- A list that the daemon keeps of the attachments that it took: a call that succeeds adds those that
-- it is handed, and one that fails adds none.
pub record KeepsFiles {Value D : Type 0} (daemon : ConnectorDaemon Value D) : Type 0 where
  pub files : D → List (ConnectorAttachment Value)
  pub imports :
      (p : ConnectorAttachment Value → Bool) (i : ConnectorImport Value) (d d' : D)
      (o : ImportOutcome)
      → daemon.import_connector_item i d ≡ (ok o, d')
      → any p (files d') ≡ (any p i.attachments || any p (files d))
  pub import_fails :
      (p : ConnectorAttachment Value → Bool) (i : ConnectorImport Value) (d d' : D)
      (e : LocalrefError)
      → daemon.import_connector_item i d ≡ (err e, d')
      → any p (files d') ≡ any p (files d)
  pub saves :
      (p : ConnectorAttachment Value → Bool) (dir path : Text) (a : ConnectorAttachment Value)
      (d d' : D)
      → daemon.save_connector_attachment_to_item dir a d ≡ (ok path, d')
      → any p (files d') ≡ (p a || any p (files d))

module _ {Value D : Type 0} (daemon : ConnectorDaemon Value D) (keeps : KeepsFiles daemon)
    (p : ConnectorAttachment Value → Bool) where
  -- It waits, or it is on disk.
  unfoldable pub is_kept : List (ConnectorSession Value) → D → Bool
  is_kept sessions d = any p (keeps.files d) || waits p sessions

  abbrev keeps_answer : Answer Value D → Bool
  keeps_answer (reply, sessions, d) = is_kept sessions d

  with_session-kept :
      (s : ConnectorSession Value) (answer : Answer Value D)
      → keeps_answer (with_session daemon s answer) ≡ (waits_with p s || keeps_answer answer)
  unfolding is_kept waits any
  with_session-kept s (reply, sessions, d) = ground arith

  settle-kept :
      (s : ConnectorSession Value) (ss : List (ConnectorSession Value))
      (others : D → Answer Value D) (item : ConnectorItem Value) (d : D)
      (result : Result ImportOutcome × D)
      → daemon.import_connector_item (import_of daemon s item) d ≡ result
      → s.outcome ≡ none
      → ((d : D) → is_kept ss d ≡ true → keeps_answer (others d) ≡ true)
      → is_kept (s ∷ ss) d ≡ true
      → keeps_answer (settle daemon s ss others result) ≡ true
  unfolding is_kept waits any
  settle-kept s ss others item d (err e, d') r o h k =
      ground (arith, keeps.import_fails p (import_of daemon s item) d d' e r)
  settle-kept s ss others item d (ok outcome, d') r o h k =
      let done : ConnectorSession Value = record s { outcome = some outcome } in
      let rest = h d' (ground (arith, keeps.imports p (import_of daemon s item) d d' outcome r)) in
      ground (arith, with_session-kept done (others d'))

  pruned-kept :
      (answer : Answer Value D) → keeps_answer (pruned daemon answer) ≡ keeps_answer answer
  unfolding is_kept prune_completed_sessions
  pruned-kept (accepted, ss, d) = ground (arith, drop_completed-waits p (completed ss - 16) ss)
  pruned-kept (failed m, ss, d) = refl

  passed_over :
      (s : ConnectorSession Value) (ss : List (ConnectorSession Value))
      (others : D → Answer Value D) (d : D)
      → ((d : D) → is_kept ss d ≡ true → keeps_answer (others d) ≡ true)
      → is_kept (s ∷ ss) d ≡ true
      → keeps_answer (with_session daemon s (others d)) ≡ true
  unfolding is_kept waits any
  passed_over s ss others d h k = elim (Bool-cases (is_kept ss d)) [
    | inl e ↦ ground (arith, with_session-kept s (others d), h d e)
    | inr e ↦ ground (arith, with_session-kept s (others d))
  ]

  import_session-kept :
      (s : ConnectorSession Value) (ss : List (ConnectorSession Value))
      (others : D → Answer Value D) (o : Option ImportOutcome) (items : List (ConnectorItem Value))
      (d : D)
      → s.outcome ≡ o
      → ((d : D) → is_kept ss d ≡ true → keeps_answer (others d) ≡ true)
      → is_kept (s ∷ ss) d ≡ true
      → keeps_answer (import_session daemon s ss others o items d) ≡ true
  import_session-kept s ss others (some outcome) items d o h k = passed_over s ss others d h k
  import_session-kept s ss others none [] d o h k = passed_over s ss others d h k
  import_session-kept s ss others none (item ∷ items) d o h k =
      settle-kept s ss others item d (daemon.import_connector_item (import_of daemon s item) d) refl
        o h k

  try_import_locked-kept :
      (ss : List (ConnectorSession Value)) (d : D)
      → is_kept ss d ≡ true
      → keeps_answer (try_import_locked daemon ss d) ≡ true
  unfolding try_import_locked
  try_import_locked-kept [] d k = k
  try_import_locked-kept (s ∷ ss) d k =
      import_session-kept s ss (try_import_locked daemon ss) s.outcome s.items d refl
        (try_import_locked-kept ss) k

  -- What an equation of answers says of them.
  answered :
      (answer : Answer Value D) (reply : Reply) (ss : List (ConnectorSession Value)) (d : D)
      → answer ≡ (reply, ss, d)
      → keeps_answer answer ≡ true
      → is_kept ss d ≡ true
  answered answer reply ss d e h = sym (ap keeps_answer e) ∙ h

  imported-kept :
      (i : ConnectorImport Value) (ss ss' : List (ConnectorSession Value)) (d d' : D)
      (result : Result ImportOutcome × D)
      → daemon.import_connector_item i d ≡ result
      → (any p i.attachments || is_kept ss d) ≡ true
      → replied daemon ss result ≡ (accepted, ss', d')
      → is_kept ss' d' ≡ true
  unfolding is_kept
  imported-kept i ss ss' d d' (err problem, c) r h e = ground arith
  imported-kept i ss ss' d d' (ok outcome, c) r h e =
      answered (accepted, ss, c) accepted ss' d' e (ground (arith, keeps.imports p i d c outcome r))

  saved-kept :
      (dir : Text) (a : ConnectorAttachment Value) (ss ss' : List (ConnectorSession Value))
      (d d' : D) (result : Result Text × D)
      → daemon.save_connector_attachment_to_item dir a d ≡ result
      → (p a || is_kept ss d) ≡ true
      → pruned daemon (replied daemon ss result) ≡ (accepted, ss', d')
      → is_kept ss' d' ≡ true
  unfolding is_kept
  saved-kept dir a ss ss' d d' (err problem, c) r h e = ground arith
  saved-kept dir a ss ss' d d' (ok path, c) r h e =
      answered (pruned daemon (accepted, ss, c)) accepted ss' d' e
        (ground (arith, pruned-kept (accepted, ss, c), keeps.saves p dir path a d c r))

  buffered-kept :
      (a : ConnectorAttachment Value) (ss : List (ConnectorSession Value)) (d : D)
      → (p a || is_kept ss d) ≡ true
      → is_kept (ss ++ buffered daemon a ∷ []) d ≡ true
  unfolding is_kept waits any
  buffered-kept a ss d h = ground (arith, any-append (waits_with p) ss (buffered daemon a ∷ []))

  orphan-kept :
      (a : ConnectorAttachment Value) (ss ss' : List (ConnectorSession Value)) (d d' : D)
      → (p a || is_kept ss d) ≡ true
      → accept_orphan daemon a ss d ≡ (accepted, ss', d')
      → is_kept ss' d' ≡ true
  unfolding accept_orphan standalone any
  orphan-kept a ss ss' d d' h e = elim (Bool-cases (is_some a.parent_item_id)) [
    | inl c ↦
        answered (accepted, ss ++ buffered daemon a ∷ [], d) accepted ss' d' (ground arith)
          (buffered-kept a ss d h)
    | inr c ↦
        let i = standalone daemon a in
        imported-kept i ss ss' d d' (daemon.import_connector_item i d) refl (ground arith)
          (ground arith)
  ]

  into-kept :
      (a : ConnectorAttachment Value) (before behind ss' : List (ConnectorSession Value))
      (s : ConnectorSession Value) (o : Option ImportOutcome) (d d' : D)
      → s.outcome ≡ o
      → (p a || is_kept (before ++ s ∷ behind) d) ≡ true
      → accept_into daemon a before s behind o d ≡ (accepted, ss', d')
      → is_kept ss' d' ≡ true
  unfolding is_kept
  into-kept a before behind ss' s (some outcome) d d' o h e =
      saved-kept outcome.item_dir a (before ++ s ∷ behind) ss' d d'
        (daemon.save_connector_attachment_to_item outcome.item_dir a d) refl h e
  into-kept a before behind ss' s none d d' o h e =
      let sessions = before ++ with_attachment s a ∷ behind in
      let kept : is_kept sessions d ≡ true =
        ground (arith, waits-with_attachment p a s before behind o) in
      answered (pruned daemon (try_import_locked daemon sessions d)) accepted ss' d' e
        (pruned-kept (try_import_locked daemon sessions d) ∙ try_import_locked-kept sessions d kept)

  at-kept :
      (a : ConnectorAttachment Value) (ss ss' : List (ConnectorSession Value))
      (spot : Option (Spot Value)) (d d' : D)
      → waits_around p ss spot ≡ waits p ss
      → (p a || is_kept ss d) ≡ true
      → accept_at daemon a ss spot d ≡ (accepted, ss', d')
      → is_kept ss' d' ≡ true
  unfolding is_kept
  at-kept a ss ss' none d d' around h e = orphan-kept a ss ss' d d' h e
  at-kept a ss ss' (some (before, s, behind)) d d' around h e =
      into-kept a before behind ss' s s.outcome d d' refl (ground arith) e

  pub attachment-kept :
      (a : ConnectorAttachment Value) (ss ss' : List (ConnectorSession Value)) (d d' : D)
      → (p a || is_kept ss d) ≡ true
      → accept_attachment daemon a ss d ≡ (accepted, ss', d')
      → is_kept ss' d' ≡ true
  unfolding accept_attachment
  attachment-kept a ss ss' d d' h e =
      at-kept a ss ss' (session_index a ss) d d' (waits_around-index p a ss) h e
