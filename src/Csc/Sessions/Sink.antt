-- ===== src/Csc/Sessions/Sink.antt =====
-- The methods of `DaemonConnectorSink` of crates/csc/src/daemon_sink.rs that hold the mutex.
use localref.Base.{
  Text, text, List, [], ◌∷◌, ◌++◌, if◌then◌else◌, Option, none, some, is_empty, trim, Result, ok,
  err, display,
}
use localref.Platformfs.Merging.{is_some}
use localref.Csc.Sessions.{
  ConnectorItem, ConnectorAttachment, ConnectorImport, ImportOutcome, ConnectorImportRequest,
  ConnectorSession, Reply, accepted, failed, ConnectorDaemon, prune_completed_sessions, place_items,
  session_index, Spot,
}

-- The reply with the sessions and the daemon after it.
abbrev pub Answer : Type 0 → Type 0 → Type 0
Answer Value D = Reply × List (ConnectorSession Value) × D

abbrev pub with_attachment :
    {Value : Type 0} → ConnectorSession Value → ConnectorAttachment Value → ConnectorSession Value
with_attachment s attachment = record s { attachments = s.attachments ++ attachment ∷ [] }

module _ {Value D : Type 0} (daemon : ConnectorDaemon Value D) where
  abbrev pub with_session : ConnectorSession Value → Answer Value D → Answer Value D
  with_session s (reply, sessions, d) = (reply, s ∷ sessions, d)

  -- The body of the loop for a session with an item: an error ends the loop.
  abbrev pub settle :
      ConnectorSession Value
      → List (ConnectorSession Value)
      → (D → Answer Value D)
      → Result ImportOutcome × D
      → Answer Value D
  settle s ss others (err problem, d) = (failed (display problem), s ∷ ss, d)
  settle s ss others (ok outcome, d) = with_session (record s { outcome = some outcome }) (others d)

  abbrev pub import_of : ConnectorSession Value → ConnectorItem Value → ConnectorImport Value
  import_of s item = record { item = item; attachments = s.attachments }

  -- One turn: a session that is imported or has no item is passed over.
  abbrev pub import_session :
      ConnectorSession Value
      → List (ConnectorSession Value)
      → (D → Answer Value D)
      → Option ImportOutcome
      → List (ConnectorItem Value)
      → D
      → Answer Value D
  import_session s ss others (some outcome) items d = with_session s (others d)
  import_session s ss others none [] d = with_session s (others d)
  import_session s ss others none (item ∷ items) d =
      settle s ss others (daemon.import_connector_item (import_of s item) d)

  unfoldable pub try_import_locked : List (ConnectorSession Value) → D → Answer Value D
  try_import_locked [] d = (accepted, [], d)
  try_import_locked (s ∷ ss) d = import_session s ss (try_import_locked ss) s.outcome s.items d

  -- The sessions are pruned when all went well.
  abbrev pub pruned : Answer Value D → Answer Value D
  pruned (accepted, sessions, d) = (accepted, prune_completed_sessions sessions, d)
  pruned (failed m, sessions, d) = (failed m, sessions, d)

  unfoldable pub accept_import :
      ConnectorImportRequest Value → List (ConnectorSession Value) → D → Answer Value D
  unfolding place_items try_import_locked prune_completed_sessions
  accept_import request sessions d = pruned (try_import_locked (place_items request sessions) d)

  -- The reply to a call of the daemon that changes no session.
  abbrev pub replied : {A : Type 0} → List (ConnectorSession Value) → Result A × D → Answer Value D
  replied sessions (err problem, d) = (failed (display problem), sessions, d)
  replied sessions (ok a, d) = (accepted, sessions, d)

  abbrev pub title_of : Option Text → Text → Text
  title_of none filename = filename
  title_of (some title) filename = if is_empty (trim title) then filename else title

  abbrev pub url_in : Option Value → Option Text
  url_in none = none
  url_in (some metadata) = daemon.url_of metadata

  abbrev pub raw_or : Option Value → Text → Value
  raw_or none filename = daemon.titled filename
  raw_or (some metadata) filename = metadata

  unfoldable pub standalone : ConnectorAttachment Value → ConnectorImport Value
  unfolding text trim
  standalone attachment = record {
    item = record {
      session_id = attachment.session_id;
      uri = url_in attachment.raw_metadata;
      connector_item_id = none;
      item_type = some (text "attachment");
      title = title_of attachment.title attachment.filename;
      abstract_note = none;
      doi = none;
      raw = raw_or attachment.raw_metadata attachment.filename;
    };
    attachments = attachment ∷ [];
  }

  abbrev pub buffered : ConnectorAttachment Value → ConnectorSession Value
  buffered attachment = record {
    session_id = attachment.session_id;
    items = [];
    attachments = attachment ∷ [];
    outcome = none;
  }

  -- No session is found: a top-level attachment is an item of its own, a child waits for its item.
  unfoldable pub accept_orphan :
      ConnectorAttachment Value → List (ConnectorSession Value) → D → Answer Value D
  unfolding standalone
  accept_orphan attachment sessions d =
      if is_some attachment.parent_item_id
      then (accepted, sessions ++ buffered attachment ∷ [], d)
      else replied sessions (daemon.import_connector_item (standalone attachment) d)

  -- A session is found: the attachment goes to its item, or waits with it.
  abbrev pub accept_into :
      ConnectorAttachment Value
      → List (ConnectorSession Value)
      → ConnectorSession Value
      → List (ConnectorSession Value)
      → Option ImportOutcome
      → D
      → Answer Value D
  accept_into attachment before s behind (some outcome) d = pruned (
      replied (before ++ s ∷ behind)
        (daemon.save_connector_attachment_to_item outcome.item_dir attachment d))
  accept_into attachment before s behind none d =
      pruned (try_import_locked (before ++ with_attachment s attachment ∷ behind) d)

  abbrev pub accept_at :
      ConnectorAttachment Value
      → List (ConnectorSession Value)
      → Option (Spot Value)
      → D
      → Answer Value D
  accept_at attachment sessions none d = accept_orphan attachment sessions d
  accept_at attachment sessions (some (before, s, behind)) d =
      accept_into attachment before s behind s.outcome d

  unfoldable pub accept_attachment :
      ConnectorAttachment Value → List (ConnectorSession Value) → D → Answer Value D
  unfolding session_index try_import_locked accept_orphan prune_completed_sessions
  accept_attachment attachment sessions d =
      accept_at attachment sessions (session_index attachment sessions) d
