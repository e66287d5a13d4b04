-- ===== src/Csc/Sessions.antt =====
-- `DaemonConnectorSink` of crates/csc/src/daemon_sink.rs. The state is the list of buffered sessions
-- behind the mutex and the daemon's own. What the daemon does is a parameter, since it ends in files,
-- and so is the JSON of an item.
pub mod Sink
pub mod Pruning
pub mod Waiting
pub mod Keeping
pub mod Handing
pub mod Blocking
use localref.Base.{
  ℕ, ◌+◌, ◌-◌, suc, Text, text, List, [], ◌∷◌, ◌++◌, Bool, true, false, not, ◌&&◌, ◌||◌, ltb,
  if◌then◌else◌, Option, none, some, is_empty, trim, str_eq, Result, ok, err, LocalrefError,
  display,
}
use localref.Platformfs.Merging.{is_some}

pub record ConnectorItem (Value : Type 0) : Type 0 where
  pub session_id : Option Text
  pub uri : Option Text
  pub connector_item_id : Option Text
  pub item_type : Option Text
  pub title : Text
  pub abstract_note : Option Text
  pub doi : Option Text
  pub raw : Value

pub record ConnectorAttachment (Value : Type 0) : Type 0 where
  pub session_id : Option Text
  pub parent_item_id : Option Text
  pub title : Option Text
  pub filename : Text
  pub mime_type : Option Text
  pub bytes : List ℕ
  pub raw_metadata : Option Value

pub record ConnectorImport (Value : Type 0) : Type 0 where
  pub item : ConnectorItem Value
  pub attachments : List (ConnectorAttachment Value)

pub record ImportOutcome : Type 0 where
  pub item_id : Text
  pub item_dir : Text
  pub written_files : List Text
  pub categories : List Text

-- The fields of a request that the sink reads.
pub record ConnectorImportRequest (Value : Type 0) : Type 0 where
  pub session_id : Option Text
  pub normalized_items : List (ConnectorItem Value)

pub record ConnectorSession (Value : Type 0) : Type 0 where
  pub session_id : Option Text
  pub items : List (ConnectorItem Value)
  pub attachments : List (ConnectorAttachment Value)
  pub outcome : Option ImportOutcome

-- `Result<(), String>`
pub data Reply : Type 0 where
  accepted : Reply
  failed : Text → Reply

-- The daemon as the sink sees it, and what the sink asks of JSON: the text under `url` or `uri`, and
-- an object with a title.
pub record ConnectorDaemon (Value D : Type 0) : Type 0 where
  pub import_connector_item : ConnectorImport Value → D → Result ImportOutcome × D
  pub save_connector_attachment_to_item : Text → ConnectorAttachment Value → D → Result Text × D
  pub url_of : Value → Option Text
  pub titled : Text → Value

abbrev pub max_completed_sessions : ℕ
max_completed_sessions = 16

abbrev pub option_eq : Option Text → Option Text → Bool
option_eq none none = true
option_eq (some a) (some b) = str_eq a b
option_eq _ _ = false

-- A session with those before it and those after it, as its index tells.
abbrev pub Spot : Type 0 → Type 0
Spot Value = List (ConnectorSession Value) × ConnectorSession Value × List (ConnectorSession Value)

module _ {Value : Type 0} where
  abbrev pub is_completed : ConnectorSession Value → Bool
  is_completed s = is_some s.outcome

  unfoldable pub completed : List (ConnectorSession Value) → ℕ
  completed [] = 0
  completed (s ∷ ss) = let rest = completed ss in if is_completed s then suc rest else rest

  -- The `retain` that counts down `to_drop`.
  unfoldable pub drop_completed : ℕ → List (ConnectorSession Value) → List (ConnectorSession Value)
  drop_completed to_drop [] = []
  drop_completed to_drop (s ∷ ss) =
      let dropped = drop_completed (to_drop - 1) ss in
      let kept = drop_completed to_drop ss in
      if ltb 0 to_drop && is_completed s then dropped else s ∷ kept

  unfoldable pub prune_completed_sessions :
      List (ConnectorSession Value) → List (ConnectorSession Value)
  unfolding completed drop_completed
  prune_completed_sessions sessions =
      drop_completed (completed sessions - max_completed_sessions) sessions

  -- The first session with the id that is not imported takes the items, or a new one does.
  unfoldable pub place_items :
      ConnectorImportRequest Value → List (ConnectorSession Value) → List (ConnectorSession Value)
  place_items request [] =
      record {
        session_id = request.session_id;
        items = request.normalized_items;
        attachments = [];
        outcome = none;
      }
      ∷ []
  place_items request (s ∷ ss) =
      let rest = place_items request ss in
      if option_eq s.session_id request.session_id && not (is_completed s)
      then record s { items = request.normalized_items } ∷ ss
      else s ∷ rest

  abbrev pub one_later : ConnectorSession Value → Option (Spot Value) → Option (Spot Value)
  one_later s none = none
  one_later s (some (before, found, behind)) = some (s ∷ before, found, behind)

  unfoldable pub position : Option Text → List (ConnectorSession Value) → Option (Spot Value)
  position id [] = none
  position id (s ∷ ss) =
      let rest = one_later s (position id ss) in
      if option_eq s.session_id id then some ([], s, ss) else rest

  abbrev pub or_here : ConnectorSession Value → Option (Spot Value) → Option (Spot Value)
  or_here s none = some ([], s, [])
  or_here s (some spot) = one_later s (some spot)

  unfoldable pub last_session : List (ConnectorSession Value) → Option (Spot Value)
  last_session [] = none
  last_session (s ∷ ss) = or_here s (last_session ss)

  -- The session with the id, or the last one if the upload may fall back to it.
  unfoldable pub or_last :
      ConnectorAttachment Value
      → List (ConnectorSession Value)
      → Option (Spot Value)
      → Option (Spot Value)
  unfolding last_session
  or_last attachment sessions (some spot) = some spot
  or_last attachment sessions none =
      if not (is_some attachment.session_id) || is_some attachment.parent_item_id
      then last_session sessions
      else none

  unfoldable pub session_index :
      ConnectorAttachment Value → List (ConnectorSession Value) → Option (Spot Value)
  unfolding position or_last
  session_index attachment sessions =
      or_last attachment sessions (position attachment.session_id sessions)
