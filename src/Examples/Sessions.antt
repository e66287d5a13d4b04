-- ===== src/Examples/Sessions.antt =====
-- Runs of `DaemonConnectorSink` of crates/csc/src/daemon_sink.rs with a daemon that keeps a list of
-- attachments and refuses an item without a title.
use localref.Base.{
  ◌≤◌, ◌≡◌, refl, Text, text, List, [], ◌∷◌, ◌++◌, Bool, true, not, ◌||◌, if◌then◌else◌, none, some,
  Result, ok, err, missing_field, display, any, all, retain, is_empty, str_eq,
}
use localref.Csc.Sessions.{
  ConnectorItem, ConnectorAttachment, ConnectorImport, ImportOutcome, ConnectorImportRequest,
  ConnectorSession, accepted, failed, ConnectorDaemon, completed, is_completed,
  prune_completed_sessions,
}
use localref.Csc.Sessions.Sink.{accept_import, accept_attachment}
use localref.Csc.Sessions.Pruning.{is_settled, accept_import-settled}
use localref.Csc.Sessions.Blocking.{Placed, accept_import-blocked}
use localref.Csc.Sessions.Waiting.{waits}
use localref.Csc.Sessions.Handing.{recording, accept_attachment-handed}

abbrev Attachment : Type 0
Attachment = ConnectorAttachment Text

abbrev outcome_of : Text → ImportOutcome
outcome_of title = record { item_id = title; item_dir = title; written_files = []; categories = [] }

abbrev imported : ConnectorImport Text → List Attachment → Result ImportOutcome × List Attachment
imported i files =
    if is_empty i.item.title
    then (err (missing_field "path component"), files)
    else (ok (outcome_of i.item.title), i.attachments ++ files)

abbrev daemon : ConnectorDaemon Text (List Attachment)
daemon = record {
  import_connector_item = imported;
  save_connector_attachment_to_item = λ dir a files. (ok dir, a ∷ files);
  url_of = some;
  titled = λ title. title;
}

abbrev item : Text → ConnectorItem Text
item title = record {
  session_id = none;
  uri = none;
  connector_item_id = none;
  item_type = none;
  title = title;
  abstract_note = none;
  doi = none;
  raw = [];
}

abbrev session : Text → Text → ConnectorSession Text
session id title = record {
  session_id = some id;
  items = item title ∷ [];
  attachments = [];
  outcome = none;
}

abbrev request : ConnectorImportRequest Text
request = record { session_id = some (text "b"); normalized_items = item (text "Paper") ∷ [] }

abbrev untitled : ConnectorSession Text
untitled = session (text "a") []

abbrev pdf : Attachment
pdf = record {
  session_id = some (text "b");
  parent_item_id = some (text "i");
  title = none;
  filename = text "a.pdf";
  mime_type = none;
  bytes = 1 ∷ [];
  raw_metadata = none;
}

abbrev imported_session : ConnectorSession Text
imported_session = record (session (text "b") (text "Paper")) {
  outcome = some (outcome_of (text "Paper"));
}

abbrev is_pdf : Attachment → Bool
is_pdf a = str_eq a.filename (text "a.pdf")

imports : accept_import daemon request [] [] ≡ (accepted, imported_session ∷ [], [])
unfolding accept_import text
imports = refl

attaches :
    accept_attachment daemon pdf (imported_session ∷ []) []
    ≡ (accepted, imported_session ∷ [], pdf ∷ [])
unfolding accept_attachment text str_eq
attaches = refl

accept_import-settled_example :
    (completed (imported_session ∷ []) ≤ 16)
    × (all is_settled (imported_session ∷ []) ≡ true)
    × (retain (λ s. not (is_completed s)) (prune_completed_sessions {Value = Text} [])
        ≡ retain (λ s. not (is_completed s)) [])
accept_import-settled_example =
    accept_import-settled daemon request [] (imported_session ∷ []) [] [] imports

-- Of two items that a request brings, the second is in no import.
abbrev both : ConnectorImportRequest Text
both = record {
  session_id = some (text "b");
  normalized_items = item (text "Paper") ∷ item (text "Other") ∷ [];
}

imports_first :
    accept_import daemon both [] []
    ≡ (accepted, record imported_session { items = both.normalized_items } ∷ [], [])
unfolding accept_import text
imports_first = refl

accept_import-blocked_example :
    (placed : List (ConnectorSession Text)) × (accept_import daemon request (untitled ∷ []) []
      ≡ (failed (display (missing_field "path component")), untitled ∷ placed, []))
    × Placed request [] placed
    × (completed (untitled ∷ placed) ≡ completed (untitled ∷ []))
unfolding str_eq text
accept_import-blocked_example =
    accept_import-blocked daemon request untitled [] (item []) [] [] []
      (missing_field "path component") refl refl refl refl

accept_attachment-handed_example :
    (handed : List Attachment) × (accept_attachment
        (recording daemon)
        pdf
        (imported_session ∷ [])
        ([], [])
      ≡ (accepted, imported_session ∷ [], (handed, pdf ∷ [])))
    × ((any is_pdf handed || waits is_pdf (imported_session ∷ [])) ≡ true)
unfolding str_eq text
accept_attachment-handed_example =
    accept_attachment-handed daemon is_pdf pdf (imported_session ∷ []) (imported_session ∷ []) [] []
      (pdf ∷ []) refl attaches
