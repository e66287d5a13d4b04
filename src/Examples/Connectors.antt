-- ===== src/Examples/Connectors.antt =====
-- Runs of crates/csc/src/lib.rs: the categories that the connector is offered, the attachments and
-- the items that it sends.
use localref.Base.{
  ℕ, Text, text, List, [], ◌∷◌, map, true, ◌≡◌, refl, all, is_strict, trim, split, str_eq, text_leb,
  is_whitespace, none, some, rsplit_once, to_ascii_lowercase, is_empty, ◌↔◌, ◌⊎◌,
}
use localref.Csc.Sessions.{ConnectorAttachment}
use localref.Csc.Uploads.{
  Value, object, string, end, field, attachment, rejected, json_string,
  connector_attachment_from_upload,
}
use localref.Csc.Uploads.Names.{is_file_name, connector_attachment_from_upload-named}
use localref.Csc.Items.{item_title, title_keys, note_title, url_keys}
use localref.Csc.Items.Titles.{item_title-empty_iff}
use localref.Types.CategoryPath.{normalize}
use localref.Csc.Targets.{
  SaveTarget, normalized_category_prefixes, connector_save_targets, encode_target_path,
}
use localref.Csc.Targets.Encoding.{
  is_char, is_id_char, read_utf8, read_bytes, plain, encode_target_path-reads,
}
use localref.Csc.Targets.Closed.{has_parent}
use localref.Csc.Targets.Whole.{is_offered, normalized_category_prefixes-closed}

abbrev given : List Text
given = text "Radio/ Mesh " ∷ text "/Optics/" ∷ text " " ∷ []

abbrev offered : List Text
offered = text "Optics" ∷ text "Radio" ∷ text "Radio/Mesh" ∷ []

offers : normalized_category_prefixes given ≡ offered
unfolding normalized_category_prefixes text trim split normalize text_leb str_eq is_whitespace
offers = refl

encodes : encode_target_path (text "Ü/a b") ≡ text "%C3%9C/a%20b"
unfolding encode_target_path text
encodes = refl

abbrev levels : List SaveTarget → List ℕ
levels = map (λ (t : SaveTarget). t.level)

has_levels : levels (connector_save_targets given) ≡ 0 ∷ 1 ∷ 1 ∷ 2 ∷ []
unfolding connector_save_targets normalized_category_prefixes text trim split normalize text_leb
    str_eq is_whitespace
has_levels = refl

by_characters : all is_char (text "Ü/a b") ≡ true
unfolding all text
by_characters = refl

encode_target_path-reads_example :
    (all is_id_char (encode_target_path (text "Ü/a b")) ≡ true)
    × (read_utf8 0 0 (read_bytes plain (encode_target_path (text "Ü/a b"))) ≡ text "Ü/a b")
encode_target_path-reads_example = encode_target_path-reads (text "Ü/a b") by_characters

normalized_category_prefixes-closed_example :
    let paths = normalized_category_prefixes given in
    (is_strict paths ≡ true)
    × (all (has_parent paths) paths ≡ true)
    × (all (is_offered paths) given ≡ true)
normalized_category_prefixes-closed_example = normalized_category_prefixes-closed given

abbrev metadata : Value
metadata = object (
    field (text "title") (string (text "papers\\mesh "))
      (field (text "mimeType") (string (text "Application/PDF")) end))

abbrev uploaded : ConnectorAttachment Value
uploaded = record {
  session_id = none;
  parent_item_id = none;
  title = some (text "papers\\mesh ");
  filename = text "mesh.pdf";
  mime_type = some (text "Application/PDF");
  bytes = 1 ∷ [];
  raw_metadata = some metadata;
}

uploads : connector_attachment_from_upload none (some metadata) (1 ∷ []) ≡ attachment uploaded
unfolding connector_attachment_from_upload text str_eq trim is_whitespace rsplit_once
    to_ascii_lowercase
uploads = refl

refuses_upload :
    connector_attachment_from_upload none none []
    ≡ rejected (text "attachment upload missing filename/title/path metadata")
unfolding connector_attachment_from_upload
refuses_upload = refl

connector_attachment_from_upload-named_example :
    (is_file_name uploaded.filename ≡ true)
    × (uploaded.bytes ≡ 1 ∷ [])
    × (uploaded.session_id ≡ none)
connector_attachment_from_upload-named_example =
    connector_attachment_from_upload-named none (some metadata) (1 ∷ []) uploaded uploads

abbrev court_case : Value
court_case =
    object (field (text "title") (string []) (field (text "caseName") (string (text "Roe")) end))

has_no_title : item_title court_case none ≡ []
unfolding item_title text str_eq
has_no_title = refl

item_title-empty_iff_example : (is_empty (item_title court_case none) ≡ true) ↔ (
    (json_string court_case title_keys ≡ some [])
    ⊎ ((json_string court_case title_keys ≡ none)
        × (note_title (json_string court_case (text "note" ∷ [])) ≡ none)
        × (json_string court_case url_keys ≡ some [])))
item_title-empty_iff_example = item_title-empty_iff court_case none
