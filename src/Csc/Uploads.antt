-- ===== src/Csc/Uploads.antt =====
-- `connector_attachment_from_upload`, `item_title` and their helpers of crates/csc/src/lib.rs.
-- File names are those of a Unix.
pub mod Names
use localref.Base.{
  ℕ, ◌-◌, Text, text, List, [], ◌∷◌, ◌++◌, Bool, true, false, not, ◌&&◌, ◌||◌, ◌==◌, ltb,
  if◌then◌else◌, Option, none, some, is_empty, length, take, any, trim, str_eq, rsplit_once,
  to_ascii_lowercase, is_whitespace, contains,
}
use localref.Csc.Sessions.{ConnectorAttachment}

-- JSON, as far as it is read: texts, objects and the rest.
mutual
  pub data Value : Type 0 where
    string : Text → Value
    object : Fields → Value
    other : Value

  pub data Fields : Type 0 where
    end : Fields
    field : Text → Value → Fields → Fields

abbrev pub as_str : Value → Option Text
as_str (string s) = some s
as_str _ = none

-- `get` and `as_str`; a key stands once in an object.
unfoldable pub string_field : Text → Fields → Option Text
string_field key end = none
string_field key (field name value fields) =
    let rest = string_field key fields in if str_eq name key then as_str value else rest

abbrev pub string_at : Text → Value → Option Text
string_at key (object fields) = string_field key fields
string_at key _ = none

abbrev pub or_else : Option Text → Option Text → Option Text
or_else none second = second
or_else (some s) second = some s

unfoldable pub json_string : Value → List Text → Option Text
unfolding string_field
json_string value [] = none
json_string value (key ∷ keys) = or_else (string_at key value) (json_string value keys)

abbrev pub is_separator : ℕ → Bool
is_separator c = c == b'/' || c == 92

-- `rsplit(['/', '\\']).next()`
unfoldable pub after_separators : Text → Text
unfolding any
after_separators [] = []
after_separators (c ∷ s) =
    let rest = after_separators s in
    if any is_separator s then rest else if is_separator c then s else c ∷ s

abbrev pub unless_empty : Text → Option Text
unless_empty s = if is_empty s then none else some s

unfoldable pub filename_from_value : Text → Option Text
unfolding trim after_separators
filename_from_value value = unless_empty (trim (after_separators (trim value)))

-- `Path::extension` of a name without slashes
abbrev pub has_stem : Option (Text × Text) → Bool
has_stem none = false
has_stem (some (stem, extension)) = not (is_empty stem)

unfoldable pub has_extension : Text → Bool
unfolding text rsplit_once str_eq
has_extension filename = not (str_eq filename (text "..")) && has_stem (rsplit_once b'.' filename)

-- A `match` on texts: its arms in order.
unfoldable pub arm : List (Text × Text) → Text → Option Text
unfolding str_eq
arm [] s = none
arm ((pattern_text, extension) ∷ arms) s =
    let rest = arm arms s in if str_eq pattern_text s then some extension else rest

abbrev pub lowercase_arm : List (Text × Text) → Option Text → Option Text
lowercase_arm arms none = none
lowercase_arm arms (some s) = arm arms (to_ascii_lowercase s)

unfoldable pub mime_arms : List (Text × Text)
unfolding text
mime_arms =
    (text "application/pdf", text "pdf")
    ∷ (text "application/epub+zip", text "epub")
    ∷ (text "text/html", text "html")
    ∷ (text "text/plain", text "txt")
    ∷ (text "image/jpeg", text "jpg")
    ∷ (text "image/png", text "png")
    ∷ []

unfoldable pub type_arms : List (Text × Text)
unfolding text
type_arms =
    (text "pdf", text "pdf")
    ∷ (text "epub", text "epub")
    ∷ (text "snapshot", text "html")
    ∷ (text "webpage", text "html")
    ∷ (text "html", text "html")
    ∷ []

unfoldable pub extension_for_attachment : Option Text → Option Text → Option Text
unfolding arm mime_arms type_arms to_ascii_lowercase
extension_for_attachment mime_type attachment_type =
    or_else (lowercase_arm mime_arms mime_type) (lowercase_arm type_arms attachment_type)

abbrev pub extended_by : Text → Option Text → Text
extended_by filename none = filename
extended_by filename (some extension) = filename ++ b'.' ∷ extension

unfoldable pub filename_with_type_extension : Text → Option Text → Option Text → Text
unfolding has_extension extension_for_attachment
filename_with_type_extension filename mime_type attachment_type =
    if has_extension filename
    then filename
    else extended_by filename (extension_for_attachment mime_type attachment_type)

abbrev pub and_then : Option Text → (Text → Option Text) → Option Text
and_then none rest = none
and_then (some s) rest = rest s

abbrev pub read_metadata : Option Value → List Text → Option Text
read_metadata none keys = none
read_metadata (some value) keys = json_string value keys

-- `Result<ConnectorAttachment, String>`
pub data Upload : Type 0 where
  attachment : ConnectorAttachment Value → Upload
  rejected : Text → Upload

abbrev pub upload_of : Option Text → Option Value → List ℕ → Option Text → Option Text → Upload
upload_of session_id metadata body mime_type none =
    rejected (text "attachment upload missing filename/title/path metadata")
upload_of session_id metadata body mime_type (some filename) = attachment (record {
  session_id = session_id;
  parent_item_id =
      read_metadata metadata (text "parentItem" ∷ text "parentItemID" ∷ text "itemID" ∷ []);
  title = read_metadata metadata (text "title" ∷ text "filename" ∷ text "name" ∷ []);
  filename = filename;
  mime_type = mime_type;
  bytes = body;
  raw_metadata = metadata;
})

unfoldable pub connector_attachment_from_upload : Option Text → Option Value → List ℕ → Upload
unfolding text json_string filename_from_value filename_with_type_extension
connector_attachment_from_upload session_id metadata body =
    let mime_type = read_metadata metadata (text "mimeType" ∷ text "contentType" ∷ []) in
    let kind = read_metadata metadata (text "type" ∷ text "attachmentType" ∷ text "kind" ∷ []) in
    let named =
      read_metadata metadata (text "filename" ∷ text "title" ∷ text "path" ∷ text "url" ∷ []) in
    let filename = and_then named filename_from_value in
    upload_of session_id metadata body mime_type
      (and_then filename (λ name. some (filename_with_type_extension name mime_type kind)))
