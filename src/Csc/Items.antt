-- ===== src/Csc/Items.antt =====
-- `connector_item_from_value` and `item_title` of crates/csc/src/lib.rs.
pub mod Titles
use localref.Base.{
  ℕ, ◌≤◌, Text, text, List, [], ◌∷◌, ◌++◌, Bool, true, false, not, ◌==◌, if◌then◌else◌, Option,
  none, some, is_empty, length, take, retain, is_whitespace, leb, extend_first,
}
use localref.Csc.Sessions.{ConnectorItem}
use localref.Csc.Uploads.{Value, json_string, or_else}

-- The loop of `strip_html_like_text`, with the flag.
unfoldable pub outside_tags : Bool → Text → Text
outside_tags in_tag [] = []
outside_tags in_tag (c ∷ s) =
    let opened = outside_tags true s in
    let closed = outside_tags false s in
    let same = outside_tags in_tag s in
    if c == b'<' then opened else if c == b'>' then closed else if in_tag then same else c ∷ same

-- `split_whitespace`
unfoldable pub split_blanks : Text → List Text
unfolding is_whitespace
split_blanks [] = [] ∷ []
split_blanks (c ∷ s) =
    let rest = split_blanks s in if is_whitespace c then [] ∷ rest else extend_first c rest

unfoldable pub split_whitespace : Text → List Text
unfolding retain split_blanks
split_whitespace s = retain (λ word. not (is_empty word)) (split_blanks s)

unfoldable pub join_words : List Text → Text
join_words [] = []
join_words (word ∷ []) = word
join_words (word ∷ next_word ∷ words) = word ++ b' ' ∷ join_words (next_word ∷ words)

unfoldable pub strip_html_like_text : Text → Text
unfolding outside_tags split_whitespace join_words
strip_html_like_text value = join_words (split_whitespace (outside_tags false value))

abbrev pub max_title_chars : ℕ
max_title_chars = 80

unfoldable pub truncate_title : Text → Text
unfolding take text
truncate_title value =
    let title = take max_title_chars value in
    if leb (length value) max_title_chars then title else title ++ text "..."

unfoldable pub title_keys : List Text
unfolding text
title_keys =
    text "title"
    ∷ text "shortTitle"
    ∷ text "caseName"
    ∷ text "nameOfAct"
    ∷ text "subject"
    ∷ text "bookTitle"
    ∷ text "publicationTitle"
    ∷ text "proceedingsTitle"
    ∷ text "encyclopediaTitle"
    ∷ text "dictionaryTitle"
    ∷ text "blogTitle"
    ∷ text "websiteTitle"
    ∷ text "forumTitle"
    ∷ text "programTitle"
    ∷ text "documentNumber"
    ∷ text "reportNumber"
    ∷ text "patentNumber"
    ∷ text "billNumber"
    ∷ text "docketNumber"
    ∷ text "code"
    ∷ []

abbrev pub unwrap_or : Option Text → Text → Text
unwrap_or none s = s
unwrap_or (some t) s = t

-- A note gives a title unless nothing is left of it.
abbrev pub note_title : Option Text → Option Text
note_title none = none
note_title (some note) =
    let stripped = strip_html_like_text note in
    if is_empty stripped then none else some (truncate_title stripped)

abbrev pub id_keys : List Text
id_keys = text "id" ∷ text "itemID" ∷ text "key" ∷ []

abbrev pub url_keys : List Text
url_keys = text "url" ∷ text "uri" ∷ []

unfoldable pub item_title : Value → Option Text → Text
unfolding text json_string title_keys strip_html_like_text truncate_title
item_title item item_type =
    let id = unwrap_or (json_string item id_keys) (text "untitled") in
    let fallback = unwrap_or item_type (text "item") ++ b'-' ∷ id in
    let note = note_title (json_string item (text "note" ∷ [])) in
    unwrap_or (or_else (json_string item title_keys) (or_else note (json_string item url_keys)))
      fallback

-- The session and the address are those of the request.
unfoldable pub connector_item_from_value : Option Text → Option Text → Value → ConnectorItem Value
unfolding text json_string item_title
connector_item_from_value session_id uri item =
    let item_type = json_string item (text "itemType" ∷ text "type" ∷ []) in
    record {
      session_id = session_id;
      uri = or_else uri (json_string item url_keys);
      connector_item_id = json_string item id_keys;
      item_type = item_type;
      title = item_title item item_type;
      abstract_note = json_string item (text "abstractNote" ∷ text "abstract" ∷ []);
      doi = json_string item (text "DOI" ∷ text "doi" ∷ []);
      raw = item;
    }
