-- ===== src/Csc/Uploads/Names.antt =====
-- The file names that `connector_attachment_from_upload` of crates/csc/src/lib.rs gives.
use localref.Base.{
  ℕ, ◌≡◌, refl, ap, sym, ◌∙◌, Text, text, List, [], ◌∷◌, Bool, true, false, not, ◌&&◌, Option, none,
  some, is_empty, all, any, all-append, trim, str_eq, to_ascii_lowercase, Bool-cases, inl, inr,
  arith,
}
use localref.Csc.Sessions.{ConnectorAttachment}
use localref.Csc.Targets.Closed.{all-trim}
use localref.Csc.Uploads.{
  Value, is_separator, after_separators, unless_empty, filename_from_value,
  extension_for_attachment, extended_by, or_else, arm, lowercase_arm, mime_arms, type_arms,
  has_extension, filename_with_type_extension, and_then, read_metadata, Upload, attachment,
  rejected, upload_of, connector_attachment_from_upload,
}

-- A name of one file: not empty, without a slash and without a backslash.
abbrev pub is_file_name : Text → Bool
is_file_name name = not (is_empty name) && all (λ c. not (is_separator c)) name

abbrev option_is_name : Option Text → Bool
option_is_name none = true
option_is_name (some name) = is_file_name name

all-unless_any : (s : Text) → any is_separator s ≡ false → all (λ c. not (is_separator c)) s ≡ true
unfolding any all
all-unless_any [] h = refl
all-unless_any (c ∷ s) h = ground (arith, all-unless_any s)

all-after_separators : (s : Text) → all (λ c. not (is_separator c)) (after_separators s) ≡ true
unfolding after_separators all
all-after_separators [] = refl
all-after_separators (c ∷ s) = elim (Bool-cases (any is_separator s)) [
  | inl e ↦ ground (arith, all-after_separators s)
  | inr e ↦ ground (arith, all-unless_any s)
]

unless_empty-IsName :
    (s : Text) → all (λ c. not (is_separator c)) s ≡ true → option_is_name (unless_empty s) ≡ true
unless_empty-IsName [] h = refl
unless_empty-IsName (c ∷ s) h = ground arith

filename_from_value-IsName : (value : Text) → option_is_name (filename_from_value value) ≡ true
unfolding filename_from_value
filename_from_value-IsName value = unless_empty-IsName (trim (after_separators (trim value))) (
    all-trim (λ c. not (is_separator c)) (after_separators (trim value))
      (all-after_separators (trim value)))

arm-IsName :
    (arms : List (Text × Text)) (s : Text)
    → all (λ a. is_file_name a.1) arms ≡ true
    → option_is_name (arm arms s) ≡ true
unfolding arm all
arm-IsName [] s h = refl
arm-IsName ((pattern_text, extension) ∷ arms) s h = elim (Bool-cases (str_eq pattern_text s)) [
  | inl e ↦ ground arith
  | inr e ↦ ground (arith, arm-IsName arms s)
]

lowercase_arm-IsName :
    (arms : List (Text × Text)) (s : Option Text)
    → all (λ a. is_file_name a.1) arms ≡ true
    → option_is_name (lowercase_arm arms s) ≡ true
lowercase_arm-IsName arms none h = refl
lowercase_arm-IsName arms (some s) h = arm-IsName arms (to_ascii_lowercase s) h

or_else-IsName :
    (first second : Option Text)
    → option_is_name first ≡ true
    → option_is_name second ≡ true
    → option_is_name (or_else first second) ≡ true
or_else-IsName none second h k = k
or_else-IsName (some name) second h k = h

arms-IsName :
    (all (λ a. is_file_name a.1) mime_arms ≡ true) × (all (λ a. is_file_name a.1) type_arms ≡ true)
unfolding all mime_arms type_arms text
arms-IsName = (refl, refl)

extension_for_attachment-IsName :
    (mime kind : Option Text) → option_is_name (extension_for_attachment mime kind) ≡ true
unfolding extension_for_attachment
extension_for_attachment-IsName mime kind =
    or_else-IsName (lowercase_arm mime_arms mime) (lowercase_arm type_arms kind)
      (lowercase_arm-IsName mime_arms mime arms-IsName.0)
      (lowercase_arm-IsName type_arms kind arms-IsName.1)

extended_by-IsName :
    (name : Text) (extension : Option Text)
    → is_file_name name ≡ true
    → option_is_name extension ≡ true
    → is_file_name (extended_by name extension) ≡ true
unfolding all
extended_by-IsName name none h k = h
extended_by-IsName [] (some e) h k = ground arith
extended_by-IsName (c ∷ name) (some e) h k =
    ground (arith, all-append (λ c. not (is_separator c)) name (b'.' ∷ e))

filename_with_type_extension-IsName :
    (name : Text) (mime kind : Option Text)
    → is_file_name name ≡ true
    → is_file_name (filename_with_type_extension name mime kind) ≡ true
unfolding filename_with_type_extension
filename_with_type_extension-IsName name mime kind h = elim (Bool-cases (has_extension name)) [
  | inl e ↦ ground arith
  | inr e ↦
      let plain =
        extended_by-IsName name (extension_for_attachment mime kind) h
          (extension_for_attachment-IsName mime kind) in
      ground arith
]

typed-IsName :
    (filename mime kind : Option Text)
    → option_is_name filename ≡ true
    → option_is_name
        (and_then filename (λ name. some (filename_with_type_extension name mime kind)))
      ≡ true
typed-IsName none mime kind h = refl
typed-IsName (some name) mime kind h = filename_with_type_extension-IsName name mime kind h

found-IsName : (named : Option Text) → option_is_name (and_then named filename_from_value) ≡ true
found-IsName none = refl
found-IsName (some value) = filename_from_value-IsName value

-- The name, the bytes and the session of an upload that is taken.
abbrev taken : Upload → Text × List ℕ × Option Text
taken (rejected m) = ([], [], none)
taken (attachment a) = (a.filename, a.bytes, a.session_id)

upload_of-named :
    (session_id : Option Text) (metadata : Option Value) (body : List ℕ)
    (mime filename : Option Text) (a : ConnectorAttachment Value)
    → option_is_name filename ≡ true
    → upload_of session_id metadata body mime filename ≡ attachment a
    → (is_file_name a.filename ≡ true) × (a.bytes ≡ body) × (a.session_id ≡ session_id)
upload_of-named session_id metadata body mime none a h e = ground arith
upload_of-named session_id metadata body mime (some name) a h e =
    let same = ap taken e in
    (
      ap (λ r. is_file_name (r.0)) (sym same) ∙ h,
      ap (λ r. r.1) (sym same),
      ap (λ r. r.2) (sym same),
    )

-- An upload that is taken has a file name that is not empty and has neither a slash nor a backslash,
-- whatever the metadata say, and it has the bytes and the session that came with it.
pub connector_attachment_from_upload-named :
    (session_id : Option Text) (metadata : Option Value) (body : List ℕ)
    (a : ConnectorAttachment Value)
    → connector_attachment_from_upload session_id metadata body ≡ attachment a
    → (is_file_name a.filename ≡ true) × (a.bytes ≡ body) × (a.session_id ≡ session_id)
unfolding connector_attachment_from_upload
connector_attachment_from_upload-named session_id metadata body a h =
    let mime = read_metadata metadata (text "mimeType" ∷ text "contentType" ∷ []) in
    let kind = read_metadata metadata (text "type" ∷ text "attachmentType" ∷ text "kind" ∷ []) in
    let named =
      read_metadata metadata (text "filename" ∷ text "title" ∷ text "path" ∷ text "url" ∷ []) in
    let filename = and_then named filename_from_value in
    upload_of-named session_id metadata body mime
      (and_then filename (λ name. some (filename_with_type_extension name mime kind))) a
      (typed-IsName filename mime kind (found-IsName named)) h
