-- ===== src/Csc/Targets/Encoding.antt =====
-- `encode_target_path` of crates/csc/src/lib.rs against readers of percent-encoded bytes and of UTF-8.
use localref.Base.{
  ℕ, ◌+◌, ◌-◌, ◌*◌, ◌<◌, ◌≡◌, refl, ap, ◌∙◌, Text, List, [], ◌∷◌, ◌++◌, Bool, true, ◌||◌, ◌==◌, ltb,
  leb, if◌then◌else◌, all, all-append, arith, is_ascii_alphanumeric,
}
use localref.Csc.Targets.{utf8, bytes, is_unreserved, encode_byte, encode_bytes, encode_target_path}

abbrev pub digit_value : ℕ → ℕ
digit_value c = if leb 65 c then c - 55 else c - 48

-- A reader of percent-encoded text: in front of a byte, behind a percent sign, or behind a digit.
pub data Reader : Type 0 where
  plain high : Reader
  low : ℕ → Reader

unfoldable pub read_bytes : Reader → Text → List ℕ
read_bytes r [] = []
read_bytes plain (c ∷ s) =
    let rest = read_bytes plain s in
    let escaped = read_bytes high s in if c == b'%' then escaped else c ∷ rest
read_bytes high (c ∷ s) = read_bytes (low (digit_value c)) s
read_bytes (low h) (c ∷ s) = (h * 16 + digit_value c) ∷ read_bytes plain s

-- A reader of UTF-8: how many bytes of the character are left, and its value so far.
unfoldable pub read_utf8 : ℕ → ℕ → List ℕ → Text
read_utf8 left c [] = []
read_utf8 ℕ.zero c (b ∷ bs) =
    let one = read_utf8 0 0 bs in
    let two = read_utf8 1 (b - 0xC0) bs in
    let three = read_utf8 2 (b - 0xE0) bs in
    let four = read_utf8 3 (b - 0xF0) bs in
    if ltb b 0x80 then b ∷ one else if ltb b 0xE0 then two else if ltb b 0xF0 then three else four
read_utf8 (ℕ.suc ℕ.zero) c (b ∷ bs) = (c * 64 + (b - 0x80)) ∷ read_utf8 0 0 bs
read_utf8 (ℕ.suc (ℕ.suc left)) c (b ∷ bs) = read_utf8 (ℕ.suc left) (c * 64 + (b - 0x80)) bs

-- `char` goes up to 0x10FFFF.
abbrev pub is_char : ℕ → Bool
is_char c = leb c 0x10FFFF

read_utf8-utf8 :
    (c : ℕ) (bs : List ℕ) → is_char c ≡ true → read_utf8 0 0 (utf8 c ++ bs) ≡ c ∷ read_utf8 0 0 bs
unfolding read_utf8 utf8
read_utf8-utf8 c bs h = ground arith

read_utf8-bytes : (s : Text) → all is_char s ≡ true → read_utf8 0 0 (bytes s) ≡ s
unfolding bytes all read_utf8
read_utf8-bytes [] h = refl
read_utf8-bytes (c ∷ s) h = ground (arith, read_utf8-utf8 c (bytes s), read_utf8-bytes s)

-- A byte.
abbrev pub is_byte : ℕ → Bool
is_byte b = ltb b 256

utf8-IsByte : (c : ℕ) → is_char c ≡ true → all is_byte (utf8 c) ≡ true
unfolding utf8 all
utf8-IsByte c h = ground arith

read_bytes-encode_byte :
    (b : ℕ) (s : Text) → b < 256 → read_bytes plain (encode_byte b ++ s) ≡ b ∷ read_bytes plain s
unfolding read_bytes encode_byte is_unreserved is_ascii_alphanumeric
read_bytes-encode_byte b s h = ground arith

bytes-IsByte : (s : Text) → all is_char s ≡ true → all is_byte (bytes s) ≡ true
unfolding bytes all
bytes-IsByte [] h = refl
bytes-IsByte (c ∷ s) h =
    ground (arith, all-append is_byte (utf8 c) (bytes s), utf8-IsByte c, bytes-IsByte s)

read_bytes-encode_bytes :
    (bs : List ℕ) → all is_byte bs ≡ true → read_bytes plain (encode_bytes bs) ≡ bs
unfolding encode_bytes all read_bytes
read_bytes-encode_bytes [] h = refl
read_bytes-encode_bytes (b ∷ bs) h =
    ground (arith, read_bytes-encode_byte b (encode_bytes bs), read_bytes-encode_bytes bs)

-- What an id is made of behind its first letter.
unfoldable pub is_id_char : ℕ → Bool
is_id_char c = is_unreserved c || c == b'%'

encode_byte-IsId : (b : ℕ) → b < 256 → all is_id_char (encode_byte b) ≡ true
unfolding is_id_char all encode_byte is_unreserved is_ascii_alphanumeric
encode_byte-IsId b h = ground arith

encode_bytes-IsId : (bs : List ℕ) → all is_byte bs ≡ true → all is_id_char (encode_bytes bs) ≡ true
unfolding encode_bytes all
encode_bytes-IsId [] h = refl
encode_bytes-IsId (b ∷ bs) h = ground (
  arith,
  all-append is_id_char (encode_byte b) (encode_bytes bs),
  encode_byte-IsId b,
  encode_bytes-IsId bs,
)

-- The encoding of a text of characters is made of letters and digits of ASCII, of `-`, `_`, `.`, `~`
-- and `/`, and of percent signs, and a reader of percent-encoded UTF-8 gives the text back.
pub encode_target_path-reads :
    (path : Text)
    → all is_char path ≡ true
    → (all is_id_char (encode_target_path path) ≡ true)
      × (read_utf8 0 0 (read_bytes plain (encode_target_path path)) ≡ path)
unfolding encode_target_path
encode_target_path-reads path h =
    let whole = bytes-IsByte path h in
    (
      encode_bytes-IsId (bytes path) whole,
      ap (read_utf8 0 0) (read_bytes-encode_bytes (bytes path) whole) ∙ read_utf8-bytes path h,
    )
