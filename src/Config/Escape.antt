-- ===== src/Config/Escape.antt =====
-- `escape_toml_basic` of crates/core/src/config/mod.rs, against the basic strings of TOML.
use localref.Base.{
  ℕ, ◌+◌, ◌-◌, ◌*◌, ◌/◌, ◌%◌, ◌<◌, ◌≡◌, refl, ap, Text, [], ◌∷◌, ◌++◌, Bool, ◌||◌, ◌&&◌, ◌==◌, ltb,
  leb, if◌then◌else◌, Option, none, some, arith,
}

-- `char::is_control`
abbrev pub is_control : ℕ → Bool
is_control c = leb c 0x1F || (leb 0x7F c && leb c 0x9F)

-- A digit of `{:04X}`.
abbrev pub hex_digit : ℕ → ℕ
hex_digit d = if ltb d 10 then 48 + d else 55 + d

unfoldable pub hex4 : ℕ → Text
hex4 c =
    hex_digit (c / 4096 % 16)
    ∷ hex_digit (c / 256 % 16)
    ∷ hex_digit (c / 16 % 16)
    ∷ hex_digit (c % 16)
    ∷ []

unfoldable pub escape_char : ℕ → Text
unfolding hex4
escape_char c =
    if c == 92
    then 92 ∷ 92 ∷ []
    else if c == 34
    then 92 ∷ 34 ∷ []
    else if c == 10
    then 92 ∷ b'n' ∷ []
    else if c == 13
    then 92 ∷ b'r' ∷ []
    else if c == 9
    then 92 ∷ b't' ∷ []
    else if is_control c
    then 92 ∷ b'u' ∷ hex4 c
    else c ∷ []

unfoldable pub escape_toml_basic : Text → Text
unfolding escape_char
escape_toml_basic [] = []
escape_toml_basic (c ∷ s) = escape_char c ++ escape_toml_basic s

-- A reader of basic strings: within text, behind a backslash, in the four digits of `\u` with how
-- many have been read and their value, or where no string can go on.
pub data Reader : Type 0 where
  plain slash broken : Reader
  hex : ℕ → ℕ → Reader

abbrev pub unhex : ℕ → Option ℕ
unhex c =
    if leb 48 c && leb c 57
    then some (c - 48)
    else if leb 65 c && leb c 70
    then some (c - 55)
    else if leb 97 c && leb c 102
    then some (c - 87)
    else none

abbrev pub after_digit : ℕ → ℕ → Option ℕ → Reader × Option ℕ
after_digit n value none = (broken, none)
after_digit n value (some d) =
    if n == 3 then (plain, some (value * 16 + d)) else (hex (n + 1) (value * 16 + d), none)

-- The state after a character, with the character that is complete. Within text a quote and a
-- control other than the tab cannot stand.
abbrev pub step : Reader → ℕ → Reader × Option ℕ
step plain c =
    if c == 92
    then (slash, none)
    else if c == 34
    then (broken, none)
    else if c == 9
    then (plain, some c)
    else if is_control c
    then (broken, none)
    else (plain, some c)
step slash c =
    if c == 92
    then (plain, some 92)
    else if c == 34
    then (plain, some 34)
    else if c == b'n'
    then (plain, some 10)
    else if c == b'r'
    then (plain, some 13)
    else if c == b't'
    then (plain, some 9)
    else if c == b'u'
    then (hex 0 0, none)
    else (broken, none)
step (hex n value) c = after_digit n value (unhex c)
step broken c = (broken, none)

abbrev pub push : Option ℕ → Option Text → Option Text
push none o = o
push (some c) none = none
push (some c) (some s) = some (c ∷ s)

abbrev pub end_of : Reader → Option Text
end_of plain = some []
end_of _ = none

unfoldable pub read : Reader → Text → Option Text
read r [] = end_of r
read r (c ∷ s) = push (step r c).1 (read (step r c).0 s)

unhex-hex_digit : (d : ℕ) → d < 16 → unhex (hex_digit d) ≡ some d
unhex-hex_digit d h = ground arith

digits :
    (c : ℕ)
    → c < 256
    → (((0 * 16 + c / 4096 % 16) * 16 + c / 256 % 16) * 16 + c / 16 % 16) * 16 + c % 16 ≡ c
digits c h = omega arith

small_mod : (n : ℕ) → n % 16 < 16
small_mod n = omega arith

read-plain-slash : (s : Text) → read plain (92 ∷ s) ≡ read slash s
unfolding read
read-plain-slash s = refl

read-hex4 :
    (c : ℕ) (s : Text) → c < 256 → read (hex 0 0) (hex4 c ++ s) ≡ push (some c) (read plain s)
unfolding read hex4
read-hex4 c s h =
    rw
      (
        unhex-hex_digit (c / 4096 % 16) (small_mod (c / 4096)),
        unhex-hex_digit (c / 256 % 16) (small_mod (c / 256)),
        unhex-hex_digit (c / 16 % 16) (small_mod (c / 16)),
        unhex-hex_digit (c % 16) (small_mod c),
      )
      (ap (λ v. push (some v) (read plain s)) (digits c h))

read-escape_char :
    (c : ℕ) (s : Text) → read plain (escape_char c ++ s) ≡ push (some c) (read plain s)
unfolding read escape_char
read-escape_char c s = ground (arith, read-hex4 c s)

-- A TOML reader gets back from the escaped text exactly the text that was escaped, whatever
-- characters it holds.
pub read-escape_toml_basic : (s : Text) → read plain (escape_toml_basic s) ≡ some s
unfolding escape_toml_basic read
read-escape_toml_basic [] = refl
read-escape_toml_basic (c ∷ s) =
    rw (read-escape_char c (escape_toml_basic s), read-escape_toml_basic s)
