-- ===== src/Types/CategoryPath.antt =====
-- `CategoryPath` of crates/core/src/types/mod.rs
use localref.Base.{
  ◌||◌, Bool, Text, List, Option, none, some, if◌then◌else◌, is_empty, any, trim, trim_matches,
  replace_char, split,
}

pub record CategoryPath : Type 0 where
  pub value : Text

-- What `CategoryPath::new` keeps of its argument: blanks and then slashes are cut at both ends, and
-- then backslashes are turned.
unfoldable pub normalize : Text → Text
unfolding trim trim_matches replace_char
normalize value = replace_char 92 b'/' (trim_matches b'/' (trim value))

-- The test on the components.
unfoldable pub has_blank_part : Text → Bool
unfolding any split trim
has_blank_part value = any (λ part. is_empty (trim part)) (split b'/' value)

-- `CategoryPath::new`
unfoldable pub new : Text → Option CategoryPath
unfolding normalize has_blank_part
new value =
    let trimmed = normalize value in
    if is_empty trimmed || has_blank_part trimmed then none else some (record { value = trimmed })

-- `components`
unfoldable pub components : CategoryPath → List Text
unfolding split
components c = split b'/' c.value
