-- ===== src/Types/ItemId.antt =====
-- `ItemId` of crates/core/src/types/mod.rs
use localref.Base.{Text, Option, none, some, if◌then◌else◌, is_empty, trim}

pub record ItemId : Type 0 where
  pub value : Text

-- `ItemId::new`
unfoldable pub new : Text → Option ItemId
new value = if is_empty (trim value) then none else some (record { value = value })
