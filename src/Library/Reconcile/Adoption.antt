-- ===== src/Library/Reconcile/Adoption.antt =====
-- The loops of `reconcile_categories` over links and items.
use localref.Base.{Text, ◌≡◌}
use localref.Types.CategoryPath.{CategoryPath}
use localref.Library.State.{LibraryState}
use localref.Library.Reconcile.Growth.{Grown}

module _ (allowed : Text → Text → Type 0) where
  -- A turn that succeeds leaves the index and lets the metadata grow.
  abbrev Turn : LibraryState → LibraryState → Type 0
  Turn L L' = Grown allowed L.stored L'.stored × (L'.index ≡ L.index)
