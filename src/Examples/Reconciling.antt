-- ===== src/Examples/Reconciling.antt =====
-- Runs of `reconcile_categories` of crates/core/src/lib.rs.
use localref.Base.{none, Text, text, List, [], ◌∷◌}
use localref.Platformfs.CatTree.{Link}
use localref.Library.State.{LibraryState, ItemDocument}
use localref.Library.Reconcile.{reconcile_categories}

abbrev linked : Text → Link
linked category = record { directory = category ∷ []; name = text "D"; target = text "D" }

abbrev document : ItemDocument
document = record { id = text "d"; dir = text "D"; categories = text "v" ∷ [] }

abbrev library : List Link → LibraryState
library links = record {
  stored =
      record {
        dir = text "D";
        id = text "d";
        membership = record { categories = text "v" ∷ []; removed = [] };
      }
      ∷ [];
  index = document ∷ [];
  tree = record { directories = []; links = links };
  manifest = record { entries = [] };
  faults = record { save = none; rebuild = none; listing = none };
}

-- The link below `a` is made by hand.
abbrev by_hand : LibraryState
by_hand = library (linked (text "v") ∷ linked (text "a") ∷ [])

abbrev after : LibraryState
after = (reconcile_categories by_hand).1
