-- ===== src/Plugin/Registry.antt =====
-- `PluginProcessRegistry` of crates/plugin/src/registry.rs: the table of live invocations behind its
-- mutex. A kill signal that was sent is kept in `killed`, oldest first.
pub mod Order
pub mod Invariant
pub mod Cancelling
use localref.Base.{
  ℕ, Text, List, [], ◌∷◌, ◌++◌, Bool, true, false, not, ◌==◌, ◌||◌, if◌then◌else◌, any, retain, map,
  succ64, leb,
}

pub data InvocationKind : Type 0 where
  action preview hook cron : InvocationKind

-- A `RunningEntry` with its id, and the `RunningInvocation` that `list` shows of it.
pub record RunningInvocation : Type 0 where
  pub id : ℕ
  pub plugin : Text
  pub action : Text
  pub kind : InvocationKind
  pub started_at_ms : ℕ

-- The entries stand in the order in which they were registered. Taking an id and filing the entry
-- are one step here: no other operation reads an id that is taken and not yet filed.
pub record PluginProcessRegistry : Type 0 where
  pub next_id : ℕ
  pub entries : List RunningInvocation
  pub killed : List ℕ

-- `PluginProcessRegistry::new`
unfoldable pub new : PluginProcessRegistry
new = record { next_id = 0; entries = []; killed = [] }

unfoldable pub without : ℕ → List RunningInvocation → List RunningInvocation
unfolding retain
without id entries = retain (λ (e : RunningInvocation). not (e.id == id)) entries

unfoldable pub is_live : ℕ → PluginProcessRegistry → Bool
unfolding any
is_live id r = any (λ (e : RunningInvocation). e.id == id) r.entries

-- `register`, at a time of the wall clock: the id that the guard keeps, and the registry.
unfoldable pub register :
    Text → Text → InvocationKind → ℕ → PluginProcessRegistry → ℕ × PluginProcessRegistry
register plugin_name action_name kind now r = (
  r.next_id,
  record r {
    next_id = succ64 r.next_id;
    entries =
        without r.next_id r.entries
        ++ record {
          id = r.next_id;
          plugin = plugin_name;
          action = action_name;
          kind = kind;
          started_at_ms = now;
        }
          ∷ [];
  },
)

unfoldable pub insert_run : RunningInvocation → List RunningInvocation → List RunningInvocation
insert_run run [] = run ∷ []
insert_run run (x ∷ xs) =
    let later = x ∷ insert_run run xs in if leb run.id x.id then run ∷ x ∷ xs else later

-- `sort_by_key`
unfoldable pub sort_by_id : List RunningInvocation → List RunningInvocation
unfolding insert_run
sort_by_id [] = []
sort_by_id (x ∷ xs) = insert_run x (sort_by_id xs)

unfoldable pub list : PluginProcessRegistry → List RunningInvocation
unfolding sort_by_id
list r = sort_by_id r.entries

-- `cancel`: whether there was such an entry
unfoldable pub cancel : ℕ → PluginProcessRegistry → Bool × PluginProcessRegistry
unfolding without is_live
cancel id r =
    if is_live id r
    then (true, record r { entries = without id r.entries; killed = r.killed ++ id ∷ [] })
    else (false, r)

unfoldable pub cancel_all : PluginProcessRegistry → PluginProcessRegistry
cancel_all r = record r {
  entries = [];
  killed = r.killed ++ map (λ (e : RunningInvocation). e.id) r.entries;
}

-- `RegistrationGuard::drop`
unfoldable pub drop_guard : ℕ → PluginProcessRegistry → PluginProcessRegistry
unfolding without
drop_guard id r = record r { entries = without id r.entries }
