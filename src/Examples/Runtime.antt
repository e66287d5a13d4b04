-- ===== src/Examples/Runtime.antt =====
-- Runs of the health tracker and of the restarts of workers of crates/host, and of the registry of
-- crates/plugin.
use localref.Base.{ℕ, ◌*◌, text, List, [], ◌∷◌, true, false, arith}
use localref.Host.Health.{Report}
use localref.Plugin.Registry.{PluginProcessRegistry, preview, new, register, cancel}
use localref.Plugin.Registry.Invariant.{
  Reach, start, next, registers, cancels, RegistryInv, Reach-RegistryInv,
}

abbrev crash : Report
crash = record { is_crash = true; component = text "cron"; message = []; count = 4 }

abbrev trouble : Report
trouble = record { is_crash = false; component = text "hook"; message = []; count = 1 }

abbrev seconds : ℕ → ℕ
seconds n = n * 1000000000

-- The first failure is forgotten by the time of the fifth.
abbrev failures : List ℕ
failures = seconds 1 ∷ seconds 100 ∷ seconds 200 ∷ seconds 300 ∷ []

abbrev one_run : PluginProcessRegistry
one_run = (register (text "bibtexer") (text "export") preview 5 new).1

one_run-Reach : Reach one_run
unfolding new
one_run-Reach = next start (registers new (text "bibtexer") (text "export") preview 5 (omega arith))

Reach-RegistryInv_example : RegistryInv (cancel 0 one_run).1
Reach-RegistryInv_example = Reach-RegistryInv (next one_run-Reach (cancels one_run 0))
