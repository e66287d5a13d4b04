-- ===== src/Plugin/Registry/Cancelling.antt =====
-- What cancelling one run does.
use localref.Base.{ℕ, ◌≡◌, sym, subst, true, false, not, ◌&&◌, ◌==◌, arith, Bool-cases, inl, inr}
use localref.Plugin.Registry.{PluginProcessRegistry, is_live, cancel}
use localref.Plugin.Registry.Order.{live-without}
use localref.Plugin.Registry.Invariant.{cancelled}

cancel-live :
    (r : PluginProcessRegistry) (id : ℕ)
    → is_live id r ≡ true
    → cancel id r ≡ (true, cancelled id r)
unfolding cancel cancelled
cancel-live r id h = rw h

cancel-dead : (r : PluginProcessRegistry) (id : ℕ) → is_live id r ≡ false → cancel id r ≡ (false, r)
unfolding cancel
cancel-dead r id h = rw h

live-cancelled :
    (r : PluginProcessRegistry) (id k : ℕ)
    → is_live k (cancelled id r) ≡ (is_live k r && not (id == k))
unfolding cancelled is_live
live-cancelled r id k = live-without k id r.entries

others :
    (r : PluginProcessRegistry) (id k : ℕ)
    → is_live id r ≡ false
    → is_live k r ≡ (is_live k r && not (id == k))
others r id k h = elim (Bool-cases (id == k)) [
  | inl same ↦ let e : id ≡ k = ground arith in ground (arith, subst (λ x. is_live x r ≡ false) e h)
  | inr other ↦ ground arith
]

-- `cancel` reports exactly whether the run was live; afterwards it is live no more, so that a second
-- `cancel` reports nothing and changes nothing, and no other run is touched.
pub cancel-is_live :
    (r : PluginProcessRegistry) (id k : ℕ)
    → ((cancel id r).0 ≡ is_live id r)
      × (is_live k (cancel id r).1 ≡ (is_live k r && not (id == k)))
      × (cancel id (cancel id r).1 ≡ (false, (cancel id r).1))
cancel-is_live r id k = elim (Bool-cases (is_live id r)) [
  | inl live ↦ rw (cancel-live r id live) (
    sym live,
    live-cancelled r id k,
    cancel-dead (cancelled id r) id (ground (arith, live-cancelled r id id)),
  )
  | inr dead ↦ rw (cancel-dead r id dead) (sym dead, others r id k dead, cancel-dead r id dead)
]
