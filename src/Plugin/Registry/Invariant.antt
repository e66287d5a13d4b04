-- ===== src/Plugin/Registry/Invariant.antt =====
-- The registry under interleaved runs and cancellations.
use localref.Base.{
  ℕ, suc, ◌+◌, ◌<◌, ◌≤◌, ◌≡◌, refl, subst, ◌∙◌, Text, List, [], ◌∷◌, ◌++◌, map, Bool, true, false,
  ◌||◌, ◌==◌, any, any-append, arith, u64_mod, succ64, succ64-eq, Bool-cases, inl, inr,
}
use localref.Plugin.Registry.{
  InvocationKind, RunningInvocation, PluginProcessRegistry, new, without, is_live, register, cancel,
  cancel_all, drop_guard,
}
use localref.Plugin.Registry.Order.{
  Increasing, without-Increasing, without-absent, append-Increasing, live-without, live-below,
}

abbrev pub is_killed : ℕ → List ℕ → Bool
is_killed k [] = false
is_killed k (x ∷ xs) = x == k || is_killed k xs

-- Every signal went to a run that was registered, once, and that is live no more.
abbrev pub Signals : List ℕ → PluginProcessRegistry → Type 0
Signals [] r = Unit {0}
Signals (k ∷ ks) r =
    (k < r.next_id) × (is_live k r ≡ false) × (is_killed k ks ≡ false) × Signals ks r

pub record RegistryInv (r : PluginProcessRegistry) : Type 0 where
  pub ordered : Increasing 0 r.next_id r.entries
  pub signals : Signals r.killed r

pub data Step : PluginProcessRegistry → PluginProcessRegistry → Type 0 where
  registers :
      (r : PluginProcessRegistry) (plugin_name action_name : Text) (kind : InvocationKind) (now : ℕ)
      → r.next_id + 1 < u64_mod
      → Step r (register plugin_name action_name kind now r).1
  cancels : (r : PluginProcessRegistry) (id : ℕ) → Step r (cancel id r).1
  cancels_all : (r : PluginProcessRegistry) → Step r (cancel_all r)
  drops : (r : PluginProcessRegistry) (id : ℕ) → Step r (drop_guard id r)

pub data Reach : PluginProcessRegistry → Type 0 where
  start : Reach new
  next : {q r : PluginProcessRegistry} → Reach q → Step q r → Reach r

-- Signals stay as they are when no more runs are live and no fewer ids taken.
Signals-fewer :
    (ks : List ℕ) (q r : PluginProcessRegistry)
    → q.next_id ≤ r.next_id
    → ((k : ℕ) → k < q.next_id → is_live k q ≡ false → is_live k r ≡ false)
    → Signals ks q
    → Signals ks r
Signals-fewer [] q r le f s = tt
Signals-fewer (k ∷ ks) q r le f (a, b, c, d) =
    (omega arith, f k a b, c, Signals-fewer ks q r le f d)

is_killed-append :
    (k : ℕ) (xs ys : List ℕ) → is_killed k (xs ++ ys) ≡ (is_killed k xs || is_killed k ys)
is_killed-append k [] ys = refl
is_killed-append k (x ∷ xs) ys = ground (arith, is_killed-append k xs ys)

Signals-append :
    (ks ms : List ℕ) (r : PluginProcessRegistry)
    → Signals ks r
    → Signals ms r
    → ((k : ℕ) → is_killed k ks ≡ true → is_killed k ms ≡ false)
    → Signals (ks ++ ms) r
Signals-append [] ms r s t apart = t
Signals-append (k ∷ ks) ms r (a, b, c, d) t apart = (
  a,
  b,
  ground (arith, is_killed-append k ks ms, apart k),
  Signals-append ks ms r d t (λ j h. apart j (ground arith)),
)

Signals-dead :
    (ks : List ℕ) (r : PluginProcessRegistry) (k : ℕ)
    → Signals ks r
    → is_killed k ks ≡ true
    → is_live k r ≡ false
Signals-dead [] r k s h = cc
Signals-dead (x ∷ xs) r k (a, b, c, d) h = elim (Bool-cases (x == k)) [
  | inl same ↦ let e : x ≡ k = ground arith in subst (λ y. is_live y r ≡ false) e b
  | inr other ↦ Signals-dead xs r k d (ground arith)
]

killed-map :
    (k : ℕ) (es : List RunningInvocation)
    → is_killed k (map (λ (e : RunningInvocation). e.id) es)
      ≡ any (λ (e : RunningInvocation). e.id == k) es
unfolding any
killed-map k [] = refl
killed-map k (e ∷ es) = ground (arith, killed-map k es)

killed-above :
    (k n m : ℕ) (es : List RunningInvocation)
    → Increasing n m es
    → k < n
    → is_killed k (map (λ (e : RunningInvocation). e.id) es) ≡ false
killed-above k n m [] h lt = refl
killed-above k n m (e ∷ es) (a, b, c) lt = ground (arith, killed-above k (suc e.id) m es c)

map-Signals :
    (n m : ℕ) (es : List RunningInvocation) (r : PluginProcessRegistry)
    → Increasing n m es
    → m ≤ r.next_id
    → ((k : ℕ) → is_live k r ≡ false)
    → Signals (map (λ (e : RunningInvocation). e.id) es) r
map-Signals n m [] r h le dead = tt
map-Signals n m (e ∷ es) r (a, b, c) le dead = (
  omega arith,
  dead e.id,
  killed-above e.id (suc e.id) m es c (omega arith),
  map-Signals (suc e.id) m es r c le dead,
)

live-without-false :
    (k id : ℕ) (es : List RunningInvocation)
    → any (λ (e : RunningInvocation). e.id == k) es ≡ false
    → any (λ (e : RunningInvocation). e.id == k) (without id es) ≡ false
live-without-false k id es h = ground (arith, live-without k id es)

register-RegistryInv :
    (r : PluginProcessRegistry) (plugin_name action_name : Text) (kind : InvocationKind) (now : ℕ)
    → r.next_id + 1 < u64_mod
    → RegistryInv r
    → RegistryInv (register plugin_name action_name kind now r).1
unfolding register is_live any
register-RegistryInv r plugin_name action_name kind now fits v =
    let same : without r.next_id r.entries ≡ r.entries =
      without-absent 0 r.next_id r.entries v.ordered in
    let counted : succ64 r.next_id ≡ r.next_id + 1 = succ64-eq r.next_id fits in
    record {
      ordered = rw (same, counted) (append-Increasing 0 r.next_id r.entries _ v.ordered refl);
      signals =
          Signals-fewer r.killed r (register plugin_name action_name kind now r).1
            (omega (arith, counted))
            (λ k lt dead.
              rw (same, any-append (λ (e : RunningInvocation). e.id == k) r.entries) (ground arith))
            v.signals;
    }

drop-RegistryInv :
    (r : PluginProcessRegistry) (id : ℕ) → RegistryInv r → RegistryInv (drop_guard id r)
unfolding drop_guard is_live
drop-RegistryInv r id v = record {
  ordered = without-Increasing id 0 r.next_id r.entries v.ordered;
  signals =
      Signals-fewer r.killed r (drop_guard id r) (omega arith)
        (λ k lt dead. live-without-false k id r.entries dead) v.signals;
}

cancel_all-RegistryInv : (r : PluginProcessRegistry) → RegistryInv r → RegistryInv (cancel_all r)
unfolding cancel_all is_live any
cancel_all-RegistryInv r v = record {
  ordered = omega arith;
  signals =
      Signals-append r.killed (map (λ (e : RunningInvocation). e.id) r.entries) (cancel_all r)
        (Signals-fewer r.killed r (cancel_all r) (omega arith) (λ k lt dead. refl) v.signals)
        (map-Signals 0 r.next_id r.entries (cancel_all r) v.ordered (omega arith) (λ k. refl))
        (λ k h. killed-map k r.entries ∙ Signals-dead r.killed r k v.signals h);
}

-- The registry after a run was cancelled.
unfoldable pub cancelled : ℕ → PluginProcessRegistry → PluginProcessRegistry
cancelled id r = record r { entries = without id r.entries; killed = r.killed ++ id ∷ [] }

cancelled-RegistryInv :
    (r : PluginProcessRegistry) (id : ℕ)
    → is_live id r ≡ true
    → RegistryInv r
    → RegistryInv (cancelled id r)
unfolding cancelled is_live
cancelled-RegistryInv r id live v = record {
  ordered = without-Increasing id 0 r.next_id r.entries v.ordered;
  signals =
      Signals-append r.killed (id ∷ []) (cancelled id r)
        (Signals-fewer r.killed r (cancelled id r) (omega arith)
          (λ k lt dead. live-without-false k id r.entries dead) v.signals)
        (
          live-below id 0 r.next_id r.entries v.ordered live,
          ground (arith, live-without id id r.entries),
          refl,
          tt,
        )
        (λ k h. ground (arith, live, Signals-dead r.killed r k v.signals h));
}

cancel-RegistryInv :
    (r : PluginProcessRegistry) (id : ℕ) → RegistryInv r → RegistryInv (cancel id r).1
unfolding cancel cancelled
cancel-RegistryInv r id v = elim (Bool-cases (is_live id r)) [
  | inl live ↦ rw live (cancelled-RegistryInv r id live v)
  | inr dead ↦ rw dead v
]

-- However runs are registered, cancelled and dropped before the ids wrap around, the listed ids grow strictly and lie below the
-- next id, and each kill signal went to a run that had been registered, at most once, and that is
-- live no more.
pub Reach-RegistryInv : {r : PluginProcessRegistry} → Reach r → RegistryInv r
unfolding new
Reach-RegistryInv start = record { ordered = omega arith; signals = tt }
Reach-RegistryInv (next reach (registers r plugin_name action_name kind now fits)) =
    register-RegistryInv r plugin_name action_name kind now fits (Reach-RegistryInv reach)
Reach-RegistryInv (next reach (cancels r id)) = cancel-RegistryInv r id (Reach-RegistryInv reach)
Reach-RegistryInv (next reach (cancels_all r)) = cancel_all-RegistryInv r (Reach-RegistryInv reach)
Reach-RegistryInv (next reach (drops r id)) = drop-RegistryInv r id (Reach-RegistryInv reach)
