-- ===== src/Plugin/Registry/Order.antt =====
-- Lists of invocations in the order of their ids.
use localref.Base.{
  ℕ, suc, ◌+◌, ◌<◌, ◌≤◌, ◌≡◌, refl, List, [], ◌∷◌, ◌++◌, true, not, ◌&&◌, ◌==◌, any, retain, arith,
}
use localref.Plugin.Registry.{RunningInvocation, without}

-- The ids grow strictly along the list, from at least `n` up to below `m`.
abbrev pub Increasing : ℕ → ℕ → List RunningInvocation → Type 0
Increasing n m [] = n ≤ m
Increasing n m (e ∷ es) = (n ≤ e.id) × (e.id < m) × Increasing (suc e.id) m es

pub Increasing-le : (n m : ℕ) (es : List RunningInvocation) → Increasing n m es → n ≤ m
Increasing-le n m [] h = h
Increasing-le n m (e ∷ es) h = omega arith

pub Increasing-weaken :
    (k n m : ℕ) (es : List RunningInvocation) → k ≤ n → Increasing n m es → Increasing k m es
Increasing-weaken k n m [] le h = omega arith
Increasing-weaken k n m (e ∷ es) le h = (omega arith, h.1, h.2)

pub without-Increasing :
    (id n m : ℕ) (es : List RunningInvocation) → Increasing n m es → Increasing n m (without id es)
unfolding without retain
without-Increasing id n m [] h = h
without-Increasing id n m (e ∷ es) (a, b, c) = ground (
  arith,
  without-Increasing id (suc e.id) m es c,
  Increasing-weaken n (suc e.id) m (without id es),
)

pub without-absent : (n m : ℕ) (es : List RunningInvocation) → Increasing n m es → without m es ≡ es
unfolding without retain
without-absent n m [] h = refl
without-absent n m (e ∷ es) (a, b, c) = ground (arith, without-absent (suc e.id) m es c)

pub append-Increasing :
    (n m : ℕ) (es : List RunningInvocation) (e : RunningInvocation)
    → Increasing n m es
    → e.id ≡ m
    → Increasing n (m + 1) (es ++ e ∷ [])
append-Increasing n m [] e h own = (omega arith, omega arith, omega arith)
append-Increasing n m (x ∷ xs) e (a, b, c) own =
    (a, omega arith, append-Increasing (suc x.id) m xs e c own)

pub live-without :
    (k id : ℕ) (es : List RunningInvocation)
    → any (λ (e : RunningInvocation). e.id == k) (without id es)
      ≡ (any (λ (e : RunningInvocation). e.id == k) es && not (id == k))
unfolding without retain any
live-without k id [] = ground arith
live-without k id (e ∷ es) = ground (arith, live-without k id es)

pub live-below :
    (k n m : ℕ) (es : List RunningInvocation)
    → Increasing n m es
    → any (λ (e : RunningInvocation). e.id == k) es ≡ true
    → k < m
unfolding any
live-below k n m [] h l = cc
live-below k n m (e ∷ es) (a, b, c) l = ground (arith, live-below k (suc e.id) m es c)
