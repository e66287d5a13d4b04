-- ===== src/Base/Words.antt =====
-- Rust's unsigned integers: the arithmetic that wraps and that saturates at the width of a word.
use Prim.Native.Nat.{ℕ, ◌+◌, ◌-◌, ◌%◌, ◌^◌, ◌<◌, ◌≤◌, min}
use mathlib.Core.Path.{◌≡◌}
use native.Mathlib.Nat.{mod-eq_of_lt}
use native.Mathlib.Omega.{arith}

abbrev pub u64_mod : ℕ
u64_mod = 2 ^ 64

-- `+= 1` on a `u64` in a release build
pub succ64 : ℕ → ℕ
succ64 a = (a + 1) % u64_mod

-- `+= 1` on a `u32` in a release build
pub succ32 : ℕ → ℕ
succ32 a = (a + 1) % 2 ^ 32

pub succ32-eq : (a : ℕ) → a + 1 < 2 ^ 32 → succ32 a ≡ a + 1
unfolding succ32
succ32-eq a h = mod-eq_of_lt h

-- `saturating_add` on a `u64`
pub saturating_add64 : ℕ → ℕ → ℕ
saturating_add64 a b = min (a + b) (u64_mod - 1)

pub succ64-eq : (a : ℕ) → a + 1 < u64_mod → succ64 a ≡ a + 1
unfolding succ64
succ64-eq a h = mod-eq_of_lt h

pub saturating_add64-le : (a b : ℕ) → saturating_add64 a b ≤ u64_mod - 1
unfolding saturating_add64
saturating_add64-le a b = omega arith

pub saturating_add64-eq : (a b : ℕ) → a + b < u64_mod → saturating_add64 a b ≡ a + b
unfolding saturating_add64
saturating_add64-eq a b h = omega arith

pub saturating_add64-ge : (a b : ℕ) → a < u64_mod → a ≤ saturating_add64 a b
unfolding saturating_add64
saturating_add64-ge a b h = omega arith
