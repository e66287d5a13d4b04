-- ===== src/Base/Decimals.antt =====
-- How `format!` prints an unsigned integer, and a reader of it.
use Prim.Native.Nat.{ℕ, suc, ◌+◌, ◌*◌, ◌-◌, ◌/◌, ◌%◌, ◌<◌}
use mathlib.Core.Path.{◌≡◌, refl}
use mathlib.Core.List.{[], ◌∷◌, ◌++◌}
use native.Mathlib.Omega.{arith}
use localref.Base.Tests.{ltb, if◌then◌else◌}
use localref.Base.Strings.{Text}

-- The digits of a number, of which there are at most as many as the number says.
unfoldable pub digits : ℕ → ℕ → Text
digits ℕ.zero n = []
digits (suc fuel) n =
    let higher = digits fuel (n / 10) in
    let last = (b'0' + n % 10) ∷ [] in if ltb n 10 then last else higher ++ last

unfoldable pub decimal : ℕ → Text
unfolding digits
decimal n = digits (suc n) n

-- The number that digits name behind others that name `n`.
unfoldable pub read_digits : ℕ → Text → ℕ
read_digits n [] = n
read_digits n (c ∷ s) = read_digits (n * 10 + (c - b'0')) s

read_digits-append : (n : ℕ) (s t : Text) → read_digits n (s ++ t) ≡ read_digits (read_digits n s) t
unfolding read_digits
read_digits-append n [] t = refl
read_digits-append n (c ∷ s) t = read_digits-append (n * 10 + (c - b'0')) s t

pub read_digits-last :
    (n c : ℕ) (s : Text) → read_digits n (s ++ c ∷ []) ≡ read_digits n s * 10 + (c - b'0')
unfolding read_digits
read_digits-last n c s = read_digits-append n s (c ∷ [])

read_digits-digits : (fuel n : ℕ) → n < fuel → read_digits 0 (digits fuel n) ≡ n
unfolding read_digits digits
read_digits-digits ℕ.zero n h = omega arith
read_digits-digits (suc fuel) n h = ground (
  arith,
  read_digits-digits fuel (n / 10),
  read_digits-last 0 (b'0' + n % 10) (digits fuel (n / 10)),
)

pub read_digits-decimal : (n : ℕ) → read_digits 0 (decimal n) ≡ n
unfolding decimal
read_digits-decimal n = read_digits-digits (suc n) n (omega arith)
