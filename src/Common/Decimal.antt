-- ===== src/Common/Decimal.antt =====
-- `str` of a number that is not negative.
use Prim.Native.Nat.{ℕ, zero, suc, ◌+◌, ◌/◌, ◌%◌, ◌≤◌}
use mathlib.Core.Logic.{inl, inr}
use mathlib.Core.List.{[], ◌∷◌}
use native.Mathlib.Omega.{arith}
use cryptoswap_wallet.Common.Bools.{◌==◌, if◌then◌else◌, Bool-cases}
use cryptoswap_wallet.Common.Lists.{All}
use cryptoswap_wallet.Common.Text.{Str}

unfoldable pub decimal_digits : ℕ → ℕ → Str → Str
decimal_digits zero n rest = rest
decimal_digits (suc fuel) n rest =
    let more = decimal_digits fuel (n / 10) ((b'0' + n % 10) ∷ rest) in
    if n / 10 == 0 then (b'0' + n % 10) ∷ rest else more

-- `str(n)`
unfoldable pub decimal : ℕ → Str
unfolding decimal_digits
decimal n = decimal_digits (suc n) n []

abbrev pub IsDigit : ℕ → Type 0
IsDigit c = (48 ≤ c) × (c ≤ 57)

decimal_digits-IsDigit :
    (fuel n : ℕ) (rest : Str) → All IsDigit rest → All IsDigit (decimal_digits fuel n rest)
unfolding decimal_digits
decimal_digits-IsDigit zero n rest h = h
decimal_digits-IsDigit (suc fuel) n rest h =
    let here : IsDigit (48 + n % 10) = (omega arith, omega arith) in
    elim (Bool-cases (n / 10 == 0)) [
      | inl e ↦ rw e (here, h)
      | inr e ↦ rw e (decimal_digits-IsDigit fuel (n / 10) ((48 + n % 10) ∷ rest) (here, h))
    ]

pub decimal-IsDigit : (n : ℕ) → All IsDigit (decimal n)
unfolding decimal
decimal-IsDigit n = decimal_digits-IsDigit (suc n) n [] tt
