-- ===== src/Prelude/Decimal.antt =====
-- `strconv.Itoa`, and `fmt.Sprint` of a number.
use Prim.Native.Nat.{ℕ, zero, suc, ◌+◌, ◌/◌, ◌%◌}
use mathlib.Core.List.{[], ◌∷◌, ◌++◌}
use baseline.Prelude.Equality.{Text, ltb, if◌then◌else◌}

-- The digits of a number below 10 to the power of the fuel.
unfoldable pub decimal : ℕ → ℕ → Text
decimal zero n = []
decimal (suc fuel) n =
    let high = decimal fuel (n / 10) in
    if ltb n 10 then (b'0' + n) ∷ [] else high ++ (b'0' + n % 10) ∷ []

-- A number is below 10 to the power of its successor.
unfoldable pub itoa : ℕ → Text
unfolding decimal
itoa n = decimal (suc n) n
