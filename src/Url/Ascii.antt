-- ===== src/Url/Ascii.antt =====
-- net/url: values of ASCII, of which the escapes are faithful.
use baseline.Prelude.{
  ℕ, zero, suc, ◌≡◌, true, [], ◌∷◌, ◌++◌, Text, All, all, ltb, itoa, decimal, arith, Bool-cases,
  inl, inr, ◌==◌, text_eq,
}
use baseline.Url.Escapes.{IsAscii}
use baseline.Url.Queries.{IsAsciiPair}
use baseline.Url.{Values, set}
use Prim.Native.Nat.{◌/◌}

-- A literal passes the test by computation.
pub all-IsAscii : (s : Text) → all (λ c. ltb c 128) s ≡ true → IsAscii s
unfolding all
all-IsAscii [] h = tt
all-IsAscii (c ∷ s) h = (ground arith, all-IsAscii s (ground arith))

IsAscii-append : (s t : Text) → IsAscii s → IsAscii t → IsAscii (s ++ t)
IsAscii-append [] t h k = k
IsAscii-append (c ∷ s) t (h, hs) k = (h, IsAscii-append s t hs k)

decimal-IsAscii : (fuel n : ℕ) → IsAscii (decimal fuel n)
unfolding decimal
decimal-IsAscii zero n = tt
decimal-IsAscii (suc fuel) n = elim (Bool-cases (ltb n 10)) [
  | inl small ↦ rw small (ground arith, tt)
  | inr large ↦
      rw large
        (IsAscii-append (decimal fuel (n / 10)) _ (decimal-IsAscii fuel (n / 10)) (omega arith, tt))
]

pub itoa-IsAscii : (n : ℕ) → IsAscii (itoa n)
unfolding itoa
itoa-IsAscii n = decimal-IsAscii (suc n) n

pub set-IsAscii :
    (k v : Text) (q : Values)
    → IsAscii k
    → IsAscii v
    → All IsAsciiPair q
    → All IsAsciiPair (set k v q)
unfolding set
set-IsAscii k v [] h e hs = ((h, e), tt)
set-IsAscii k v ((l, w) ∷ q) h e (first, hs) = elim (Bool-cases (l == k)) [
  | inl same ↦ rw same ((h, e), hs)
  | inr other ↦ rw other (first, set-IsAscii k v q h e hs)
]
