-- ===== src/Server/Respond/Numbers.antt =====
-- The numbers of a query: `Atoi` reads what `Itoa` writes.
use baseline.Prelude.{
  ℕ, zero, suc, ◌+◌, ◌-◌, ◌*◌, ◌≤◌, ◌<◌, ◌≡◌, refl, ◌∙◌, ap, true, false, [], ◌∷◌, ◌++◌, Text,
  arith, ltb, itoa, decimal, Bool-cases, inl, inr, pos, ◌==◌, nat_eq, subst,
}
use baseline.Server.Respond.{scan_uint, atoi, value, max_int, max_uint}
use Prim.Native.Nat.{◌/◌, ◌%◌}

scan_uint-last :
    (m k c : ℕ) (s : Text)
    → scan_uint m s ≡ value k
    → c < 10
    → k * 10 + c ≤ max_uint
    → scan_uint m (s ++ (b'0' + c) ∷ []) ≡ value (k * 10 + c)
unfolding scan_uint
scan_uint-last m k c [] e h l = ground arith
scan_uint-last m k c (d ∷ s) e h l = ground (arith, scan_uint-last (m * 10 + (d - b'0')) k c s)

at_least : (n : ℕ) → ltb n 10 ≡ false → 10 ≤ n
at_least n h = ground arith

scan_uint-decimal : (fuel n : ℕ) → n < fuel → n ≤ max_int → scan_uint 0 (decimal fuel n) ≡ value n
unfolding decimal scan_uint
scan_uint-decimal zero n h l = ground arith
scan_uint-decimal (suc fuel) n h l = elim (Bool-cases (ltb n 10)) [
  | inl small ↦ rw small (ground arith)
  | inr large ↦ rw large (
      scan_uint-last 0 (n / 10) (n % 10) (decimal fuel (n / 10))
        (scan_uint-decimal fuel (n / 10) (omega (arith, at_least n large)) (omega arith))
        (omega arith) (omega arith)
      ∙ ap value (omega arith))
]

-- The first digit.
decimal-head :
    (fuel n : ℕ)
    → (c : ℕ) × (s : Text) × (decimal (suc fuel) n ≡ c ∷ s)
      × ((c == b'-') ≡ false)
      × ((c == b'+') ≡ false)
unfolding decimal
decimal-head zero n = elim (Bool-cases (ltb n 10)) [
  | inl small ↦ (b'0' + n, [], rw small refl, ground arith, ground arith)
  | inr large ↦ (b'0' + n % 10, [], rw large refl, ground arith, ground arith)
]
decimal-head (suc fuel) n = elim (Bool-cases (ltb n 10)) [
  | inl small ↦ (b'0' + n, [], rw small refl, ground arith, ground arith)
  | inr large ↦
      let (c, s, e, minus, plus) = decimal-head fuel (n / 10) in
      (c, s ++ (b'0' + n % 10) ∷ [], rw large (ap (λ x. x ++ (b'0' + n % 10) ∷ []) e), minus, plus)
]

atoi-digits :
    (c n : ℕ) (s : Text)
    → (c == b'-') ≡ false
    → (c == b'+') ≡ false
    → n ≤ max_int
    → scan_uint 0 (c ∷ s) ≡ value n
    → atoi (c ∷ s) ≡ (pos n, true)
unfolding atoi
atoi-digits c n s minus plus h k = rw (minus, plus, k) (ground arith)

-- A number up to the largest `int` is read back from its decimal text, with no error.
pub atoi-itoa : (n : ℕ) → n ≤ max_int → atoi (itoa n) ≡ (pos n, true)
unfolding itoa
atoi-itoa n h =
    let (c, s, e, minus, plus) = decimal-head n n in
    rw e (
      atoi-digits c n s minus plus h
        (subst (λ x. scan_uint 0 x ≡ value n) e (scan_uint-decimal (suc n) n (omega arith) h)))
