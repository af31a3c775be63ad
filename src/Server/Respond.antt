-- ===== src/Server/Respond.antt =====
-- internal/server/respond.go and the reading of query values and headers: `strings.Split`,
-- `url.Values.Get` and `strconv.Atoi`.
pub mod Splits
pub mod Numbers
pub mod Tags
use baseline.Facts.Key.{trim_space}
use baseline.Prelude.{
  ℕ, ◌+◌, ◌-◌, ◌*◌, Bool, true, false, ◌&&◌, not, List, [], ◌∷◌, map, filter, leb, ltb,
  if◌then◌else◌, ◌==◌, nat_eq, Text, text_eq, ℤ, pos, negsuc,
}

-- The first value of the key, or the empty text.
unfoldable pub get_value : Text → List (Text × Text) → Text
get_value key [] = []
get_value key ((k, v) ∷ rest) = if k == key then v else get_value key rest

abbrev pub on_first : ℕ → List Text → List Text
on_first c [] = (c ∷ []) ∷ []
on_first c (p ∷ ps) = (c ∷ p) ∷ ps

-- The parts between the separators, of which there is always one more.
unfoldable pub split : ℕ → Text → List Text
split sep [] = [] ∷ []
split sep (c ∷ s) = let rest = split sep s in if c == sep then [] ∷ rest else on_first c rest

unfoldable pub parse_csv : Text → List Text
unfolding split trim_space filter
parse_csv s =
    if trim_space s == [] then [] else filter (λ p. not (p == [])) (map trim_space (split b',' s))

pub data Scanned : Type 0 where
  syntax_error range_error : Scanned
  value : ℕ → Scanned

abbrev pub max_uint : ℕ
max_uint = 18_446_744_073_709_551_615

abbrev pub is_digit : ℕ → Bool
is_digit c = leb b'0' c && leb c b'9'

-- The digits of `strconv.ParseUint`; what overflows is not read to its end.
unfoldable pub scan_uint : ℕ → Text → Scanned
scan_uint n [] = value n
scan_uint n (c ∷ s) =
    let m = n * 10 + (c - b'0') in
    let rest = scan_uint m s in
    if not (is_digit c) then syntax_error else if ltb max_uint m then range_error else rest

abbrev pub digits : Text → Scanned
digits [] = syntax_error
digits (c ∷ s) = scan_uint 0 (c ∷ s)

abbrev pub max_int : ℕ
max_int = 9_223_372_036_854_775_807

-- -(n), of an absolute value up to 2^63.
abbrev pub negated : ℕ → ℤ
negated n = if n == 0 then pos 0 else negsuc (n - 1)

-- The number that `Atoi` returns, and whether it is without an error.
abbrev pub signed : Bool → Scanned → ℤ × Bool
signed minus syntax_error = (pos 0, false)
signed false range_error = (pos max_int, false)
signed true range_error = (negsuc max_int, false)
signed false (value n) = if ltb max_int n then (pos max_int, false) else (pos n, true)
signed true (value n) = if ltb (max_int + 1) n then (negsuc max_int, false) else (negated n, true)

unfoldable pub atoi : Text → ℤ × Bool
unfolding scan_uint
atoi [] = signed false syntax_error
atoi (c ∷ s) =
    if c == b'-'
    then signed true (digits s)
    else if c == b'+'
    then signed false (digits s)
    else signed false (digits (c ∷ s))
