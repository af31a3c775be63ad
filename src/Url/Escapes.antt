-- ===== src/Url/Escapes.antt =====
-- net/url: a text that is escaped is read back, and holds none of the characters that separate.
use baseline.Prelude.{
  ℕ, ◌<◌, ◌≡◌, refl, ◌∙◌, inl, inr, Bool, true, false, ◌&&◌, ◌||◌, some, [], ◌∷◌, Text, arith,
  nat_eq, ◌==◌, if◌then◌else◌, All, Bool-cases, ap, ℕ_discrete, sym, eq_of_==,
}
use baseline.Url.{
  query_escape, path_escape, unescape, unhex, then_char, hex_digit, percent, is_unreserved,
  is_path_mark,
}
use Prim.Native.Nat.{◌/◌, ◌%◌}

abbrev pub IsAscii : Text → Type 0
IsAscii = All (λ c. c < 128)

unhex-hex_digit : (d : ℕ) → d < 16 → unhex (hex_digit d) ≡ some d
unfolding unhex
unhex-hex_digit d h = ground arith

unescape-percent :
    (plus : Bool) (c : ℕ) (s t : Text)
    → c < 128
    → unescape plus s ≡ some t
    → unescape plus (percent c s) ≡ some (c ∷ t)
unfolding unescape percent ℕ_discrete
unescape-percent plus c s t h e =
    rw (unhex-hex_digit (c / 16) (omega arith), unhex-hex_digit (c % 16) (omega arith), e)
      (ap (λ d. some (d ∷ t)) (omega arith))

unescape-plain :
    (plus : Bool) (c : ℕ) (s : Text)
    → (c == b'%') ≡ false
    → unescape plus (c ∷ s) ≡ then_char (if plus && c == b'+' then b' ' else c) (unescape plus s)
unfolding unescape
unescape-plain plus c [] h = ground arith
unescape-plain plus c (d ∷ []) h = ground arith
unescape-plain plus c (d ∷ e ∷ s) h = ground arith

hex_digit-is_unreserved : (d : ℕ) → d < 16 → is_unreserved (hex_digit d) ≡ true
unfolding is_unreserved
hex_digit-is_unreserved d h = ground arith

unescape-unreserved :
    (plus : Bool) (c : ℕ) (s t : Text)
    → is_unreserved c ≡ true
    → unescape plus s ≡ some t
    → unescape plus (c ∷ s) ≡ some (c ∷ t)
unfolding is_unreserved
unescape-unreserved plus c s t h e =
    unescape-plain plus c s (ground arith) ∙ rw (e) (ap (λ d. some (d ∷ t)) (ground arith))

unescape-plus : (s t : Text) → unescape true s ≡ some t → unescape true (b'+' ∷ s) ≡ some (b' ' ∷ t)
unfolding ℕ_discrete
unescape-plus s t e = unescape-plain true b'+' s refl ∙ ap (then_char b' ') e

pub unescape-query_escape : (s : Text) → IsAscii s → unescape true (query_escape s) ≡ some s
unfolding query_escape unescape
unescape-query_escape [] h = refl
unescape-query_escape (c ∷ s) (h, hs) =
    let rest = unescape-query_escape s hs in
    elim (Bool-cases (is_unreserved c)) [
      | inl plain ↦ rw plain (unescape-unreserved true c _ s plain rest)
      | inr other ↦ elim (Bool-cases (c == b' ')) [
        | inl space ↦
            rw (other, space)
              (unescape-plus _ s rest ∙ ap (λ d. some (d ∷ s)) (sym (eq_of_== c b' ' space)))
        | inr marked ↦ rw (other, marked) (unescape-percent true c _ s h rest)
      ]
    ]

path_plain : (c : ℕ) → (is_unreserved c || is_path_mark c) ≡ true → (c == b'%') ≡ false
unfolding is_unreserved
path_plain c h = ground arith

pub unescape-path_escape : (s : Text) → IsAscii s → unescape false (path_escape s) ≡ some s
unfolding path_escape unescape
unescape-path_escape [] h = refl
unescape-path_escape (c ∷ s) (h, hs) =
    let rest = unescape-path_escape s hs in
    elim (Bool-cases (is_unreserved c || is_path_mark c)) [
      | inl plain ↦ rw plain (unescape-plain false c _ (path_plain c plain) ∙ ap (then_char c) rest)
      | inr other ↦ rw other (unescape-percent false c _ s h rest)
    ]

-- No character of the text passes the test.
abbrev pub Free : (ℕ → Bool) → Text → Type 0
Free p = All (λ c. p c ≡ false)

-- What separates the parts of a query, and of a path.
abbrev pub separates_query : ℕ → Bool
separates_query c = c == b'&' || c == b'=' || c == b';' || c == b'?' || c == b'/'

abbrev pub separates_path : ℕ → Bool
separates_path c = c == b'/' || c == b'?'

module _ (p : ℕ → Bool) (marked : p b'%' ≡ false)
    (free : (c : ℕ) → is_unreserved c ≡ true → p c ≡ false) where
  percent-Free : (c : ℕ) (s : Text) → c < 128 → Free p s → Free p (percent c s)
  unfolding percent
  percent-Free c s h k =
      let high = free _ (hex_digit-is_unreserved (c / 16) (omega arith)) in
      let low = free _ (hex_digit-is_unreserved (c % 16) (omega arith)) in
      (marked, (high, (low, k)))

unreserved-Free : (c : ℕ) → is_unreserved c ≡ true → separates_query c ≡ false
unfolding is_unreserved
unreserved-Free c h = ground arith

path-Free : (c : ℕ) → (is_unreserved c || is_path_mark c) ≡ true → separates_path c ≡ false
unfolding is_unreserved
path-Free c h = ground arith

pub query_escape-Free : (s : Text) → IsAscii s → Free separates_query (query_escape s)
unfolding query_escape
query_escape-Free [] h = tt
query_escape-Free (c ∷ s) (h, hs) =
    let rest = query_escape-Free s hs in
    elim (Bool-cases (is_unreserved c)) [
      | inl plain ↦ rw plain (unreserved-Free c plain, rest)
      | inr other ↦ elim (Bool-cases (c == b' ')) [
        | inl space ↦ rw (other, space) (ground arith, rest)
        | inr marked ↦
            rw (other, marked)
              (percent-Free separates_query (ground arith) unreserved-Free c _ h rest)
      ]
    ]

pub path_escape-Free : (s : Text) → IsAscii s → Free separates_path (path_escape s)
unfolding path_escape
path_escape-Free [] h = tt
path_escape-Free (c ∷ s) (h, hs) =
    let rest = path_escape-Free s hs in
    elim (Bool-cases (is_unreserved c || is_path_mark c)) [
      | inl plain ↦ rw plain (path-Free c plain, rest)
      | inr other ↦ rw other (
          percent-Free separates_path (ground arith) (λ d k. path-Free d (ground arith)) c _ h rest)
    ]
