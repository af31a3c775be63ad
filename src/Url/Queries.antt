-- ===== src/Url/Queries.antt =====
-- net/url: what the server reads of a query is what the bridge set.
use baseline.Facts.Key.{join}
use baseline.Prelude.{
  Bool, ℕ, ◌≡◌, refl, ◌∙◌, ap, true, false, [], ◌∷◌, ◌++◌, map, ◌==◌, nat_eq, Text, text_eq, All,
  arith, sort, contains, any, text, All-sort,
}
use baseline.Server.Respond.Splits.{split-join, Without}
use baseline.Server.Respond.{split}
use baseline.Url.Escapes.{IsAscii, Free, separates_query, unescape-query_escape, query_escape-Free}
use baseline.Url.{
  Values, query_escape, cut, add_part, add_parts, parse_query, encode, pair_text, key_leb,
}

-- A key and a value of ASCII.
abbrev pub IsAsciiPair : Text × Text → Type 0
IsAsciiPair (k, v) = IsAscii k × IsAscii v

pub Free-Without :
    (p : ℕ → Bool) (sep : ℕ) (s : Text)
    → ((c : ℕ) → p c ≡ false → (c == sep) ≡ false)
    → Free p s
    → Without sep s
Free-Without p sep [] h k = tt
Free-Without p sep (c ∷ s) h (k, ks) = (h c k, Free-Without p sep s h ks)

pub Without-append : (sep : ℕ) (s t : Text) → Without sep s → Without sep t → Without sep (s ++ t)
Without-append sep [] t h k = k
Without-append sep (c ∷ s) t (h, hs) k = (h, Without-append sep s t hs k)

pub cut-behind : (sep : ℕ) (s t : Text) → Without sep s → cut sep (s ++ sep ∷ t) ≡ (s, t, true)
unfolding cut
cut-behind sep [] t h = ground arith
cut-behind sep (c ∷ s) t (h, hs) = rw (cut-behind sep s t hs, h) refl

contains-Without : (sep : ℕ) (s : Text) → Without sep s → contains sep s ≡ false
unfolding contains any
contains-Without sep [] h = refl
contains-Without sep (c ∷ s) (h, hs) = rw h (contains-Without sep s hs)

pub Without-contains : (sep : ℕ) (s : Text) → contains sep s ≡ false → Without sep s
unfolding contains any
Without-contains sep [] h = tt
Without-contains sep (c ∷ s) h = (ground arith, Without-contains sep s (ground arith))

pair-Without :
    (sep : ℕ) (p : Text × Text)
    → ((c : ℕ) → separates_query c ≡ false → (c == sep) ≡ false)
    → (b'=' == sep) ≡ false
    → IsAsciiPair p
    → Without sep (pair_text p)
pair-Without sep (k, v) h e (hk, hv) =
    Without-append sep (query_escape k) _
      (Free-Without separates_query sep _ h (query_escape-Free k hk))
      (e, Free-Without separates_query sep _ h (query_escape-Free v hv))

append-nonempty : (s t : Text) (c : ℕ) → ((s ++ c ∷ t) == []) ≡ false
append-nonempty [] t c = ground arith
append-nonempty (d ∷ s) t c = ground arith

add_part-pair : (p : Text × Text) (q : Values) → IsAsciiPair p → add_part (pair_text p) q ≡ p ∷ q
unfolding add_part
add_part-pair (k, v) q (hk, hv) =
    rw
      (
        append-nonempty (query_escape k) (query_escape v) b'=',
        cut-behind b'=' (query_escape k) (query_escape v)
            (Free-Without separates_query b'=' _ (λ c h. ground arith) (query_escape-Free k hk)),
        contains-Without b';' (pair_text (k, v))
            (pair-Without b';' (k, v) (λ c h. ground arith) (ground arith) (hk, hv)),
        unescape-query_escape k hk,
        unescape-query_escape v hv,
      )
      refl

add_parts-pairs : (q : Values) → All IsAsciiPair q → add_parts (map pair_text q) ≡ q
unfolding add_parts
add_parts-pairs [] h = refl
add_parts-pairs (p ∷ q) (h, hs) = add_part-pair p _ h ∙ ap (λ r. p ∷ r) (add_parts-pairs q hs)

pairs-Without : (q : Values) → All IsAsciiPair q → All (Without b'&') (map pair_text q)
pairs-Without [] h = tt
pairs-Without (p ∷ q) (h, hs) =
    (pair-Without b'&' p (λ c k. ground arith) (ground arith) h, pairs-Without q hs)

parts-encoded :
    (q : Values)
    → All IsAsciiPair q
    → add_parts (split b'&' (join (text "&") (map pair_text q))) ≡ q
unfolding add_parts join split add_part
parts-encoded [] h = ground arith
parts-encoded (p ∷ q) (h, hs) =
    let (w, ws) = pairs-Without (p ∷ q) (h, hs) in
    ap add_parts (split-join b'&' (pair_text p) (map pair_text q) w ws)
    ∙ add_parts-pairs (p ∷ q) (h, hs)

-- The values of a query of ASCII are read back as they were set, in the order of their keys: no value
-- can add a key, or end the query.
pub parse_query-encode : (q : Values) → All IsAsciiPair q → parse_query (encode q) ≡ sort key_leb q
unfolding parse_query encode
parse_query-encode q h = parts-encoded (sort key_leb q) (All-sort IsAsciiPair key_leb q h)
