-- ===== src/Url.antt =====
-- What internal/mcpbridge uses of net/url: `url.Values`, its `Encode`, `PathEscape`, and the parsing of
-- a query. The texts are of ASCII, whose code points are their bytes.
pub mod Escapes
pub mod Queries
pub mod Lookups
pub mod Ascii
use baseline.Prelude.{
  ℕ, ◌+◌, ◌-◌, ◌*◌, Bool, true, false, ◌&&◌, ◌||◌, Option, none, some, List, [], ◌∷◌, ◌++◌, map,
  leb, ltb, if◌then◌else◌, ◌==◌, nat_eq, sort, text_leb, Text, text_eq, contains, text,
}
use baseline.Server.Respond.{split}
use Prim.Native.Nat.{◌/◌, ◌%◌}
use baseline.Facts.Key.{join}

abbrev pub is_between : ℕ → ℕ → ℕ → Bool
is_between a b c = leb a c && leb c b

unfoldable pub is_unreserved : ℕ → Bool
is_unreserved c =
    is_between b'a' b'z' c
    || is_between b'A' b'Z' c
    || is_between b'0' b'9' c
    || (c == b'-' || c == b'_' || c == b'.' || c == b'~')

-- What `PathEscape` leaves as it is besides.
abbrev pub is_path_mark : ℕ → Bool
is_path_mark c = c == b'$' || c == b'&' || c == b'+' || c == b':' || c == b'=' || c == b'@'

abbrev pub hex_digit : ℕ → ℕ
hex_digit d = if ltb d 10 then b'0' + d else b'A' + (d - 10)

unfoldable pub percent : ℕ → Text → Text
percent c rest = b'%' ∷ hex_digit (c / 16) ∷ hex_digit (c % 16) ∷ rest

unfoldable pub query_escape : Text → Text
unfolding is_unreserved percent
query_escape [] = []
query_escape (c ∷ s) =
    let rest = query_escape s in
    if is_unreserved c then c ∷ rest else if c == b' ' then b'+' ∷ rest else percent c rest

unfoldable pub path_escape : Text → Text
unfolding is_unreserved percent
path_escape [] = []
path_escape (c ∷ s) =
    let rest = path_escape s in
    if is_unreserved c || is_path_mark c then c ∷ rest else percent c rest

unfoldable pub unhex : ℕ → Option ℕ
unhex c =
    if is_between b'0' b'9' c
    then some (c - b'0')
    else if is_between b'a' b'f' c
    then some (c - b'a' + 10)
    else if is_between b'A' b'F' c
    then some (c - b'A' + 10)
    else none

abbrev pub of_hex : Option ℕ → Option ℕ → Option Text → Option Text
of_hex (some d) (some e) (some s) = some ((d * 16 + e) ∷ s)
of_hex _ _ _ = none

abbrev pub then_char : ℕ → Option Text → Option Text
then_char c none = none
then_char c (some s) = some (c ∷ s)

-- `plus` says whether a + is a space, as it is in a query and not in a path.
unfoldable pub unescape : Bool → Text → Option Text
unfolding unhex
unescape plus [] = some []
unescape plus (c ∷ []) =
    if c == b'%' then none else some ((if plus && c == b'+' then b' ' else c) ∷ [])
unescape plus (c ∷ d ∷ []) =
    let rest = unescape plus (d ∷ []) in
    if c == b'%' then none else then_char (if plus && c == b'+' then b' ' else c) rest
unescape plus (c ∷ d ∷ e ∷ s) =
    let rest = unescape plus (d ∷ e ∷ s) in
    let behind = unescape plus s in
    if c == b'%'
    then of_hex (unhex d) (unhex e) behind
    else then_char (if plus && c == b'+' then b' ' else c) rest

-- A key of the queries here has one value.
abbrev pub Values : Type 0
Values = List (Text × Text)

unfoldable pub set : Text → Text → Values → Values
set key value [] = (key, value) ∷ []
set key value ((k, v) ∷ rest) =
    let later = set key value rest in if k == key then (key, value) ∷ rest else (k, v) ∷ later

abbrev pub key_leb : Text × Text → Text × Text → Bool
key_leb (a, _) (b, _) = text_leb a b

abbrev pub pair_text : Text × Text → Text
pair_text (k, v) = query_escape k ++ b'=' ∷ query_escape v

unfoldable pub encode : Values → Text
unfolding query_escape join sort text_leb
encode q = join (text "&") (map pair_text (sort key_leb q))

-- `strings.Cut` at one character: what is before and behind the first, and whether there is one.
unfoldable pub cut : ℕ → Text → Text × Text × Bool
cut sep [] = ([], [], false)
cut sep (c ∷ s) =
    let (before, behind, found) = cut sep s in
    if c == sep then ([], s, true) else (c ∷ before, behind, found)

abbrev pub add_pair : Option Text → Option Text → Values → Values
add_pair (some k) (some v) rest = (k, v) ∷ rest
add_pair _ _ rest = rest

-- Parts that are empty, hold a semicolon or do not unescape are left out.
unfoldable pub add_part : Text → Values → Values
unfolding cut unescape contains
add_part part rest =
    let (k, v, found) = cut b'=' part in
    if part == [] || contains b';' part
    then rest
    else add_pair (unescape true k) (unescape true v) rest

unfoldable pub add_parts : List Text → Values
unfolding add_part
add_parts [] = []
add_parts (p ∷ ps) = add_part p (add_parts ps)

unfoldable pub parse_query : Text → Values
unfolding split add_parts
parse_query s = add_parts (split b'&' s)
