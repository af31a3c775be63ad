-- ===== src/McpClient.antt =====
-- cmd/baseline-mcp/main.go: the command line of the client of the MCP endpoint. The parsing of flags by
-- the flag package is left out; what `json.Unmarshal` makes of a text is a parameter.
pub mod Answer
pub mod Arguments
use baseline.Facts.Key.{trim_space}
use baseline.Json.{Json, Members, null, string, object, end, member}
use baseline.Prelude.{
  ℕ, Bool, true, false, ◌⊎◌, inl, inr, ◌&&◌, ◌||◌, not, Option, none, some, List, [], ◌∷◌, ◌++◌,
  if◌then◌else◌, ◌==◌, nat_eq, text_eq, Text, text, contains, leb,
}
use baseline.Url.{cut}

abbrev pub value_flags : List Text
value_flags =
    text "--url"
    ∷ text "--principal"
    ∷ text "--token"
    ∷ text "--json"
    ∷ text "--arg"
    ∷ text "-url"
    ∷ text "-principal"
    ∷ text "-token"
    ∷ text "-json"
    ∷ text "-arg"
    ∷ []

abbrev pub is_flag : Text → Bool
is_flag [] = false
is_flag (c ∷ a) = c == b'-'

abbrev pub takes_value : Text → Bool
takes_value a = contains a value_flags && not (contains b'=' a)

-- The token is the tool: the first that is neither a flag nor the value of one.
abbrev pub is_tool : Bool → Text → Text → Bool
is_tool expect_value tool a = not expect_value && not (is_flag a) && tool == []

-- The next token is a value.
abbrev pub expects : Bool → Text → Bool
expects expect_value a = not expect_value && is_flag a && takes_value a

abbrev pub kept : Bool → Text → Text × List Text → Text × List Text
kept true a (tool, rest) = (tool, a ∷ rest)
kept false a (tool, rest) = (tool, rest)

-- The loop, from whether a value is expected and the tool so far.
unfoldable pub split_from : Bool → Text → List Text → Text × List Text
unfolding contains
split_from expect_value tool [] = (tool, [])
split_from expect_value tool (a ∷ argv) =
    let found = is_tool expect_value tool a in
    kept (not found) a (split_from (expects expect_value a) (if found then a else tool) argv)

unfoldable pub split_tool_and_flags : List Text → Text × List Text
unfolding split_from
split_tool_and_flags argv = split_from false [] argv

abbrev pub literal_marks : List ℕ
literal_marks =
    b'{' ∷ b'[' ∷ b't' ∷ b'f' ∷ b'n' ∷ b'-' ∷ b'0' ∷ b'1' ∷ b'2' ∷ b'3' ∷ b'4' ∷ b'5' ∷ b'6' ∷ b'7'
    ∷ b'8' ∷ b'9' ∷ []

abbrev pub or_string : Text → Option Json → Json
or_string v none = string v
or_string v (some parsed) = parsed

abbrev pub literal_or : (Text → Option Json) → Text → Text → Json
literal_or decode v [] = string v
literal_or decode v (c ∷ t) =
    if contains c literal_marks then or_string v (decode (c ∷ t)) else string v

-- A JSON literal as what it means, every other text as a string.
unfoldable pub smart_value : (Text → Option Json) → Text → Json
unfolding trim_space contains
smart_value decode v = literal_or decode v (trim_space v)

-- `m[k] = v`
unfoldable pub put : Text → Json → Members → Members
put key value end = member key value end
put key value (member k v rest) =
    let later = put key value rest in if k == key then member key value rest else member k v later

pub data ArgError : Type 0 where
  not_an_object : ArgError
  not_key_value : Text → ArgError

abbrev pub as_object : Option Json → Json ⊎ ArgError
as_object (some (object ms)) = inl (object ms)
as_object (some null) = inl null
as_object _ = inr not_an_object

abbrev pub put_pair :
    (Text → Option Json) → Text → Text × Text × Bool → Members → Members ⊎ ArgError
put_pair decode p (k, v, false) m = inr (not_key_value p)
put_pair decode p (k, v, true) m = inl (put k (smart_value decode v) m)

abbrev pub then_pairs : Members ⊎ ArgError → (Members → Members ⊎ ArgError) → Members ⊎ ArgError
then_pairs (inl m) next = next m
then_pairs (inr e) next = inr e

unfoldable pub put_pairs : (Text → Option Json) → List Text → Members → Members ⊎ ArgError
unfolding cut put smart_value
put_pairs decode [] m = inl m
put_pairs decode (p ∷ ps) m = then_pairs (put_pair decode p (cut b'=' p) m) (put_pairs decode ps)

abbrev pub as_arguments : Members ⊎ ArgError → Json ⊎ ArgError
as_arguments (inl m) = inl (object m)
as_arguments (inr e) = inr e

unfoldable pub build_args : (Text → Option Json) → Text → List Text → Json ⊎ ArgError
unfolding put_pairs
build_args decode json_args pairs =
    if not (json_args == [])
    then as_object (decode json_args)
    else as_arguments (put_pairs decode pairs end)
