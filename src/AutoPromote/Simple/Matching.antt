-- ===== src/AutoPromote/Simple/Matching.antt =====
-- internal/autopromote/simple/simple.go: matching a candidate against the rules, and the engine.
use baseline.AutoPromote.Simple.{
  Condition, Rule, decode, decode_text, bind, map_option, metadata_key, validate,
}
use baseline.AutoPromote.{Candidate, Decision, Engine, EngineError, engine_error, declined}
use baseline.Json.{
  Json, Items, Members, null, boolean, number, string, array, object, nil, cons, end, member,
}
use baseline.Prelude.{
  Bool, true, false, Option, none, some, List, [], ◌∷◌, ◌++◌, map, any, contains, sort, text_leb,
  if◌then◌else◌, ◌==◌, nat_eq, Text, text_eq, text,
}

-- Words with a space between.
unfoldable pub spaced : List Text → Text
spaced [] = []
spaced (w ∷ []) = w
spaced (w ∷ v ∷ ws) = w ++ (text " " ++ spaced (v ∷ ws))

abbrev pub pair_leb : Text × Text → Text × Text → Bool
pair_leb a b = text_leb a.0 b.0

abbrev pub pair_text : Text × Text → Text
pair_text (k, v) = k ++ (text ":" ++ v)

-- `fmt.Sprintf("%v", v)` of a decoded value: a map is printed in the order of its keys.
unfoldable mutual
  unfolding sort text_leb spaced

  pub printed : Json → Text
  printed null = text "<nil>"
  printed (boolean b) = if b then text "true" else text "false"
  printed (number t) = t
  printed (string s) = s
  printed (array js) = text "[" ++ (spaced (printed_items js) ++ text "]")
  printed (object ms) =
      text "map[" ++ (spaced (map pair_text (sort pair_leb (printed_members ms))) ++ text "]")

  pub printed_items : Items → List Text
  printed_items nil = []
  printed_items (cons j js) = printed j ∷ printed_items js

  pub printed_members : Members → List (Text × Text)
  printed_members end = []
  printed_members (member k v ms) = (k, printed v) ∷ printed_members ms

unfoldable pub lookup : Text → List (Text × Json) → Option Json
lookup key [] = none
lookup key ((k, v) ∷ rest) = let later = lookup key rest in if k == key then some v else later

abbrev pub is_printed : Text → Option Json → Bool
is_printed want none = false
is_printed want (some v) = printed v == want

abbrev pub metadata_has : List (Text × Json) → Text → Option Text → Bool
metadata_has metadata want none = false
metadata_has metadata want (some key) = is_printed want (lookup key metadata)

unfoldable pub field_has_scalar : Text → Text → Candidate → Bool
unfolding contains lookup metadata_key printed
field_has_scalar field want c =
    if field == text "provenance.origin_type"
    then c.provenance_origin_type == want
    else if field == text "provenance.source.kind"
    then c.provenance_source_kind == want
    else if field == text "actor.type"
    then c.actor_type == want
    else if field == text "tags"
    then contains want c.tags
    else metadata_has c.metadata want (metadata_key field)

-- A JSON array decoded into strings.
unfoldable pub decode_texts : Items → Option (List Text)
unfolding decode_text
decode_texts nil = some []
decode_texts (cons j rest) =
    let decoded = decode_texts rest in bind (decode_text j) (λ t. map_option (λ ts. t ∷ ts) decoded)

unfoldable pub decode_text_list : Json → Option (List Text)
unfolding decode_texts
decode_text_list (array js) = decode_texts js
decode_text_list null = some []
decode_text_list _ = none

abbrev pub matches_text : Text → Candidate → Option Text → Bool
matches_text field c none = false
matches_text field c (some want) = field_has_scalar field want c

abbrev pub matches_some : Text → Candidate → Option (List Text) → Bool
matches_some field c none = false
matches_some field c (some wants) = any (λ want. field_has_scalar field want c) wants

unfoldable pub condition_matches : Condition → Candidate → Bool
unfolding decode_text decode_text_list field_has_scalar any
condition_matches k c =
    if k.op == text "eq"
    then matches_text k.field c (bind k.value decode_text)
    else if k.op == text "in"
    then matches_some k.field c (bind k.value decode_text_list)
    else false

unfoldable pub rule_matches : Rule → Candidate → Bool
unfolding condition_matches
rule_matches [] c = true
rule_matches (k ∷ ks) c =
    let rest = rule_matches ks c in if condition_matches k c then rest else false

-- `json.Marshal(r)`.
abbrev pub or_null : Option Json → Json
or_null none = null
or_null (some j) = j

abbrev pub condition_json : Condition → Json
condition_json k = object (
    member (text "field") (string k.field)
      (member (text "op") (string k.op) (member (text "value") (or_null k.value) end)))

unfoldable pub conditions_json : List Condition → Items
conditions_json [] = nil
conditions_json (k ∷ ks) = cons (condition_json k) (conditions_json ks)

unfoldable pub rule_json : Rule → Json
unfolding conditions_json
rule_json r = object (member (text "all") (array (conditions_json r)) end)

abbrev pub promoted : Rule → Decision
promoted r = record {
  auto_promote = true;
  reason = text "matched simple/v1 rule";
  matched_rule = some (rule_json r);
}

-- The first rule that matches.
unfoldable pub decision : List Rule → Candidate → Decision
unfolding rule_matches rule_json
decision [] c = record declined { reason = text "no rule matched" }
decision (r ∷ rs) c = let later = decision rs c in if rule_matches r c then promoted r else later

abbrev pub decided : Option (List Rule) → Candidate → Decision × Option EngineError
decided none c = (declined, some (engine_error (text "malformed rules")))
decided (some rs) c = (decision rs c, none)

abbrev pub decoded_rules : Option Json → Option (List Rule)
decoded_rules none = none
decoded_rules (some j) = decode j

abbrev pub unless_invalid :
    Option EngineError → Decision × Option EngineError → Decision × Option EngineError
unless_invalid none d = d
unless_invalid (some e) d = (declined, some e)

-- The second decoding allows other names, which the first one has excluded.
unfoldable pub evaluate : Candidate → Option Json → Decision × Option EngineError
unfolding validate decode decision
evaluate c rules = unless_invalid (validate rules) (decided (decoded_rules rules) c)

unfoldable pub simple : Engine
simple = record { id = text "simple/v1"; validate = validate; evaluate = evaluate }
