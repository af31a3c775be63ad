-- ===== src/AutoPromote/Simple.antt =====
-- internal/autopromote/simple/simple.go: the engine simple/v1. A rules document is decoded as
-- encoding/json does it: names in any (ASCII) letter case, null as the zero value; each name of an
-- object occurs once. The texts of the errors are shortened.
pub mod Matching
pub mod Rules
use baseline.AutoPromote.{Candidate, Decision, Engine, EngineError, engine_error, declined}
use baseline.Facts.Key.{to_lower}
use baseline.Json.{
  Json, Items, Members, null, boolean, number, string, array, object, nil, cons, end, member,
}
use baseline.Prelude.{
  Bool, true, false, ◌&&◌, ◌||◌, not, ◌≡◌, Option, none, some, List, [], ◌∷◌, ◌++◌, any, all,
  contains, sort, text_leb, if◌then◌else◌, ◌==◌, nat_eq, Text, text_eq, text,
}

pub record Condition : Type 0 where
  pub field : Text
  pub op : Text
  pub value : Option Json  -- `none`: the member is missing

abbrev pub Rule : Type 0
Rule = List Condition

abbrev pub bind {ℓ} : {A B : Type ℓ} → Option A → (A → Option B) → Option B
bind none f = none
bind (some a) f = f a

-- A JSON value decoded into a string: null leaves "".
unfoldable pub decode_text : Json → Option Text
decode_text (string s) = some s
decode_text null = some []
decode_text _ = none

abbrev pub blank_condition : Condition
blank_condition = record { field = []; op = []; value = none }

abbrev pub with_field : Condition → Text → Condition
with_field c t = record c { field = t }

abbrev pub with_op : Condition → Text → Condition
with_op c t = record c { op = t }

abbrev pub map_option {ℓ} : {A B : Type ℓ} → (A → B) → Option A → Option B
map_option f none = none
map_option f (some a) = some (f a)

-- DisallowUnknownFields: another name is an error.
unfoldable pub decode_member : Text → Json → Condition → Option Condition
unfolding to_lower decode_text
decode_member name v c =
    if to_lower name == text "field"
    then map_option (with_field c) (decode_text v)
    else if to_lower name == text "op"
    then map_option (with_op c) (decode_text v)
    else if to_lower name == text "value"
    then some (record c { value = some v })
    else none

unfoldable pub decode_members : Members → Option Condition
unfolding decode_member
decode_members end = some blank_condition
decode_members (member name v rest) =
    let decoded = decode_members rest in bind decoded (decode_member name v)

unfoldable pub decode_condition : Json → Option Condition
unfolding decode_members
decode_condition (object ms) = decode_members ms
decode_condition null = some blank_condition
decode_condition _ = none

unfoldable pub decode_conditions : Items → Option (List Condition)
unfolding decode_condition
decode_conditions nil = some []
decode_conditions (cons j rest) =
    let decoded = decode_conditions rest in
    bind (decode_condition j) (λ c. map_option (λ cs. c ∷ cs) decoded)

unfoldable pub decode_all : Json → Option (List Condition)
unfolding decode_conditions
decode_all (array js) = decode_conditions js
decode_all null = some []
decode_all _ = none

-- An object with the one member `all`; without it the list is nil.
unfoldable pub decode_rule : Json → Option Rule
unfolding to_lower decode_all
decode_rule null = some []
decode_rule (object end) = some []
decode_rule (object (member name v end)) =
    if to_lower name == text "all" then decode_all v else none
decode_rule _ = none

unfoldable pub decode_rules : Items → Option (List Rule)
unfolding decode_rule
decode_rules nil = some []
decode_rules (cons j rest) =
    let decoded = decode_rules rest in bind (decode_rule j) (λ r. map_option (λ rs. r ∷ rs) decoded)

unfoldable pub decode_rule_list : Json → Option (List Rule)
unfolding decode_rules
decode_rule_list (array js) = decode_rules js
decode_rule_list null = some []
decode_rule_list _ = none

unfoldable pub decode : Json → Option (List Rule)
unfolding to_lower decode_rule_list
decode null = some []
decode (object end) = some []
decode (object (member name v end)) =
    if to_lower name == text "rules" then decode_rule_list v else none
decode _ = none

unfoldable pub whitelisted : Text → Bool
whitelisted field =
    field == text "provenance.origin_type"
    || field == text "provenance.source.kind"
    || field == text "actor.type"
    || field == text "tags"

-- What follows `prefix`, if something does.
unfoldable pub after_prefix : Text → Text → Option Text
after_prefix [] [] = none
after_prefix [] (c ∷ s) = some (c ∷ s)
after_prefix (p ∷ prefix) [] = none
after_prefix (p ∷ prefix) (c ∷ s) =
    let rest = after_prefix prefix s in if p == c then rest else none

unfoldable pub metadata_key : Text → Option Text
unfolding after_prefix
metadata_key field = after_prefix (text "metadata.") field

abbrev pub present {ℓ} : {A : Type ℓ} → Option A → Bool
present none = false
present (some a) = true

unfoldable pub field_allowed : Text → Bool
unfolding whitelisted metadata_key
field_allowed field = if whitelisted field then true else present (metadata_key field)

unfoldable pub check_condition : Condition → Option EngineError
unfolding field_allowed
check_condition c =
    if not (field_allowed c.field)
    then some (engine_error (text "field not whitelisted"))
    else if not (c.op == text "eq" || c.op == text "in")
    then some (engine_error (text "unknown op"))
    else if present c.value
    then none
    else some (engine_error (text "missing value"))

abbrev pub or_else {ℓ} : {A : Type ℓ} → Option A → Option A → Option A
or_else none rest = rest
or_else (some e) rest = some e

unfoldable pub check_conditions : List Condition → Option EngineError
unfolding check_condition
check_conditions [] = none
check_conditions (c ∷ cs) = or_else (check_condition c) (check_conditions cs)

unfoldable pub check_rule : Rule → Option EngineError
unfolding check_conditions
check_rule [] = some (engine_error (text "rule has no conditions"))
check_rule (c ∷ cs) = check_conditions (c ∷ cs)

unfoldable pub check_rules : List Rule → Option EngineError
unfolding check_rule
check_rules [] = none
check_rules (r ∷ rs) = or_else (check_rule r) (check_rules rs)

abbrev pub check_list : Option (List Rule) → Option EngineError
check_list none = some (engine_error (text "malformed rules"))
check_list (some []) = some (engine_error (text "rules list is empty"))
check_list (some (r ∷ rs)) = check_rules (r ∷ rs)

unfoldable pub validate : Option Json → Option EngineError
unfolding decode check_rules
validate none = some (engine_error (text "empty rules"))
validate (some rules) = check_list (decode rules)
