-- ===== src/Examples/Engines.antt =====
-- The engine of internal/autopromote/simple/simple.go at a concrete document.
use baseline.AutoPromote.Simple.Matching.{evaluate, decoded_rules}
use baseline.AutoPromote.Simple.Rules.{evaluate_iff_rule, validate-allows, SomeRule, AllowedRule}
use baseline.AutoPromote.Simple.{Rule, validate}
use baseline.AutoPromote.{Candidate}
use baseline.Json.{Json, object, array, string, member, end, cons, nil}
use baseline.Prelude.{
  Text-discrete, ◌≡◌, refl, ◌≢◌, ◌↔◌, true, none, some, List, [], ◌∷◌, All, text,
}

-- {"rules": [{"all": [{"field": "tags", "op": "eq", "value": "trusted"}]}]}
abbrev trusted : Json
trusted = object (
    member (text "rules")
      (array (
        cons
          (object (
            member (text "all")
              (array (
                cons
                  (object (
                    member (text "field") (string (text "tags")) (
                      member (text "op") (string (text "eq"))
                        (member (text "value") (string (text "trusted")) end))))
                  nil))
              end))
          nil))
      end)

abbrev tagged : Candidate
tagged = record {
  provenance_origin_type = [];
  provenance_source_kind = [];
  actor_type = [];
  tags = text "trusted" ∷ [];
  metadata = [];
}

evaluate_iff_rule_example : ((evaluate tagged (some trusted)).0.auto_promote ≡ true) ↔ (
    (validate (some trusted) ≡ none)
    × ((rs : List Rule) × (decoded_rules (some trusted) ≡ some rs) × SomeRule rs tagged))
evaluate_iff_rule_example = evaluate_iff_rule tagged (some trusted)

trusted_promotes : (evaluate tagged (some trusted)).0.auto_promote ≡ true
unfolding evaluate Text-discrete
trusted_promotes = refl

trusted_is_valid : validate (some trusted) ≡ none
unfolding validate Text-discrete
trusted_is_valid = refl

validate-allows_example :
    (rs : List Rule) × (decoded_rules (some trusted) ≡ some rs) × (rs ≢ []) × All AllowedRule rs
validate-allows_example = validate-allows (some trusted) trusted_is_valid
