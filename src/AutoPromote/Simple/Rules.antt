-- ===== src/AutoPromote/Simple/Rules.antt =====
-- internal/autopromote/simple/simple.go: which rules are accepted, and when they promote.
use baseline.Json.{Json}
use baseline.AutoPromote.{Candidate, EngineError}
use baseline.AutoPromote.Simple.{
  Condition, Rule, decode, validate, check_conditions, check_condition, check_rule, check_rules,
  check_list, field_allowed,
}
use baseline.AutoPromote.Simple.Matching.{
  rule_matches, condition_matches, decision, decided, decoded_rules, evaluate, unless_invalid,
}
use baseline.Prelude.{
  inl, inr, sym, subst, ◌≡◌, refl, ◌↔◌, true, List, [], ◌∷◌, arith, In, All, ◌≢◌, ◌⊎◌, Option, none,
  some, text, Bool-cases, Option-cases,
}

abbrev Holds : Candidate → Condition → Type 0
Holds c k = condition_matches k c ≡ true

rule_matches-All : (r : Rule) (c : Candidate) → (rule_matches r c ≡ true) ↔ All (Holds c) r
unfolding rule_matches
rule_matches-All [] c = (λ h. tt, λ h. refl)
rule_matches-All (k ∷ ks) c =
    let (to, from) = rule_matches-All ks c in
    (λ h. (ground arith, to (ground arith)), λ p. ground (arith, p.0, from p.1))

-- Some rule has all of its conditions fulfilled.
abbrev pub SomeRule : List Rule → Candidate → Type 0
SomeRule rs c = (r : Rule) × In r rs × All (Holds c) r

decision-SomeRule :
    (rs : List Rule) (c : Candidate) → ((decision rs c).auto_promote ≡ true) ↔ SomeRule rs c
unfolding decision
decision-SomeRule [] c = (λ h. absurd (ground arith), λ p. elim p.1 [ ])
decision-SomeRule (r ∷ rs) c =
    let (to, from) = decision-SomeRule rs c in
    let (all_to, all_from) = rule_matches-All r c in
    elim (Bool-cases (rule_matches r c)) [
      | inl matches ↦ (λ h. (r, inl refl, all_to matches), λ p. ground (arith, matches))
      | inr fails ↦ (
        λ h. let (q, i, a) = to (ground (arith, fails)) in (q, inr i, a),
        λ (q, i, a). elim i [
          | inl here ↦ absurd (ground (arith, fails, all_from (subst (All (Holds c)) (sym here) a)))
          | inr later ↦ ground (arith, fails, from (q, later, a))
        ],
      )
    ]

unless_invalid-promotes :
    (v : Option EngineError) (o : Option (List Rule)) (c : Candidate)
    → ((unless_invalid v (decided o c)).0.auto_promote ≡ true)
      ↔ ((v ≡ none) × ((rs : List Rule) × (o ≡ some rs) × SomeRule rs c))
unless_invalid-promotes (some e) o c =
    (λ h. absurd (ground arith), λ p. absurd (ground (arith, p.0)))
unless_invalid-promotes none none c =
    (λ h. absurd (ground arith), λ p. absurd (ground (arith, p.1.1)))
unless_invalid-promotes none (some rs) c =
    let (to, from) = decision-SomeRule rs c in
    (
      λ h. (refl, (rs, refl, to h)),
      λ (_, (qs, e, m)). from (subst (λ x. SomeRule x c) (ground (arith, e)) m),
    )

-- The engine promotes exactly where the rules are valid and some rule has all of its conditions
-- fulfilled by the candidate.
pub evaluate_iff_rule :
    (c : Candidate) (rules : Option Json)
    → ((evaluate c rules).0.auto_promote ≡ true) ↔ (
        (validate rules ≡ none)
        × ((rs : List Rule) × (decoded_rules rules ≡ some rs) × SomeRule rs c))
unfolding evaluate
evaluate_iff_rule c rules = unless_invalid-promotes (validate rules) (decoded_rules rules) c

abbrev pub AllowedCondition : Condition → Type 0
AllowedCondition k =
    (field_allowed k.field ≡ true)
    × ((k.op ≡ text "eq") ⊎ (k.op ≡ text "in"))
    × ((j : Json) × (k.value ≡ some j))

check_condition-AllowedCondition : (k : Condition) → check_condition k ≡ none → AllowedCondition k
unfolding check_condition
check_condition-AllowedCondition k h = elim (Option-cases k.value) [
  | inl missing ↦ absurd (ground (arith, missing))
  | inr (j, is) ↦ (ground arith, ground arith, (j, is))
]

check_conditions-AllowedCondition :
    (ks : List Condition) → check_conditions ks ≡ none → All AllowedCondition ks
unfolding check_conditions
check_conditions-AllowedCondition [] h = tt
check_conditions-AllowedCondition (k ∷ ks) h = elim (Option-cases (check_condition k)) [
  | inl fine ↦ (
    check_condition-AllowedCondition k fine,
    check_conditions-AllowedCondition ks (ground (arith, fine)),
  )
  | inr (e, is) ↦ absurd (ground (arith, is))
]

-- A rule with a condition, and each of its conditions allowed.
abbrev pub AllowedRule : Rule → Type 0
AllowedRule r = (r ≢ []) × All AllowedCondition r

check_rule-AllowedRule : (r : Rule) → check_rule r ≡ none → AllowedRule r
unfolding check_rule
check_rule-AllowedRule [] h = absurd (ground arith)
check_rule-AllowedRule (k ∷ ks) h =
    (λ e. ground (arith, e), check_conditions-AllowedCondition (k ∷ ks) h)

check_rules-AllowedRule : (rs : List Rule) → check_rules rs ≡ none → All AllowedRule rs
unfolding check_rules
check_rules-AllowedRule [] h = tt
check_rules-AllowedRule (r ∷ rs) h = elim (Option-cases (check_rule r)) [
  | inl fine ↦ (check_rule-AllowedRule r fine, check_rules-AllowedRule rs (ground (arith, fine)))
  | inr (e, is) ↦ absurd (ground (arith, is))
]

check_list-AllowedRule :
    (o : Option (List Rule))
    → check_list o ≡ none
    → (rs : List Rule) × (o ≡ some rs) × (rs ≢ []) × All AllowedRule rs
check_list-AllowedRule none h = absurd (ground arith)
check_list-AllowedRule (some []) h = absurd (ground arith)
check_list-AllowedRule (some (r ∷ rs)) h =
    (r ∷ rs, refl, λ e. ground (arith, e), check_rules-AllowedRule (r ∷ rs) h)

-- A document that is accepted decodes into rules of which there is one, each with a condition, and
-- each condition with a whitelisted field, a known operator and a value.
pub validate-allows :
    (rules : Option Json)
    → validate rules ≡ none
    → (rs : List Rule) × (decoded_rules rules ≡ some rs) × (rs ≢ []) × All AllowedRule rs
unfolding validate
validate-allows none h = absurd (ground arith)
validate-allows (some j) h = check_list-AllowedRule (decode j) h
