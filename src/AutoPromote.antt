-- ===== src/AutoPromote.antt =====
-- internal/autopromote/autopromote.go: the engines that may promote a proposal without a reviewer.
pub mod Simple
use baseline.Prelude.{
  ◌≡◌, Bool, true, false, Option, none, some, List, [], ◌∷◌, if◌then◌else◌, ◌==◌, nat_eq, Text,
  text_eq, refl,
}
use baseline.Json.{Json}

pub record Candidate : Type 0 where
  pub provenance_origin_type : Text
  pub provenance_source_kind : Text
  pub actor_type : Text
  pub tags : List Text
  pub metadata : List (Text × Json)

-- `matched_rule` is `none` where nothing matched.
pub record Decision : Type 0 where
  pub auto_promote : Bool
  pub reason : Text
  pub matched_rule : Option Json

pub data EngineError : Type 0 where
  unknown_engine : Text → EngineError
  engine_error : Text → EngineError

-- The interface `Engine`: an engine is its methods.
pub record Engine : Type 0 where
  pub id : Text
  pub validate : Option Json → Option EngineError
  pub evaluate : Candidate → Option Json → Decision × Option EngineError

abbrev pub Registry : Type 0
Registry = List Engine

-- `m[e.ID()] = e` for each engine: a later one replaces an earlier one of the same ID.
unfoldable pub get_engine : Registry → Text → Option Engine
get_engine [] id = none
get_engine (e ∷ es) id = elim (get_engine es id) [
  | some later ↦ some later
  | none ↦ if e.id == id then some e else none
]

unfoldable pub validate_policy : Registry → Text → Option Json → Option EngineError
validate_policy r id rules = elim (get_engine r id) [
  | none ↦ some (unknown_engine id)
  | some e ↦ e.validate rules
]

abbrev pub declined : Decision
declined = record { auto_promote = false; reason = []; matched_rule = none }

abbrev fail_closed : Decision × Option EngineError → Decision × Option EngineError
fail_closed (d, none) = (d, none)
fail_closed (d, some err) = (declined, some err)

evaluate_on : Text → Candidate → Option Json → Option Engine → Decision × Option EngineError
evaluate_on id c rules none = (declined, some (unknown_engine id))
evaluate_on id c rules (some e) = fail_closed (e.evaluate c rules)

unfoldable pub evaluate : Registry → Text → Candidate → Option Json → Decision × Option EngineError
unfolding evaluate_on
evaluate r id c rules = evaluate_on id c rules (get_engine r id)

fail_closed_promotes :
    (v : Decision × Option EngineError)
    → (fail_closed v).0.auto_promote ≡ true
    → ((fail_closed v).1 ≡ none) × (v ≡ ((fail_closed v).0, none))
fail_closed_promotes (d, none) h = (refl, refl)
fail_closed_promotes (d, some err) h = cc

evaluate_on-fails_closed :
    (id : Text) (c : Candidate) (rules : Option Json) (o : Option Engine)
    → (evaluate_on id c rules o).0.auto_promote ≡ true
    → ((evaluate_on id c rules o).1 ≡ none)
      × ((e : Engine) × (o ≡ some e) × (e.evaluate c rules ≡ ((evaluate_on id c rules o).0, none)))
unfolding evaluate_on
evaluate_on-fails_closed id c rules none h = cc
evaluate_on-fails_closed id c rules (some e) h =
    let (p, q) = fail_closed_promotes (e.evaluate c rules) h in (p, (e, refl, q))

-- The registry fails closed: a decision to promote comes with no error, from a registered engine
-- of that ID that reported none.
pub evaluate-fails_closed :
    (r : Registry) (id : Text) (c : Candidate) (rules : Option Json)
    → (evaluate r id c rules).0.auto_promote ≡ true
    → ((evaluate r id c rules).1 ≡ none)
      × ((e : Engine) × (get_engine r id ≡ some e)
          × (e.evaluate c rules ≡ ((evaluate r id c rules).0, none)))
unfolding evaluate
evaluate-fails_closed r id c rules = evaluate_on-fails_closed id c rules (get_engine r id)
