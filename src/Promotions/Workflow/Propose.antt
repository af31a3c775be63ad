-- ===== src/Promotions/Workflow/Propose.antt =====
-- internal/promotions/service.go: `Propose`, and the promotion of a proposal by an engine.
pub mod Steps
pub mod Recorded
pub mod Pending
pub mod Repeated
use baseline.Prelude.{
  ℕ, Option, none, some, List, [], ◌∷◌, ◌++◌, ltb, if◌then◌else◌, ◌==◌, nat_eq, Text, text_eq, text,
  ap,
}
use baseline.Audit.Writer.{write}
use baseline.Audit.{Event, proposal, superseded_by, auto_promotion}
use baseline.AutoPromote.{Registry, Candidate, Decision, EngineError, evaluate}
use baseline.Facts.Key.{canonical_key, valid}
use baseline.Facts.Repo
use baseline.Facts.{Subject, Provenance, Fact, Status, status_eq}
use baseline.Json.{Json, null}
use baseline.Namespaces.Repo as Registrar
use baseline.Namespaces.{AutoPromote}
use baseline.Promotions.Repo.{insert_promotion, find_by_idempotency_key, update_state_and_reviews}
use baseline.Promotions.Workflow.{Service, embed_after_activation}
use baseline.Promotions.{PromotionRequest, pending, approved, state_eq, decision_eq}
use baseline.Store.{
  Outcome, done, fail, Tx, in_tx, on_pool, ◌>>=◌, ◌>>◌, pure, guard, ignore, fact_not_found,
  promotion_not_found, invalid_subject,
}

pub record ProposeInput : Type 0 where
  pub target_namespace_id : ℕ
  pub proposed_statement : Text
  pub subject : Subject
  pub candidate_memory_ids : List Text
  pub provenance : Provenance
  pub tags : List Text
  pub metadata : List (Text × Json)
  pub proposer : Text
  pub idempotency_key : Text  -- empty: none
  pub origin_type : Text
  pub source_kind : Text
  pub actor_type : Text

abbrev pub candidate : ProposeInput → Candidate
candidate input = record {
  provenance_origin_type = input.origin_type;
  provenance_source_kind = input.source_kind;
  actor_type = input.actor_type;
  tags = input.tags;
  metadata = input.metadata;
}

-- `if err := m; err != nil { return }`: an error ends the engine's part and leaves the request as it is.
abbrev pub or_leave :
    {A : Type 0} → Outcome A → PromotionRequest → Tx PromotionRequest → Outcome PromotionRequest
or_leave (done a s) p rest = rest s
or_leave (fail e s) p rest = done p s

abbrev pub auto_superseded_event : Text → ℕ → ℕ → Event
auto_superseded_event who old_id new_id = record {
  principal = who;
  action = text "fact.superseded";
  subject_type = text "fact";
  subject_id = old_id;
  from_state = text "active";
  to_state = text "superseded";
  detail = superseded_by new_id;
}

abbrev pub auto_supersede : Text → Option ℕ → ℕ → Tx (Unit {0})
auto_supersede who none new_id = pure tt
auto_supersede who (some old_id) new_id = do
  Repo.supersede old_id new_id
  ignore (write (auto_superseded_event who old_id new_id))

abbrev pub rule_or_null : Option Json → Json
rule_or_null none = null
rule_or_null (some j) = j

abbrev pub auto_promoted_event : Text → Decision → PromotionRequest → Event
auto_promoted_event engine d p = record {
  principal = text "engine:" ++ engine;
  action = text "fact.auto_promoted";
  subject_type = text "fact";
  subject_id = p.fact_id;
  from_state = [];
  to_state = text "active";
  detail = auto_promotion engine (rule_or_null d.matched_rule) d.reason;
}

abbrev pub mark_approved : Text → Decision → PromotionRequest → Tx PromotionRequest
mark_approved engine d p s =
    or_leave (update_state_and_reviews p.id p.state p.reviews s) p
      (do ignore (write (auto_promoted_event engine d p)); pure p)

-- What follows a positive decision.
unfoldable pub auto_activate : Service → Text → Decision → PromotionRequest → Tx PromotionRequest
unfolding Repo.supersede Repo.activate_auto write update_state_and_reviews embed_after_activation
auto_activate svc engine d p s =
    or_leave (auto_supersede (text "engine:" ++ engine) p.conflict_with p.fact_id s) p λ t.
      or_leave (Repo.activate_auto p.fact_id t) p do
        embed_after_activation svc p.fact_id
        mark_approved engine d (record p { state = approved })

abbrev pub follow :
    Service → Text → PromotionRequest → Decision × Option EngineError → Tx PromotionRequest
follow svc engine p (d, some err) = pure p
follow svc engine p (d, none) = if d.auto_promote then auto_activate svc engine d p else pure p

abbrev pub consult :
    Service
    → Option Registry
    → Option AutoPromote
    → PromotionRequest
    → ProposeInput
    → Tx PromotionRequest
consult svc none ap p input = pure p
consult svc (some engines) none p input = pure p
consult svc (some engines) (some ap) p input =
    if ap.engine == []
    then pure p
    else follow svc ap.engine p (evaluate engines ap.engine (candidate input) ap.rules)

unfoldable pub maybe_auto_promote :
    Service → PromotionRequest → Option AutoPromote → ProposeInput → Tx PromotionRequest
unfolding evaluate auto_activate
maybe_auto_promote svc p ap input = consult svc svc.engines ap p input

-- The ID of the active fact of the namespace and key, if there is one.
abbrev pub conflict_of : Outcome Fact → Outcome (Option ℕ)
conflict_of (done f s) = done (some f.id) s
conflict_of (fail fact_not_found s) = done none s
conflict_of (fail e s) = fail e s

unfoldable pub detect_conflict : ℕ → Text → Tx (Option ℕ)
unfolding Repo.find_active_by_key
detect_conflict ns key s = conflict_of (Repo.find_active_by_key ns key s)

abbrev pub proposed_fact : ProposeInput → Fact
proposed_fact input = record {
  id = 0;
  namespace_id = input.target_namespace_id;
  statement = input.proposed_statement;
  subject = input.subject;
  canonical_key = [];
  status = Status.proposed;
  confidence = none;
  source_memory_ids = input.candidate_memory_ids;
  provenance = input.provenance;
  valid_from = none;
  valid_to = none;
  supersedes_id = none;
  superseded_by_id = none;
  tags = input.tags;
  metadata = input.metadata;
  embedding = none;
  created_by = input.proposer;
  approved_by = [];
  version = 0;
  created_at = 0;
  updated_at = 0;
}

-- `idemKey` is nil for an empty key.
abbrev pub key_or_nil : Text → Option Text
key_or_nil [] = none
key_or_nil (c ∷ s) = some (c ∷ s)

abbrev pub proposed_promotion : ProposeInput → ℕ → ℕ → Option ℕ → PromotionRequest
proposed_promotion input fact_id required conflict_with = record {
  id = 0;
  fact_id = fact_id;
  target_namespace_id = input.target_namespace_id;
  proposed_statement = input.proposed_statement;
  state = pending;
  candidate_memory_ids = input.candidate_memory_ids;
  proposer = input.proposer;
  reviews = [];
  required_approvals = required;
  conflict_with = conflict_with;
  idempotency_key = key_or_nil input.idempotency_key;
  created_at = 0;
  updated_at = 0;
}

abbrev pub proposed_event : ProposeInput → PromotionRequest → ℕ → Text → Option ℕ → Event
proposed_event input p fact_id key conflict_with = record {
  principal = input.proposer;
  action = text "fact.proposed";
  subject_type = text "promotion";
  subject_id = p.id;
  from_state = [];
  to_state = text "pending";
  detail = proposal fact_id key conflict_with;
}

unfoldable pub propose_in_tx : Service → ProposeInput → ℕ → Option AutoPromote → Tx PromotionRequest
unfolding detect_conflict Repo.insert insert_promotion write maybe_auto_promote canonical_key
propose_in_tx svc input required ap = do
  let key = canonical_key input.subject
  conflict_with ← detect_conflict input.target_namespace_id key
  fact ← Repo.insert (proposed_fact input)
  out ← insert_promotion (proposed_promotion input fact.id required conflict_with)
  write (proposed_event input out fact.id key conflict_with)
  maybe_auto_promote svc out ap input

abbrev pub at_least_one : ℕ → ℕ
at_least_one n = if ltb n 1 then 1 else n

-- The part after the idempotency check.
unfoldable pub propose_new : Service → ProposeInput → Tx PromotionRequest
unfolding Registrar.get propose_in_tx in_tx
propose_new svc input = do
  ns ← Registrar.get input.target_namespace_id
  in_tx (propose_in_tx svc input (at_least_one ns.policy.required_approvals) ns.policy.auto_promote)

-- The short-circuit: an earlier proposal under the key is the answer.
abbrev pub existing_or : Outcome PromotionRequest → Tx PromotionRequest → Outcome PromotionRequest
existing_or (done p s) rest = done p s
existing_or (fail promotion_not_found s) rest = rest s
existing_or (fail e s) rest = fail e s

abbrev pub unless_repeated : Text → Text → Tx PromotionRequest → Tx PromotionRequest
unless_repeated proposer [] rest = rest
unless_repeated proposer (c ∷ key) rest =
    λ s. existing_or (on_pool (find_by_idempotency_key proposer (c ∷ key)) s) rest

unfoldable pub propose : Service → ProposeInput → Tx PromotionRequest
unfolding valid on_pool find_by_idempotency_key propose_new
propose svc input = do
  guard (valid input.subject) invalid_subject
  unless_repeated input.proposer input.idempotency_key (propose_new svc input)
