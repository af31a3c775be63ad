-- ===== src/Server/Promotions.antt =====
-- internal/server/handlers_promotions.go.
use baseline.Facts.{Subject, Provenance}
use baseline.Json.{Json}
use baseline.Prelude.{
  ℕ, Option, none, some, List, [], ◌∷◌, filter, if◌then◌else◌, ◌==◌, nat_eq, Text, text_eq, text,
}
use baseline.Promotions.Repo as Requests
use baseline.Promotions.Workflow.Propose
use baseline.Promotions.Workflow.Propose.{ProposeInput}
use baseline.Promotions.Workflow.Reviews
use baseline.Promotions.{PromotionRequest}
use baseline.Rbac as Rbac
use baseline.Rbac.{Action, Entitlements, may_read}
use baseline.Server.Facts.{given}
use baseline.Server.Respond.{get_value}
use baseline.Server.{
  HttpRequest, Server, Context, Reply, write_json, write_error, call, parse_id, authorize, entitled,
  decoded, id_or_blank, error_of, promotion_body, promotion_list,
}
use baseline.Store.{
  Tx, Error, promotion_not_found, self_approval, not_proposer, invalid_state, invalid_subject,
  on_pool,
}

pub record ProposeReq : Type 0 where
  pub target_namespace : ℕ
  pub proposed_statement : Text
  pub subject : Subject
  pub candidate_memory_ids : List Text
  pub provenance : Provenance
  pub tags : List Text
  pub metadata : List (Text × Json)
  pub origin_type : Text
  pub source_kind : Text
  pub actor_type : Text

abbrev pub propose_input : ProposeReq → Text → Text → ProposeInput
propose_input req proposer key = record {
  target_namespace_id = req.target_namespace;
  proposed_statement = req.proposed_statement;
  subject = req.subject;
  candidate_memory_ids = req.candidate_memory_ids;
  provenance = req.provenance;
  tags = req.tags;
  metadata = req.metadata;
  proposer = proposer;
  idempotency_key = key;
  origin_type = req.origin_type;
  source_kind = req.source_kind;
  actor_type = req.actor_type;
}

abbrev pub propose_failed : Error → Reply
propose_failed invalid_subject = write_error 400 (text "subject with a type is required")
propose_failed _ = write_error 500 (text "propose failed")

unfoldable pub create_promotion : Server → Context → HttpRequest → Option ProposeReq → Reply
unfolding authorize get_value Propose.propose
create_promotion srv ctx r body = decoded body λ req.
    authorize ctx req.target_namespace Action.propose (
      call
        (Propose.propose srv.promos (
          propose_input req (id_or_blank ctx.principal)
            (get_value (text "Idempotency-Key") r.headers)))
        propose_failed (λ out. write_json 201 (promotion_body out)))

abbrev pub namespace_filter : Entitlements → Option ℕ → (Option ℕ → Reply) → Reply
namespace_filter e none next = write_error 400 (text "invalid namespace")
namespace_filter e (some id) next =
    if may_read e id then next (some id) else write_error 403 (text "forbidden")

abbrev pub filtered : Server → Entitlements → Text → (Option ℕ → Reply) → Reply
filtered srv e [] next = next none
filtered srv e (c ∷ v) next = namespace_filter e (srv.parse_uuid (c ∷ v)) next

-- `proposer=me` is the caller.
abbrev pub proposer_of : Text → Text → Option Text
proposer_of me [] = none
proposer_of me (c ∷ v) = some (if c ∷ v == text "me" then me else c ∷ v)

unfoldable pub list_promotions : Server → Context → HttpRequest → Reply
unfolding on_pool Requests.list get_value filter may_read
list_promotions srv ctx r = entitled ctx λ e.
    filtered srv e (get_value (text "namespace") r.query) λ ns.
      call
        (on_pool (
          Requests.list ns (given (get_value (text "state") r.query))
            (proposer_of (id_or_blank ctx.principal) (get_value (text "proposer") r.query))))
        (λ err. write_error 500 (text "list failed"))
        (λ ps. write_json 200 (promotion_list (filter (λ p. may_read e p.target_namespace_id) ps)))

abbrev pub lookup_failed : Text → Error → Reply
lookup_failed msg promotion_not_found = write_error 404 (text "not found")
lookup_failed msg _ = write_error 500 msg

unfoldable pub get_promotion : Server → Context → HttpRequest → Reply
unfolding parse_id on_pool Requests.get_by_id authorize
get_promotion srv ctx r = parse_id srv r λ id.
    call (on_pool (Requests.get_by_id id)) (lookup_failed (text "get failed"))
      λ p. authorize ctx p.target_namespace_id Rbac.read_facts (write_json 200 (promotion_body p))

-- `Decode` drops its error: the body is what it leaves.
pub record CommentReq : Type 0 where
  pub comment : Text
  pub suggested_statement : Text

pub data ReviewAction : Type 0 where
  submit approve reject request_changes withdraw : ReviewAction

-- Submitting and withdrawing are left to the service, which asks for the proposer.
abbrev pub guarded : Context → ReviewAction → ℕ → Reply → Reply
guarded ctx submit ns next = next
guarded ctx withdraw ns next = next
guarded ctx _ ns next = authorize ctx ns Action.approve_reject next

abbrev pub act : Server → ReviewAction → ℕ → Text → CommentReq → Tx PromotionRequest
act srv submit id who body = Reviews.submit id who
act srv approve id who body = Reviews.approve_promotion srv.promos id who body.comment
act srv reject id who body = Reviews.reject_promotion id who body.comment
act srv request_changes id who body =
    Reviews.request_changes_to id who body.comment body.suggested_statement
act srv withdraw id who body = Reviews.withdraw id who

unfoldable pub map_workflow_err : Error → Option ℕ
map_workflow_err self_approval = some 403
map_workflow_err not_proposer = some 403
map_workflow_err invalid_state = some 409
map_workflow_err _ = none

abbrev pub mapped : Error → Option ℕ → Reply
mapped err none = write_error 500 (text "action failed")
mapped err (some code) = write_json code (error_of err)

unfoldable pub promotion_action : Server → Context → HttpRequest → ReviewAction → CommentReq → Reply
unfolding parse_id on_pool Requests.get_by_id authorize map_workflow_err
promotion_action srv ctx r action body = parse_id srv r λ id.
    call (on_pool (Requests.get_by_id id)) (lookup_failed (text "lookup failed")) λ p.
      guarded ctx action p.target_namespace_id (
        call (act srv action id (id_or_blank ctx.principal) body)
          (λ err. mapped err (map_workflow_err err)) (λ out. write_json 200 (promotion_body out)))
