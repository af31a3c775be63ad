-- ===== src/Promotions/Workflow/Reviews.antt =====
-- internal/promotions/service.go: submitting, approving, rejecting, sending back and withdrawing.
pub mod Activation
pub mod Deciding
pub mod Approve
pub mod Guarantees
pub mod Lineage
pub mod Answers
use baseline.Prelude.{
  ℕ, ◌-◌, ◌&&◌, ◌||◌, not, Option, none, some, List, [], ◌∷◌, ◌++◌, contains, if◌then◌else◌, ◌==◌,
  nat_eq, Text, text_eq, text, Bool,
}
use baseline.Audit.Writer.{write}
use baseline.Audit.{Event, empty, superseded_by, approvals}
use baseline.Facts.Repo
use baseline.Facts.{Status, status_eq}
use baseline.Promotions.Repo.{get_by_id, update_state_and_reviews, update_statement}
use baseline.Promotions.Workflow.{Service, embed_after_activation, current_time}
use baseline.Promotions.{
  PromotionRequest, Review, State, Decision, state_text, state_eq, has_enough_approvals,
  already_approved_by, approval_count, pending, in_review, changes_requested, approved, rejected,
  approve, reject, request_changes, decision_eq,
}
use baseline.Store.{
  Outcome, done, fail, Tx, in_tx, ◌>>=◌, ◌>>◌, pure, guard, ignore, on_pool, not_proposer,
  invalid_state, self_approval,
}

abbrev pub promotion_event : Text → Text → PromotionRequest → Event
promotion_event who action p = record {
  principal = who;
  action = action;
  subject_type = text "promotion";
  subject_id = p.id;
  from_state = [];
  to_state = state_text p.state;
  detail = empty;
}

-- The steps of `review` and `transition` after the request has changed.
unfoldable pub save : PromotionRequest → Status → Text → Text → Tx PromotionRequest
unfolding update_state_and_reviews Repo.set_status write state_text
save p fact_to who action = do
  update_state_and_reviews p.id p.state p.reviews
  Repo.set_status p.fact_id fact_to
  write (promotion_event who action p)
  pure p

unfoldable pub transition :
    ℕ → Text → (PromotionRequest → Tx PromotionRequest) → Status → Text → Tx PromotionRequest
unfolding in_tx get_by_id save
transition id principal mutate fact_to action =
    in_tx do p ← get_by_id id; q ← mutate p; save q fact_to principal action

abbrev pub is_open : State → Bool
is_open st = st == pending || st == changes_requested

abbrev pub may_submit : Text → PromotionRequest → Tx PromotionRequest
may_submit principal p = do
  guard (is_open p.state) invalid_state
  guard (p.proposer == principal) not_proposer
  pure (record p { state = in_review })

unfoldable pub submit : ℕ → Text → Tx PromotionRequest
unfolding transition
submit id principal =
    transition id principal (may_submit principal) Status.in_review (text "promotion.submitted")

abbrev pub may_withdraw : Text → PromotionRequest → Tx PromotionRequest
may_withdraw principal p = do
  guard (p.proposer == principal) not_proposer
  guard (is_open p.state) invalid_state
  pure (record p { state = rejected })

unfoldable pub withdraw : ℕ → Text → Tx PromotionRequest
unfolding transition
withdraw id principal =
    transition id principal (may_withdraw principal) Status.rejected (text "promotion.withdrawn")

abbrev pub is_reviewable : State → Bool
is_reviewable st = st == in_review || st == pending

abbrev pub with_review : Text → Decision → Text → State → ℕ → PromotionRequest → PromotionRequest
with_review reviewer d comment to now p =
    let r : Review = record { reviewer = reviewer; decision = d; comment = comment; at = now } in
    record p { reviews = p.reviews ++ r ∷ []; state = to }

unfoldable pub review : ℕ → Text → Decision → Text → State → Status → Text → Tx PromotionRequest
unfolding in_tx get_by_id save
review id reviewer d comment to fact_to action = in_tx do
  p ← get_by_id id
  guard (is_reviewable p.state) invalid_state
  now ← current_time
  save (with_review reviewer d comment to now p) fact_to reviewer action

unfoldable pub reject_promotion : ℕ → Text → Text → Tx PromotionRequest
unfolding review
reject_promotion id reviewer comment =
    review id reviewer reject comment rejected Status.rejected (text "promotion.rejected")

-- The suggested statement is written on the pool, after the commit, and an error of that is dropped.
abbrev pub apply_suggestion : ℕ → Text → PromotionRequest → Tx PromotionRequest
apply_suggestion id [] p = pure p
apply_suggestion id (c ∷ suggested) p = do
  ignore (on_pool (update_statement id (c ∷ suggested)))
  pure (record p { proposed_statement = c ∷ suggested })

unfoldable pub request_changes_to : ℕ → Text → Text → Text → Tx PromotionRequest
unfolding review update_statement on_pool
request_changes_to id reviewer comment suggested = do
  p ←
      review id reviewer request_changes comment changes_requested Status.proposed
        (text "promotion.changes_requested")
  apply_suggestion id suggested p

-- One round of the loop of `activate` that collects the approvers, each once; `seen` holds the same
-- names as the list, so the list alone is kept.
unfoldable pub collect_approver : Text → List Text → Review → List Text
unfolding contains
collect_approver proposer out r =
    if r.decision == approve && not (r.reviewer == proposer)
    then if not (contains r.reviewer out) then out ++ r.reviewer ∷ [] else out
    else out

unfoldable pub collect_approvers : Text → List Text → List Review → List Text
unfolding collect_approver
collect_approvers proposer out [] = out
collect_approvers proposer out (r ∷ rs) =
    collect_approvers proposer (collect_approver proposer out r) rs

abbrev pub superseded_event : Text → ℕ → ℕ → Event
superseded_event who old_id new_id = record {
  principal = who;
  action = text "fact.superseded";
  subject_type = text "fact";
  subject_id = old_id;
  from_state = text "active";
  to_state = text "superseded";
  detail = superseded_by new_id;
}

abbrev pub supersede_conflict : Text → Option ℕ → ℕ → Tx (Unit {0})
supersede_conflict who none new_id = pure tt
supersede_conflict who (some old_id) new_id = do
  Repo.supersede old_id new_id
  write (superseded_event who old_id new_id)

abbrev pub activated_event : Text → ℕ → Event
activated_event who id = record {
  principal = who;
  action = text "fact.activated";
  subject_type = text "fact";
  subject_id = id;
  from_state = [];
  to_state = text "active";
  detail = empty;
}

-- The old fact leaves `active` before the new one enters it.
unfoldable pub activate : Service → PromotionRequest → Text → Tx (Unit {0})
unfolding Repo.supersede Repo.activate embed_after_activation write collect_approvers
activate svc p final_approver = do
  supersede_conflict final_approver p.conflict_with p.fact_id
  Repo.activate p.fact_id (collect_approvers p.proposer [] p.reviews)
  embed_after_activation svc p.fact_id
  write (activated_event final_approver p.fact_id)

abbrev pub with_approval : Text → Text → ℕ → PromotionRequest → PromotionRequest
with_approval reviewer comment now p = if already_approved_by p reviewer then p else record p {
  reviews =
      p.reviews
      ++ record { reviewer = reviewer; decision = approve; comment = comment; at = now } ∷ [];
}

abbrev pub decide : Service → PromotionRequest → Text → Tx PromotionRequest
decide svc p reviewer =
    if has_enough_approvals p
    then (activate svc (record p { state = approved }) reviewer
        >> pure (record p { state = approved }))
    else pure (record p { state = in_review })

abbrev pub approved_event : Text → PromotionRequest → Event
approved_event who p = record (promotion_event who (text "promotion.approved") p) {
  detail = approvals (approval_count p) p.required_approvals;
}

unfoldable pub approve_in_tx : Service → ℕ → Text → Text → Tx PromotionRequest
unfolding get_by_id has_enough_approvals already_approved_by approval_count activate
    update_state_and_reviews write state_text
approve_in_tx svc id reviewer comment = do
  p ← get_by_id id
  guard (is_reviewable p.state) invalid_state
  guard (not (reviewer == p.proposer)) self_approval
  now ← current_time
  q ← decide svc (with_approval reviewer comment now p) reviewer
  update_state_and_reviews q.id q.state q.reviews
  write (approved_event reviewer q)
  pure q

-- The latency is recorded once the transaction has committed.
abbrev pub record_latency : Service → Outcome PromotionRequest → Outcome PromotionRequest
record_latency svc (fail e s) = fail e s
record_latency svc (done p s) =
    if p.state == approved && svc.latency
    then done p (record s { latencies = s.latencies ++ (s.now - p.created_at) ∷ [] })
    else done p s

unfoldable pub approve_promotion : Service → ℕ → Text → Text → Tx PromotionRequest
unfolding in_tx approve_in_tx
approve_promotion svc id reviewer comment s =
    record_latency svc (in_tx (approve_in_tx svc id reviewer comment) s)
