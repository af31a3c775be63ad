-- ===== src/Examples/Approvals.antt =====
-- Approvals of internal/promotions/service.go at concrete inputs.
use baseline.Facts.Repo.{fact_key}
use baseline.Store.Table.{find}
use baseline.Promotions.Repo.{promotion_key, with_state}
use baseline.Store.{Session, Outcome, done, fail}
use baseline.Facts.{Status-discrete}
use baseline.Promotions.{
  State-discrete, Decision-discrete, add_key, collect, distinct_approvers, pending, in_review,
  approved, PromotionRequest,
}
use baseline.Examples.Sample.{session_at, service, request}
use baseline.Promotions.Workflow.Reviews
use baseline.Promotions.Workflow.Reviews.Guarantees.{
  approve_promotion-done, approve_promotion-four_eyes,
}
use baseline.Promotions.Workflow.Reviews.Lineage.{approve_promotion-others, approve_promotion-logs}
use baseline.Promotions.Approvals.{Distinct, Approved, distinct_approvers_lem}
use baseline.Promotions.Workflow.Reviews.Deciding.{approval_rows}
use baseline.Promotions.Workflow.Embedding.{without_vector}
use baseline.Prelude.{
  ◌≤◌, ◌≡◌, refl, ◌≢◌, ◌↔◌, ◌⊎◌, some, List, [], ◌++◌, arith, ℕ_discrete, length, In, All, Text,
  Text-discrete, text,
}
use mathlib.Core.Option
use baseline.Promotions.{State-discrete, collect, Decision-discrete, add_key}
use baseline.Facts.{Status-discrete}
use baseline.Prelude.{ℕ_discrete, Text-discrete}
use baseline.Store.Keeps.{session}

abbrev answer_or : {A : Type 0} → A → Outcome A → A
answer_or a (done b s) = b
answer_or a (fail e s) = a

-- Bob approves what Ann has proposed.
abbrev approved_by_bob : Outcome PromotionRequest
approved_by_bob = Reviews.approve_promotion service 3 (text "bob") [] (session_at 10)

abbrev answered : PromotionRequest
answered = answer_or request approved_by_bob

abbrev after : Session
after = session approved_by_bob

run_approves : approved_by_bob ≡ done answered after
unfolding Reviews.approve_promotion ℕ_discrete State-discrete Text-discrete distinct_approvers
    collect Decision-discrete add_key Status-discrete find
run_approves = refl

is_approved : answered.state ≡ approved
unfolding Reviews.approve_promotion ℕ_discrete State-discrete Text-discrete distinct_approvers
    collect Decision-discrete add_key Status-discrete find
is_approved = refl

approve_promotion-done_example :
    (p : PromotionRequest) × (find promotion_key 3 (session_at 10).db.promotions ≡ some p)
    × ((p.state ≡ in_review) ⊎ (p.state ≡ pending))
    × (text "bob" ≢ p.proposer)
    × (find promotion_key 3 after.db.promotions
        ≡ some (with_state answered.state answered.reviews 10 p))
approve_promotion-done_example =
    approve_promotion-done service 3 (text "bob") [] (session_at 10) answered after run_approves

approve_promotion-four_eyes_example :
    (xs : List Text) × Distinct xs
    × All (Approved answered) xs
    × (answered.required_approvals ≤ length xs)
approve_promotion-four_eyes_example =
    approve_promotion-four_eyes service 3 (text "bob") [] (session_at 10) answered after
      run_approves is_approved

four_is_another : 4 ≢ answered.fact_id
unfolding Reviews.approve_promotion ℕ_discrete State-discrete Text-discrete distinct_approvers
    collect Decision-discrete add_key Status-discrete find
four_is_another = λ e. ground (arith, e)

four_is_apart : answered.conflict_with ≢ some 4
unfolding Reviews.approve_promotion ℕ_discrete State-discrete Text-discrete distinct_approvers
    collect Decision-discrete add_key Status-discrete find
four_is_apart = λ e. ground (arith, e)

approve_promotion-others_example :
    Option.map without_vector (find fact_key 4 after.db.facts)
    ≡ Option.map without_vector (find fact_key 4 (session_at 10).db.facts)
approve_promotion-others_example =
    approve_promotion-others service 3 (text "bob") [] (session_at 10) answered after run_approves 4
      four_is_another four_is_apart

approve_promotion-logs_example :
    after.db.audit_events
    ≡ (session_at 10).db.audit_events ++ approval_rows (text "bob") answered 10
approve_promotion-logs_example =
    approve_promotion-logs service 3 (text "bob") [] (session_at 10) answered after run_approves

distinct_approvers_lem_example :
    Distinct (distinct_approvers answered)
    × (In (text "bob") (distinct_approvers answered) ↔ Approved answered (text "bob"))
distinct_approvers_lem_example = distinct_approvers_lem answered (text "bob")
