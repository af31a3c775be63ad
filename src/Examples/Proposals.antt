-- ===== src/Examples/Proposals.antt =====
-- Proposals of internal/promotions/service.go at concrete inputs.
use baseline.Facts.Key.{valid}
use baseline.Store.Table.{find}
use baseline.Promotions.Workflow.Propose.{ProposeInput}
use baseline.Examples.Calls.{proposed_by_ann}
use baseline.Examples.Reads.{stored, team}
use baseline.Examples.Sample.{service, request, db, new_fact}
use baseline.Promotions.Workflow.Reviews
use baseline.Promotions.Workflow.Reviews.Answers.{seen, submission, submit-answers, Writable}
use baseline.Promotions.Repo.{promotion_key}
use baseline.Facts.{Status-discrete}
use baseline.Namespaces.Repo.{namespace_key}
use baseline.Prelude.{
  In, inl, inr, subst, ℕ_discrete, Text-discrete, ◌≡◌, refl, ◌≢◌, true, false, some, [], ◌∷◌, arith,
  text,
}
use baseline.Promotions.Workflow.Propose
use baseline.Promotions.Repo as Requests
use baseline.Promotions.Workflow.Propose.Pending.{propose-pending}
use baseline.Promotions.Workflow.Propose.Recorded.{Proposed}
use baseline.Promotions.Workflow.Propose.Repeated.{propose-repeated, earlier}
use baseline.Promotions.{PromotionRequest, State}
use baseline.Requests.{open_session}
use baseline.Store.Keeps.{session}
use baseline.Store.{Session, Outcome, done, fail}

abbrev calm : Session
calm = open_session stored 10 (λ n. false)

abbrev answer_or : {A : Type 0} → A → Outcome A → A
answer_or a (done b s) = b
answer_or a (fail e s) = a

abbrev pending_request : PromotionRequest
pending_request = answer_or request (Propose.propose service proposed_by_ann calm)

abbrev waiting : Session
waiting = session (Propose.propose service proposed_by_ann calm)

run_proposes : Propose.propose service proposed_by_ann calm ≡ done pending_request waiting
unfolding Propose.propose ℕ_discrete Text-discrete Status-discrete
run_proposes = refl

team_found : find namespace_key 0 calm.db.namespaces ≡ some team
unfolding find ℕ_discrete
team_found = refl

propose-pending_example :
    (valid proposed_by_ann.subject ≡ true)
    × Proposed proposed_by_ann 10 1 calm.db waiting.db pending_request
propose-pending_example =
    propose-pending service proposed_by_ann team calm pending_request waiting refl team_found tt
      run_proposes

-- Ann has proposed under the key "k" before.
abbrev keyed : PromotionRequest
keyed = record request { idempotency_key = some (text "k") }

abbrev holding : Session
holding = open_session (record stored { promotions = keyed ∷ [] }) 10 (λ n. false)

abbrev again : ProposeInput
again = record proposed_by_ann { idempotency_key = text "k" }

again_is_valid : valid again.subject ≡ true
unfolding valid ℕ_discrete
again_is_valid = refl

again_finds : earlier again.proposer again.idempotency_key holding.db.promotions ≡ some keyed
unfolding Requests.first Text-discrete
again_finds = refl

again_has_key : again.idempotency_key ≢ []
again_has_key = λ e. ground (arith, e)

propose-repeated_example :
    (t : Session) × (Propose.propose service again holding ≡ done keyed t) × (t.db ≡ holding.db)
propose-repeated_example =
    propose-repeated service again holding keyed again_is_valid again_has_key refl again_finds

-- Ann submits a request that is pending.
abbrev unsubmitted : Session
unsubmitted =
    open_session (record db { promotions = record request { state = State.pending } ∷ [] }) 10
      (λ n. false)

unsubmitted-Writable :
    (p : PromotionRequest)
    → In p unsubmitted.db.promotions
    → Writable unsubmitted.db.facts p.fact_id
unfolding find ℕ_discrete
unsubmitted-Writable p (inl e) =
    subst (λ (q : PromotionRequest). Writable unsubmitted.db.facts q.fact_id) e
      (new_fact, refl, refl)
unsubmitted-Writable p (inr i) = elim i [ ]

submit-answers_example :
    seen (Reviews.submit 3 (text "ann") unsubmitted)
    ≡ submission (text "ann") 10 unsubmitted.db (find promotion_key 3 unsubmitted.db.promotions)
submit-answers_example = submit-answers 3 (text "ann") unsubmitted (λ n. refl) unsubmitted-Writable
