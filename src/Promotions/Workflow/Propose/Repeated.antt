-- ===== src/Promotions/Workflow/Propose/Repeated.antt =====
-- `Propose` of internal/promotions/service.go: a proposal that is repeated under its idempotency key.
use baseline.Facts.Key.{valid}
use baseline.Promotions.Workflow.{Service}
use baseline.Store.{Tx, on_pool, Session, done}
use baseline.Promotions.{PromotionRequest, state_eq, decision_eq}
use baseline.Promotions.Repo as Requests
use baseline.Promotions.Workflow.Propose
use baseline.Promotions.Workflow.Propose.{ProposeInput}
use baseline.Prelude.{
  suc, ◌≡◌, refl, ◌≢◌, true, false, ◌&&◌, Option, some, List, [], ◌∷◌, arith, ◌==◌, nat_eq, Text,
  text_eq,
}

-- The earlier request of the proposer under the key.
abbrev pub earlier : Text → Text → List PromotionRequest → Option PromotionRequest
earlier who key ps =
    Requests.first (λ p. p.proposer == who && Requests.is_key key p.idempotency_key) ps

found_again :
    (who key : Text) (rest : Tx PromotionRequest) (s : Session) (p : PromotionRequest)
    → key ≢ []
    → s.faults s.sent ≡ false
    → earlier who key s.db.promotions ≡ some p
    → (t : Session) × (Propose.unless_repeated who key rest s ≡ done p t) × (t.db ≡ s.db)
unfolding on_pool Requests.find_by_idempotency_key
found_again who [] rest s p ne calm found = absurd (ne refl)
found_again who (c ∷ key) rest s p ne calm found =
    (record s { sent = suc s.sent; aborted = false }, ground (arith, calm, found), refl)

-- A valid proposal under an idempotency key that the proposer has used before answers the earlier
-- request and changes nothing, if the query for it gets through.
pub propose-repeated :
    (svc : Service) (input : ProposeInput) (s : Session) (p : PromotionRequest)
    → valid input.subject ≡ true
    → input.idempotency_key ≢ []
    → s.faults s.sent ≡ false
    → earlier input.proposer input.idempotency_key s.db.promotions ≡ some p
    → (t : Session) × (Propose.propose svc input s ≡ done p t) × (t.db ≡ s.db)
unfolding Propose.propose
propose-repeated svc input s p is_valid ne calm found =
    let (t, e, d) =
      found_again input.proposer input.idempotency_key (Propose.propose_new svc input) s p ne calm
        found in
    (t, ground (arith, is_valid, e), d)
