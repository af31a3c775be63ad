-- ===== src/Promotions/Workflow/Reviews/Approve.antt =====
-- `Approve` of internal/promotions/service.go: what an approval that succeeds has read and written.
use baseline.Promotions.Workflow.Reviews.Deciding.{Decided, decide-Decided, after_decision}
use baseline.Store.Table.{find}
use baseline.Promotions.Repo.{promotion_key}
use baseline.Store.Transactions.{and_then-done}
use baseline.Promotions.Workflow.{Service}
use baseline.Store.{Session, done}
use baseline.Prelude.{◌≡◌, true, arith, Text, ℕ, not, some}
use baseline.Promotions.{PromotionRequest}
use baseline.Promotions.Repo.Rows.{get_by_id-done}
use baseline.Promotions.Workflow.Reviews
use baseline.Prelude.{subst, nat_eq, text_eq, ◌==◌}
use baseline.Promotions.{state_eq, decision_eq}
use baseline.Store.{Db}
use baseline.Prelude.{ap, sym, ◌∙◌}
use baseline.Store.{Tx, ◌>>=◌, ◌>>◌, guard, invalid_state, self_approval}
use baseline.Store.Transactions.{guard-done}
use baseline.Promotions.Workflow.{current_time}
use baseline.Promotions.Repo.{get_by_id}
use baseline.Store.{Outcome, fail, in_tx}
use baseline.Store.Transactions.{in_tx-done, begin}

-- An approval of the request with ID `id` that succeeds with the answer `q`, at the time `now`.
pub record Approval (id : ℕ) (reviewer comment : Text) (now : ℕ) (d d' : Db) (q : PromotionRequest)
    : Type 0 where
  pub request : PromotionRequest
  pub found : find promotion_key id d.promotions ≡ some request
  pub reviewable : Reviews.is_reviewable request.state ≡ true
  pub another : not (reviewer == request.proposer) ≡ true
  pub settled : Decided reviewer now d d' (Reviews.with_approval reviewer comment now request) q

abbrev after_guards : Service → Text → Text → PromotionRequest → Tx PromotionRequest
after_guards svc reviewer comment p = do
  now ← current_time
  q ← Reviews.decide svc (Reviews.with_approval reviewer comment now p) reviewer
  after_decision reviewer q

abbrev unless_self : Service → Text → Text → PromotionRequest → Tx PromotionRequest
unless_self svc reviewer comment p = do
  guard (not (reviewer == p.proposer)) self_approval
  after_guards svc reviewer comment p

abbrev if_reviewable : Service → Text → Text → PromotionRequest → Tx PromotionRequest
if_reviewable svc reviewer comment p = do
  guard (Reviews.is_reviewable p.state) invalid_state
  unless_self svc reviewer comment p

approve_in_tx-Approval :
    (svc : Service) (id : ℕ) (reviewer comment : Text) (s : Session) (q : PromotionRequest)
    (t : Session)
    → Reviews.approve_in_tx svc id reviewer comment s ≡ done q t
    → Approval id reviewer comment s.now s.db t.db q
unfolding Reviews.approve_in_tx
approve_in_tx-Approval svc id reviewer comment s q t h =
    let (p, u, e, e1) = and_then-done (get_by_id id s) (if_reviewable svc reviewer comment) q t h in
    let (_, v, g, e2) =
      and_then-done (guard (Reviews.is_reviewable p.state) invalid_state u)
        (λ _. unless_self svc reviewer comment p) q t e1 in
    let (_, w, g', e3) =
      and_then-done (guard (not (reviewer == p.proposer)) self_approval v)
        (λ _. after_guards svc reviewer comment p) q t e2 in
    let (found, u_is) = get_by_id-done id s p u e in
    let (is, v_is) = guard-done (Reviews.is_reviewable p.state) invalid_state u v g in
    let (other, w_is) = guard-done (not (reviewer == p.proposer)) self_approval v w g' in
    record {
      request = p;
      found = found;
      reviewable = is;
      another = other;
      settled =
          subst
            (λ (x : Session).
              Decided reviewer x.now x.db t.db (Reviews.with_approval reviewer comment x.now p) q)
            (w_is ∙ v_is ∙ u_is)
            (decide-Decided svc reviewer (Reviews.with_approval reviewer comment w.now p) w q t e3);
    }

record_latency-done :
    (svc : Service) (o : Outcome PromotionRequest) (q : PromotionRequest) (t : Session)
    → Reviews.record_latency svc o ≡ done q t
    → (v : Session) × (o ≡ done q v) × (v.db ≡ t.db)
record_latency-done svc (fail e u) q t h = absurd (ground arith)
record_latency-done svc (done p u) q t h = (u, ground arith, ground arith)

pub approve_promotion-Approval :
    (svc : Service) (id : ℕ) (reviewer comment : Text) (s : Session) (q : PromotionRequest)
    (t : Session)
    → Reviews.approve_promotion svc id reviewer comment s ≡ done q t
    → Approval id reviewer comment s.now s.db t.db q
unfolding Reviews.approve_promotion
approve_promotion-Approval svc id reviewer comment s q t h =
    let body = Reviews.approve_in_tx svc id reviewer comment in
    let (v, e, d) = record_latency-done svc (in_tx body s) q t h in
    let (u, e', _, v_is) = in_tx-done body s e in
    subst (λ x. Approval id reviewer comment s.now s.db x q)
      (ap (λ (x : Session). x.db) (sym v_is) ∙ d)
      (approve_in_tx-Approval svc id reviewer comment (begin s) q u e')
