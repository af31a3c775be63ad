-- ===== src/Promotions/Workflow/Reviews/Lineage.antt =====
-- `Approve` of internal/promotions/service.go: the fact that the new one replaces, the facts that
-- are left alone, and the audit log.
use baseline.Facts.Repo.Writes.{on_key}
use baseline.Facts.Repo.{fact_key, activated}
use baseline.Store.Table.{find}
use baseline.Promotions.Workflow.{Service}
use baseline.Store.{Session, done}
use baseline.Facts.{Fact}
use baseline.Promotions.{distinct_approvers, PromotionRequest}
use baseline.Promotions.Workflow.Reviews
use baseline.Promotions.Workflow.Reviews.Approve.{Approval, approve_promotion-Approval}
use baseline.Promotions.Workflow.Reviews.Deciding.{approval_rows}
use baseline.Promotions.Workflow.Reviews.Activation.{superseding}
use baseline.Promotions.Workflow.Embedding.{without_vector}
use baseline.Prelude.{inl, inr, ap, ℕ, ◌≡◌, ◌∙◌, ◌≢◌, Option, none, some, List, ◌++◌, arith, Text}
use mathlib.Core.Option

activating_other :
    (j id now : ℕ) (by : List Text) (conflict : Option ℕ) (o : Option Fact)
    → j ≢ id
    → conflict ≢ some j
    → on_key id (activated by now) j (superseding conflict id now j o) ≡ o
activating_other j id now by none o ne apart = ground arith
activating_other j id now by (some k) o ne apart =
    let differs : k ≢ j = λ e. apart (ap some e) in ground arith

module _ (svc : Service) (id : ℕ) (reviewer comment : Text) (s : Session) (q : PromotionRequest)
    (t : Session) (ok : Reviews.approve_promotion svc id reviewer comment s ≡ done q t) where
  approval : Approval id reviewer comment s.now s.db t.db q
  approval = approve_promotion-Approval svc id reviewer comment s q t ok

  -- An approval that succeeds leaves every other fact alone, but for the vector.
  pub approve_promotion-others :
      (j : ℕ)
      → j ≢ q.fact_id
      → q.conflict_with ≢ some j
      → Option.map without_vector (find fact_key j t.db.facts)
        ≡ Option.map without_vector (find fact_key j s.db.facts)
  approve_promotion-others j ne apart = elim approval.settled.decided [
    | inl (_, _, looked) ↦
        looked j
        ∙ ap (Option.map without_vector) (
            activating_other j q.fact_id s.now (distinct_approvers q) q.conflict_with
              (find fact_key j s.db.facts) ne apart)
    | inr (_, _, same) ↦ ap (λ fs. Option.map without_vector (find fact_key j fs)) same
  ]

  -- An approval that succeeds appends to the audit log one event of the approval, after those of
  -- the supersession and the activation where the promotion is approved, and nothing else.
  pub approve_promotion-logs :
      t.db.audit_events ≡ s.db.audit_events ++ approval_rows reviewer q s.now
  approve_promotion-logs = approval.settled.logs
