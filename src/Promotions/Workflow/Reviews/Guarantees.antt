-- ===== src/Promotions/Workflow/Reviews/Guarantees.antt =====
-- `Approve` of internal/promotions/service.go: who may approve, when a promotion is approved, and
-- what becomes of the facts (docs/SPEC.md, the promotion workflow).
use baseline.Facts.Repo.{fact_key}
use baseline.Store.Table.{find, In-find, find-modify}
use baseline.Promotions.Repo.{promotion_key, with_state}
use baseline.Promotions.Workflow.{Service}
use baseline.Store.{Session, done, Db}
use baseline.Prelude.{
  ℕ, ◌≤◌, ◌≡◌, ◌≢◌, ◌⊎◌, some, List, length, All, Text, refl, ◌∙◌, true, Option, none, [], ◌∷◌,
  arith, nat_eq, text_eq,
}
use baseline.Facts.{active, Fact, status_eq}
use baseline.Promotions.{
  distinct_approvers, pending, in_review, approved, PromotionRequest, approval_count,
  has_enough_approvals, State, state_eq, decision_eq,
}
use baseline.Promotions.Workflow.Reviews
use baseline.Promotions.Workflow.Reviews.Approve.{Approval, approve_promotion-Approval}
use baseline.Promotions.Approvals.{
  Distinct, Approved, Distinct-distinct_approvers, counted-Approved,
}
use baseline.Promotions.Workflow.Embedding.{without_vector}
use baseline.Promotions.Workflow.Reviews.Activation.{activating}
use baseline.Promotions.Workflow.Reviews.Deciding.{Decided}
use baseline.Prelude.{inl, inr, ap, In}
use mathlib.Core.Option

pub map-some :
    {A B : Type 0} (f : A → B) (o : Option A) (b : B)
    → Option.map f o ≡ some b
    → (a : A) × (o ≡ some a) × (f a ≡ b)
map-some f none b h = absurd (ground arith)
map-some f (some a) b h = (a, refl, ground arith)

In-All : {A : Type 0} (P : A → Type 0) (xs : List A) → ((x : A) → In x xs → P x) → All P xs
In-All P [] h = tt
In-All P (x ∷ xs) h = (h x (inl refl), In-All P xs (λ y i. h y (inr i)))

pub approved-enough :
    (who : Text) (now : ℕ) (d d' : Db) (r q : PromotionRequest)
    → Decided who now d d' r q
    → q.state ≡ approved
    → (has_enough_approvals q ≡ true)
      × ((j : ℕ)
          → Option.map without_vector (find fact_key j d'.facts)
            ≡ Option.map without_vector (activating q now j (find fact_key j d.facts)))
approved-enough who now d d' r q v h = elim v.decided [
  | inl (_, enough, looked) ↦ (enough, looked)
  | inr (is, _, _) ↦ absurd (ground arith)
]

enough-length :
    (q : PromotionRequest)
    → has_enough_approvals q ≡ true
    → q.required_approvals ≤ length (distinct_approvers q)
unfolding has_enough_approvals approval_count
enough-length q h = ground arith

with_approval-id :
    (who comment : Text) (now : ℕ) (p : PromotionRequest)
    → (Reviews.with_approval who comment now p).id ≡ p.id
with_approval-id who comment now p = ground arith

answer-id :
    (who comment : Text) (now : ℕ) (d d' : Db) (p q : PromotionRequest)
    → Decided who now d d' (Reviews.with_approval who comment now p) q
    → q.id ≡ p.id
answer-id who comment now d d' p q v =
    ap (λ (x : PromotionRequest). x.id) v.answer ∙ with_approval-id who comment now p

is_reviewable-cases :
    (st : State) → Reviews.is_reviewable st ≡ true → (st ≡ in_review) ⊎ (st ≡ pending)
is_reviewable-cases st h = ground arith

record Activated (by : List Text) (now : ℕ) (f g : Fact) : Type 0 where
  status : g.status ≡ active
  approved_by : g.approved_by ≡ by
  valid_from : g.valid_from ≡ some now
  subject : g.subject ≡ f.subject

module _ (svc : Service) (id : ℕ) (reviewer comment : Text) (s : Session) (q : PromotionRequest)
    (t : Session) (ok : Reviews.approve_promotion svc id reviewer comment s ≡ done q t) where
  approval : Approval id reviewer comment s.now s.db t.db q
  approval = approve_promotion-Approval svc id reviewer comment s q t ok

  -- Where an approval succeeds, the request was found, it was pending or in review, the reviewer did
  -- not propose it, and the state and the review log of the answer are the stored ones.
  pub approve_promotion-done :
      (p : PromotionRequest) × (find promotion_key id s.db.promotions ≡ some p)
      × ((p.state ≡ in_review) ⊎ (p.state ≡ pending))
      × (reviewer ≢ p.proposer)
      × (find promotion_key id t.db.promotions ≡ some (with_state q.state q.reviews s.now p))
  approve_promotion-done =
      let p = approval.request in
      let (_, keyed) = In-find promotion_key p id s.db.promotions approval.found in
      let same = answer-id reviewer comment s.now s.db t.db p q approval.settled in
      let looked =
        find-modify promotion_key (with_state q.state q.reviews s.now) (λ x. refl) id q.id
          s.db.promotions in
      (
        p,
        approval.found,
        is_reviewable-cases p.state approval.reviewable,
        ground (arith, approval.another),
        ground (arith, approval.found, approval.settled.stored),
      )

  -- A promotion that an approval answers as approved has as many approvers as it requires: they are
  -- distinct, each has an approval in the review log, and none is the proposer.
  pub approve_promotion-four_eyes :
      q.state ≡ approved
      → (xs : List Text) × Distinct xs × All (Approved q) xs × (q.required_approvals ≤ length xs)
  approve_promotion-four_eyes h =
      let (enough, _) = approved-enough reviewer s.now s.db t.db _ q approval.settled h in
      (
        distinct_approvers q,
        Distinct-distinct_approvers q,
        In-All (Approved q) (distinct_approvers q) (counted-Approved q),
        enough-length q enough,
      )
