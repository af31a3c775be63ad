-- ===== src/Promotions/Workflow/Reviews/Deciding.antt =====
-- `Approve` of internal/promotions/service.go, from the decision on.
use baseline.Audit.Writer.{logged, write, write-done}
use baseline.Facts.Repo.{fact_key}
use baseline.Store.Table.{find, modify}
use baseline.Promotions.Repo.{promotion_key, with_state}
use baseline.Store.Transactions.{and_then-done}
use baseline.Promotions.Workflow.{Service}
use baseline.Store.{pure, Session, done}
use baseline.Prelude.{
  ◌≡◌, ◌⊎◌, inl, inr, true, false, arith, Text, Bool-cases, ℕ, refl, List, [], ◌∷◌, ◌++◌,
  if◌then◌else◌,
}
use baseline.Promotions.{
  has_enough_approvals, in_review, approved, PromotionRequest, distinct_approvers, approval_count,
  State,
}
use baseline.Promotions.Repo.Rows.{restated, update_state_and_reviews-done}
use baseline.Promotions.Workflow.Reviews
use baseline.Promotions.Workflow.Reviews.Activation.{
  Changes, activating, activation_rows, activate-done,
}
use baseline.Promotions.Workflow.Embedding.{without_vector}
use baseline.Audit.{Row, row}
use baseline.Prelude.{subst, nat_eq, text_eq, ◌==◌}
use baseline.Promotions.{state_eq, decision_eq}
use mathlib.Core.List.{append_assoc}
use baseline.Store.{Db}
use baseline.Prelude.{ap, sym, ◌∙◌}
use baseline.Store.{Tx, ◌>>=◌, ◌>>◌}
use baseline.Promotions.Repo.{update_state_and_reviews}
use mathlib.Core.Option

pub pure-done :
    {A : Type 0} (a : A) (s : Session) (b : A) (t : Session)
    → pure a s ≡ done b t
    → (b ≡ a) × (s ≡ t)
pure-done a s b t h = (ground arith, ground arith)

-- The two ways that `decide` goes.
decide-done :
    (svc : Service) (p : PromotionRequest) (who : Text) (s : Session) (q : PromotionRequest)
    (t : Session)
    → Reviews.decide svc p who s ≡ done q t
    → ((has_enough_approvals p ≡ true)
        × (q ≡ record p { state = approved })
        × Changes s t
            (activating (record p { state = approved }) s.now)
            (activation_rows who (record p { state = approved }) s.now))
      ⊎ ((has_enough_approvals p ≡ false) × (q ≡ record p { state = in_review }) × (t ≡ s))
decide-done svc p who s q t h = elim (Bool-cases (has_enough_approvals p)) [
  | inl enough ↦
      let (_, u, e, e') =
        and_then-done (Reviews.activate svc (record p { state = approved }) who s)
          (λ _. pure (record p { state = approved })) q t (ground arith) in
      let c = activate-done svc (record p { state = approved }) who s u e in
      let (same, u_is) = pure-done (record p { state = approved }) u q t e' in
      inl (
        enough,
        same,
        subst
            (λ v.
              Changes s v (activating (record p { state = approved }) s.now)
                (activation_rows who (record p { state = approved }) s.now))
            u_is c,
      )
  | inr short ↦ inr (short, ground arith, ground arith)
]

-- The rows that an approval adds to the audit log.
abbrev pub approval_rows : Text → PromotionRequest → ℕ → List Row
approval_rows who q now =
    (if q.state == approved then activation_rows who q now else [])
    ++ row now (Reviews.approved_event who q) ∷ []

-- What an approval that succeeds has decided and written, where `r` is the request with the approval
-- in its log, and `q` the answer.
pub record Decided (who : Text) (now : ℕ) (d d' : Db) (r q : PromotionRequest) : Type 0 where
  pub answer : q ≡ record r { state = q.state }
  pub stored :
      d'.promotions ≡ modify promotion_key q.id (with_state q.state q.reviews now) d.promotions
  pub logs : d'.audit_events ≡ d.audit_events ++ approval_rows who q now
  pub decided :
      ((q.state ≡ approved)
        × (has_enough_approvals q ≡ true)
        × ((j : ℕ)
            → Option.map without_vector (find fact_key j d'.facts)
              ≡ Option.map without_vector (activating q now j (find fact_key j d.facts))))
      ⊎ ((q.state ≡ in_review) × (has_enough_approvals q ≡ false) × (d'.facts ≡ d.facts))

pub enough-state :
    (p : PromotionRequest) (st : State)
    → has_enough_approvals (record p { state = st }) ≡ has_enough_approvals p
unfolding has_enough_approvals approval_count distinct_approvers
enough-state p st = refl

-- The session after the two statements that follow the decision.
abbrev finished : Text → PromotionRequest → Session → Session
finished who q u = logged (restated u q.id q.state q.reviews) (Reviews.approved_event who q)

approved-rows :
    (who : Text) (q : PromotionRequest) (now : ℕ)
    → q.state ≡ approved
    → approval_rows who q now
      ≡ activation_rows who q now ++ row now (Reviews.approved_event who q) ∷ []
approved-rows who q now e = ground arith

in_review-rows :
    (who : Text) (q : PromotionRequest) (now : ℕ)
    → q.state ≡ in_review
    → approval_rows who q now ≡ row now (Reviews.approved_event who q) ∷ []
in_review-rows who q now e = ground arith

approved-Decided :
    (who : Text) (s u : Session) (r q : PromotionRequest)
    → q ≡ record r { state = approved }
    → has_enough_approvals q ≡ true
    → Changes s u (activating q s.now) (activation_rows who q s.now)
    → Decided who s.now s.db (finished who q u).db r q
approved-Decided who s u r q is enough c =
    let assoc =
      append_assoc s.db.audit_events (activation_rows who q s.now)
        (row s.now (Reviews.approved_event who q) ∷ []) in
    let now_is = c.same_time in
    let fr = c.frame in
    record {
      answer = ground arith;
      stored =
          ap (λ n. modify promotion_key q.id (with_state q.state q.reviews n) u.db.promotions)
            now_is
          ∙ ap
              (λ (d : Db).
                modify promotion_key q.id (with_state q.state q.reviews s.now) d.promotions)
              fr;
      logs =
          ap (λ n. u.db.audit_events ++ row n (Reviews.approved_event who q) ∷ []) now_is
          ∙ ap (λ (d : Db). d.audit_events ++ row s.now (Reviews.approved_event who q) ∷ []) fr
          ∙ assoc
          ∙ ap (λ xs. s.db.audit_events ++ xs) (sym (approved-rows who q s.now (ground arith)));
      decided = inl (ground arith, enough, c.looked);
    }

in_review-Decided :
    (who : Text) (s : Session) (r q : PromotionRequest)
    → q ≡ record r { state = in_review }
    → has_enough_approvals q ≡ false
    → Decided who s.now s.db (finished who q s).db r q
in_review-Decided who s r q is short = record {
  answer = ground arith;
  stored = refl;
  logs = ap (λ xs. s.db.audit_events ++ xs) (sym (in_review-rows who q s.now (ground arith)));
  decided = inr (ground arith, short, refl);
}

-- The steps of `Approve` from the decision on.
abbrev pub after_decision : Text → PromotionRequest → Tx PromotionRequest
after_decision who q = do
  update_state_and_reviews q.id q.state q.reviews
  write (Reviews.approved_event who q)
  pure q

after_decision-done :
    (who : Text) (q : PromotionRequest) (u : Session) (a : PromotionRequest) (t : Session)
    → after_decision who q u ≡ done a t
    → (a ≡ q) × (t ≡ finished who q u)
after_decision-done who q u a t h =
    let (_, v, e, e1) =
      and_then-done (update_state_and_reviews q.id q.state q.reviews u)
        (λ _. write (Reviews.approved_event who q) >> pure q) a t h in
    let (_, w, e2, e3) =
      and_then-done (write (Reviews.approved_event who q) v) (λ _. pure q) a t e1 in
    let v_is = update_state_and_reviews-done q.id q.state q.reviews u v e in
    let w_is = write-done (Reviews.approved_event who q) v w e2 in
    let (a_is, w_t) = pure-done q w a t e3 in
    (a_is, sym w_t ∙ w_is ∙ ap (λ x. logged x (Reviews.approved_event who q)) v_is)

pub decide-Decided :
    (svc : Service) (who : Text) (r : PromotionRequest) (s : Session) (a : PromotionRequest)
    (t : Session)
    → (Reviews.decide svc r who >>= after_decision who) s ≡ done a t
    → Decided who s.now s.db t.db r a
decide-Decided svc who r s a t h =
    let (q, u, e, e1) = and_then-done (Reviews.decide svc r who s) (after_decision who) a t h in
    let (a_is, t_is) = after_decision-done who q u a t e1 in
    let d : Decided who s.now s.db (finished who q u).db r q =
      elim (decide-done svc r who s q u e) [
        | inl (enough, q_is, c) ↦
            approved-Decided who s u r q q_is
              (ap has_enough_approvals q_is ∙ enough-state r approved ∙ enough)
              (subst (λ x. Changes s u (activating x s.now) (activation_rows who x s.now))
                (sym q_is) c)
        | inr (short, q_is, u_is) ↦
            subst (λ x. Decided who s.now s.db (finished who q x).db r q) (sym u_is)
              (in_review-Decided who s r q q_is
                (ap has_enough_approvals q_is ∙ enough-state r in_review ∙ short))
      ] in
    subst (λ (x : Session). Decided who s.now s.db x.db r a) (sym t_is)
      (subst (λ x. Decided who s.now s.db (finished who q u).db r x) (sym a_is) d)
