-- ===== src/Invariant/Calls/Review.antt =====
-- The review operations of internal/promotions/service.go keep what their statements keep.
use baseline.Prelude.{ℕ, Option, none, some, [], ◌∷◌, ◌==◌, nat_eq, Text, text_eq, arith, not, text}
use baseline.Facts.{Status, status_eq}
use baseline.Invariant.Calls
use baseline.Invariant.Laws.{Laws}
use baseline.Promotions.Workflow.Reviews
use baseline.Promotions.Workflow.{Service}
use baseline.Promotions.{
  PromotionRequest, Decision, State, has_enough_approvals, state_eq, decision_eq, approved,
  in_review, changes_requested, rejected, reject, request_changes,
}
use baseline.Store.Keeps.{
  Keeps, session, Keeps->>=, Keeps->>, Keeps-pure, Keeps-guard, Keeps-ignore, Keeps-in_tx,
  Keeps-on_pool, Keeps-if,
}
use baseline.Store.{Db, Outcome, done, fail, Tx, not_proposer, invalid_state, self_approval, in_tx}

module _ (P : Db → Type 0) (laws : Laws P) where
  save-Keeps :
      (p : PromotionRequest) (to : Status) (who action : Text)
      → Keeps P (Reviews.save p to who action)
  unfolding Reviews.save
  save-Keeps p to who action = Keeps->> P (Calls.update_state-Keeps P laws p.id p.state p.reviews) (
      Keeps->> P (Calls.set_status-Keeps P laws p.fact_id to) (
        Keeps->> P (Calls.write-Keeps P laws (Reviews.promotion_event who action p))
          (Keeps-pure P {a = p})))

  transition-Keeps :
      (id : ℕ) (who : Text) (mutate : PromotionRequest → Tx PromotionRequest) (to : Status)
      (action : Text)
      → ((p : PromotionRequest) → Keeps P (mutate p))
      → Keeps P (Reviews.transition id who mutate to action)
  unfolding Reviews.transition
  transition-Keeps id who mutate to action k = Keeps-in_tx P (
      Keeps->>= P (Calls.get_by_id-Keeps P laws id)
        λ p. Keeps->>= P (k p) λ q. save-Keeps q to who action)

  may_submit-Keeps : (who : Text) (p : PromotionRequest) → Keeps P (Reviews.may_submit who p)
  may_submit-Keeps who p = Keeps->> P (Keeps-guard P (Reviews.is_open p.state) invalid_state) (
      Keeps->> P (Keeps-guard P (p.proposer == who) not_proposer)
        (Keeps-pure P {a = record p { state = in_review }}))

  may_withdraw-Keeps : (who : Text) (p : PromotionRequest) → Keeps P (Reviews.may_withdraw who p)
  may_withdraw-Keeps who p = Keeps->> P (Keeps-guard P (p.proposer == who) not_proposer) (
      Keeps->> P (Keeps-guard P (Reviews.is_open p.state) invalid_state)
        (Keeps-pure P {a = record p { state = rejected }}))

  pub submit-Keeps : (id : ℕ) (who : Text) → Keeps P (Reviews.submit id who)
  unfolding Reviews.submit
  submit-Keeps id who =
      transition-Keeps id who (Reviews.may_submit who) Status.in_review (text "promotion.submitted")
        (may_submit-Keeps who)

  pub withdraw-Keeps : (id : ℕ) (who : Text) → Keeps P (Reviews.withdraw id who)
  unfolding Reviews.withdraw
  withdraw-Keeps id who =
      transition-Keeps id who (Reviews.may_withdraw who) Status.rejected
        (text "promotion.withdrawn") (may_withdraw-Keeps who)

  review-Keeps :
      (id : ℕ) (who : Text) (d : Decision) (comment : Text) (st : State) (to : Status)
      (action : Text)
      → Keeps P (Reviews.review id who d comment st to action)
  unfolding Reviews.review
  review-Keeps id who d comment st to action = Keeps-in_tx P (
      Keeps->>= P (Calls.get_by_id-Keeps P laws id) λ p.
        Keeps->> P (Keeps-guard P (Reviews.is_reviewable p.state) invalid_state) (record {
          at = λ s v.
              (save-Keeps (Reviews.with_review who d comment st s.now p) to who action).at s v;
        }))

  pub reject_promotion-Keeps :
      (id : ℕ) (who comment : Text) → Keeps P (Reviews.reject_promotion id who comment)
  unfolding Reviews.reject_promotion
  reject_promotion-Keeps id who comment =
      review-Keeps id who reject comment rejected Status.rejected (text "promotion.rejected")

  apply_suggestion-Keeps :
      (id : ℕ) (suggested : Text) (p : PromotionRequest)
      → Keeps P (Reviews.apply_suggestion id suggested p)
  apply_suggestion-Keeps id [] p = Keeps-pure P
  apply_suggestion-Keeps id (c ∷ suggested) p =
      Keeps->> P
        (Keeps-ignore P (Keeps-on_pool P (Calls.update_statement-Keeps P laws id (c ∷ suggested))))
        (Keeps-pure P {a = record p { proposed_statement = c ∷ suggested }})

  pub request_changes_to-Keeps :
      (id : ℕ) (who comment suggested : Text)
      → Keeps P (Reviews.request_changes_to id who comment suggested)
  unfolding Reviews.request_changes_to
  request_changes_to-Keeps id who comment suggested =
      Keeps->>= P
        (review-Keeps id who request_changes comment changes_requested Status.proposed
          (text "promotion.changes_requested"))
        (apply_suggestion-Keeps id suggested)

  supersede_conflict-Keeps :
      (who : Text) (o : Option ℕ) (id : ℕ) → Keeps P (Reviews.supersede_conflict who o id)
  supersede_conflict-Keeps who none id = Keeps-pure P
  supersede_conflict-Keeps who (some old_id) id =
      Keeps->> P (Calls.supersede-Keeps P laws old_id id)
        (Calls.write-Keeps P laws (Reviews.superseded_event who old_id id))

  activate-Keeps :
      (svc : Service) (p : PromotionRequest) (who : Text) → Keeps P (Reviews.activate svc p who)
  unfolding Reviews.activate
  activate-Keeps svc p who = Keeps->> P (supersede_conflict-Keeps who p.conflict_with p.fact_id) (
      Keeps->> P
        (Calls.activate-Keeps P laws p.fact_id (Reviews.collect_approvers p.proposer [] p.reviews))
        (Keeps->> P (Calls.embed_after_activation-Keeps P laws svc p.fact_id)
          (Calls.write-Keeps P laws (Reviews.activated_event who p.fact_id))))

  decide-Keeps :
      (svc : Service) (p : PromotionRequest) (who : Text) → Keeps P (Reviews.decide svc p who)
  decide-Keeps svc p who =
      Keeps-if P (has_enough_approvals p)
        (Keeps->> P (activate-Keeps svc (record p { state = approved }) who)
          (Keeps-pure P {a = record p { state = approved }}))
        (Keeps-pure P {a = record p { state = in_review }})

  approve_in_tx-Keeps :
      (svc : Service) (id : ℕ) (who comment : Text)
      → Keeps P (Reviews.approve_in_tx svc id who comment)
  unfolding Reviews.approve_in_tx
  approve_in_tx-Keeps svc id who comment = Keeps->>= P (Calls.get_by_id-Keeps P laws id) λ p.
      Keeps->> P (Keeps-guard P (Reviews.is_reviewable p.state) invalid_state) (
        Keeps->> P (Keeps-guard P (not (who == p.proposer)) self_approval) (record {
          at = λ s v.
              (Keeps->>= P (decide-Keeps svc (Reviews.with_approval who comment s.now p) who) λ q.
                  Keeps->> P (Calls.update_state-Keeps P laws q.id q.state q.reviews) (
                    Keeps->> P (Calls.write-Keeps P laws (Reviews.approved_event who q))
                      (Keeps-pure P {a = q}))).at
                s v;
        }))

  record_latency-keeps :
      (svc : Service) (o : Outcome PromotionRequest)
      → P (session o).db
      → P (session (Reviews.record_latency svc o)).db
  record_latency-keeps svc (done p s) v = ground arith
  record_latency-keeps svc (fail e s) v = v

  pub approve_promotion-Keeps :
      (svc : Service) (id : ℕ) (who comment : Text)
      → Keeps P (Reviews.approve_promotion svc id who comment)
  unfolding Reviews.approve_promotion
  approve_promotion-Keeps svc id who comment = record {
    at = λ s v.
        record_latency-keeps svc (in_tx (Reviews.approve_in_tx svc id who comment) s)
          ((Keeps-in_tx P (approve_in_tx-Keeps svc id who comment)).at s v);
  }
