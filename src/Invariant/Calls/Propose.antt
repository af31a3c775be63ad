-- ===== src/Invariant/Calls/Propose.antt =====
-- Proposing, with or without an engine (internal/promotions/service.go), keeps what its statements keep.
use baseline.Facts.Key.{canonical_key, valid}
use baseline.Audit.Writer.{write}
use baseline.Promotions.Repo.{find_by_idempotency_key, update_state_and_reviews}
use baseline.Prelude.{
  ℕ, ◌≤◌, ap, Option, none, some, [], ◌∷◌, arith, ◌==◌, nat_eq, Text, text_eq, ◌++◌, text,
}
use baseline.Facts.Repo
use baseline.Facts.{Fact, status_eq}
use baseline.Invariant.Calls
use baseline.Invariant.Laws.{Laws}
use baseline.AutoPromote.{Registry, Decision, EngineError, evaluate}
use baseline.Namespaces.Repo as Registrar
use baseline.Namespaces.{AutoPromote}
use baseline.Promotions.Workflow.Propose
use baseline.Promotions.Workflow.Propose.{ProposeInput}
use baseline.Promotions.Workflow.{Service}
use baseline.Promotions.{PromotionRequest, state_eq, decision_eq, approved}
use baseline.Store.Keeps.{
  Keeps, session, Keeps->>=, Keeps->>, Keeps-pure, Keeps-raise, Keeps-guard, Keeps-ignore,
  Keeps-in_tx, Keeps-on_pool, Keeps-if,
}
use baseline.Store.{
  Db, ◌>>◌, Outcome, done, fail, Tx, fact_not_found, promotion_not_found, pure, ignore, on_pool,
  invalid_subject,
}

module _ (P : Db → Type 0) (laws : Laws P) where
  or_leave-Keeps :
      (o : Outcome (Unit {0})) (p : PromotionRequest) (rest : Tx PromotionRequest)
      → P (session o).db
      → Keeps P rest
      → P (session (Propose.or_leave o p rest)).db
  or_leave-Keeps (done a s) p rest v k = k.at s v
  or_leave-Keeps (fail e s) p rest v k = v

  Keeps-or_leave :
      (m : Tx (Unit {0})) (p : PromotionRequest) (rest : Tx PromotionRequest)
      → Keeps P m
      → Keeps P rest
      → Keeps P (λ s. Propose.or_leave (m s) p rest)
  Keeps-or_leave m p rest k l = record { at = λ s v. or_leave-Keeps (m s) p rest (k.at s v) l }

  auto_supersede-Keeps :
      (who : Text) (o : Option ℕ) (id : ℕ) → Keeps P (Propose.auto_supersede who o id)
  auto_supersede-Keeps who none id = Keeps-pure P
  auto_supersede-Keeps who (some old_id) id =
      Keeps->> P (Calls.supersede-Keeps P laws old_id id)
        (Keeps-ignore P (Calls.write-Keeps P laws (Propose.auto_superseded_event who old_id id)))

  mark_approved-Keeps :
      (engine : Text) (d : Decision) (p : PromotionRequest)
      → Keeps P (Propose.mark_approved engine d p)
  mark_approved-Keeps engine d p =
      Keeps-or_leave (update_state_and_reviews p.id p.state p.reviews) p
        (ignore (write (Propose.auto_promoted_event engine d p)) >> pure p)
        (Calls.update_state-Keeps P laws p.id p.state p.reviews)
        (Keeps->> P
          (Keeps-ignore P (Calls.write-Keeps P laws (Propose.auto_promoted_event engine d p)))
          (Keeps-pure P {a = p}))

  auto_activate-Keeps :
      (svc : Service) (engine : Text) (d : Decision) (p : PromotionRequest)
      → Keeps P (Propose.auto_activate svc engine d p)
  unfolding Propose.auto_activate
  auto_activate-Keeps svc engine d p =
      Keeps-or_leave (Propose.auto_supersede (text "engine:" ++ engine) p.conflict_with p.fact_id) p
        _ (auto_supersede-Keeps (text "engine:" ++ engine) p.conflict_with p.fact_id)
        (Keeps-or_leave (Repo.activate_auto p.fact_id) p _
          (Calls.activate_auto-Keeps P laws p.fact_id)
          (Keeps->> P (Calls.embed_after_activation-Keeps P laws svc p.fact_id)
            (mark_approved-Keeps engine d (record p { state = approved }))))

  follow-Keeps :
      (svc : Service) (engine : Text) (p : PromotionRequest) (v : Decision × Option EngineError)
      → Keeps P (Propose.follow svc engine p v)
  follow-Keeps svc engine p (d, some err) = Keeps-pure P
  follow-Keeps svc engine p (d, none) =
      Keeps-if P d.auto_promote (auto_activate-Keeps svc engine d p) (Keeps-pure P {a = p})

  consult-Keeps :
      (svc : Service) (r : Option Registry) (ap : Option AutoPromote) (p : PromotionRequest)
      (input : ProposeInput)
      → Keeps P (Propose.consult svc r ap p input)
  consult-Keeps svc none ap p input = Keeps-pure P
  consult-Keeps svc (some engines) none p input = Keeps-pure P
  consult-Keeps svc (some engines) (some ap) p input =
      Keeps-if P (ap.engine == []) (Keeps-pure P {a = p}) (
        follow-Keeps svc ap.engine p
          (evaluate engines ap.engine (Propose.candidate input) ap.rules))

  conflict_of-keeps : (o : Outcome Fact) → P (session o).db → P (session (Propose.conflict_of o)).db
  conflict_of-keeps (done f s) v = v
  conflict_of-keeps (fail fact_not_found s) v = v
  conflict_of-keeps (fail _ s) v = v

  detect_conflict-Keeps : (ns : ℕ) (key : Text) → Keeps P (Propose.detect_conflict ns key)
  unfolding Propose.detect_conflict
  detect_conflict-Keeps ns key = record {
    at = λ s v.
        conflict_of-keeps (Repo.find_active_by_key ns key s)
          ((Calls.find_active-Keeps P laws ns key).at s v);
  }

  propose_in_tx-Keeps :
      (svc : Service) (input : ProposeInput) (required : ℕ) (ap : Option AutoPromote)
      → 1 ≤ required
      → Keeps P (Propose.propose_in_tx svc input required ap)
  unfolding Propose.propose_in_tx Propose.maybe_auto_promote
  propose_in_tx-Keeps svc input required ap h =
      let key = canonical_key input.subject in
      Keeps->>= P (detect_conflict-Keeps input.target_namespace_id key) λ c.
        Keeps->>= P (Calls.insert-Keeps P laws (Propose.proposed_fact input)) λ f.
          Keeps->>= P
            (Calls.insert_request-Keeps P laws (Propose.proposed_promotion input f.id required c) h)
            λ p.
              Keeps->> P (Calls.write-Keeps P laws (Propose.proposed_event input p f.id key c))
                (consult-Keeps svc svc.engines ap p input)

  get_namespace-Keeps : (id : ℕ) → Keeps P (Registrar.get id)
  unfolding Registrar.get
  get_namespace-Keeps id = Keeps-on_pool P (
      Keeps->>= P (Calls.Keeps-select P laws _) λ o.
        elim o as (λ x. Keeps P (Registrar.or_namespace_not_found x)) [
          | none ↦ Keeps-raise P
          | some n ↦ Keeps-pure P
        ])

  at_least_one-pos : (n : ℕ) → 1 ≤ Propose.at_least_one n
  at_least_one-pos n = ground arith

  propose_new-Keeps :
      (svc : Service) (input : ProposeInput) → Keeps P (Propose.propose_new svc input)
  unfolding Propose.propose_new
  propose_new-Keeps svc input = Keeps->>= P (get_namespace-Keeps input.target_namespace_id) λ n.
      Keeps-in_tx P (
        propose_in_tx-Keeps svc input _ n.policy.auto_promote
          (at_least_one-pos n.policy.required_approvals))

  existing_or-Keeps :
      (o : Outcome PromotionRequest) (rest : Tx PromotionRequest)
      → P (session o).db
      → Keeps P rest
      → P (session (Propose.existing_or o rest)).db
  existing_or-Keeps (done p s) rest v k = v
  existing_or-Keeps (fail promotion_not_found s) rest v k = k.at s v
  existing_or-Keeps (fail _ s) rest v k = v

  unless_repeated-Keeps :
      (who key : Text) (rest : Tx PromotionRequest)
      → Keeps P rest
      → Keeps P (Propose.unless_repeated who key rest)
  unless_repeated-Keeps who [] rest k = k
  unless_repeated-Keeps who (c ∷ key) rest k = record {
    at = λ s v.
        existing_or-Keeps (on_pool (find_by_idempotency_key who (c ∷ key)) s) rest
          ((Keeps-on_pool P (Calls.find_by_idempotency_key-Keeps P laws who (c ∷ key))).at s v) k;
  }

  pub propose-Keeps : (svc : Service) (input : ProposeInput) → Keeps P (Propose.propose svc input)
  unfolding Propose.propose
  propose-Keeps svc input = Keeps->> P (Keeps-guard P (valid input.subject) invalid_subject) (
      unless_repeated-Keeps input.proposer input.idempotency_key (Propose.propose_new svc input)
        (propose_new-Keeps svc input))
