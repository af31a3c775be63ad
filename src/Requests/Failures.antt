-- ===== src/Requests/Failures.antt =====
-- Calls that fail, of internal/promotions/service.go, internal/facts/service.go,
-- internal/reaper/reaper.go and internal/namespaces/repo.go.
use baseline.Facts.{Status, proposed, status_eq}
use baseline.Facts.Key.{valid}
use baseline.Store.Atomic.{
  Atomic-in_tx, Atomic-guard, Reads-guard, Atomic-exec, Atomic->>=, Atomic-total, Atomic-dismiss,
  Atomic-on_pool, Atomic, Atomic-pure, Reads-select, Atomic-raise,
}
use baseline.Promotions.Workflow.Propose.{ProposeInput}
use baseline.Promotions.Workflow.{Service}
use baseline.Store.{
  Tx, guard, Session, Error, invalid_subject, fail, exec, on_pool, Db, promotion_not_found, Outcome,
  done,
}
use baseline.Prelude.{
  ℕ, ◌≡◌, [], ◌∷◌, arith, Text, refl, ◌∙◌, ◌&&◌, Option, none, some, ◌==◌, nat_eq, text_eq, text,
  inl, inr, Option-cases,
}
use baseline.Promotions.{
  PromotionRequest, state_eq, decision_eq, State, changes_requested, request_changes,
}
use baseline.Namespaces.{Policy}
use baseline.Namespaces.{Namespace}
use baseline.Store.{Statement, ◌>>=◌, ◌>>◌, in_tx, invalid_state, namespace_not_found}
use baseline.Store.Atomic.{Reads, Reads-raise, Reads-pure, Reads-on_pool, Reads->>=}
use baseline.Store.Table.{find, modify-absent}
use baseline.Store.Transactions.{in_tx-fail}
use baseline.Promotions.{Decision}
use baseline.Promotions.Workflow.{current_time}
use baseline.Facts.{in_review, rejected}
use baseline.Facts.Repo.{revoke_with_version}
use baseline.Audit.Writer.{write}
use baseline.Store.{pure}
use baseline.Prelude.{length}
use baseline.Requests.{Call, run}
use baseline.Promotions.Repo as Requests
use baseline.Facts.Service as FactService
use baseline.Reaper
use baseline.Namespaces.Repo as Registrar
use baseline.Promotions.Workflow.Propose
use baseline.Promotions.Workflow.Reviews

Atomic-or_namespace_not_found : (o : Option Namespace) → Atomic (Registrar.or_namespace_not_found o)
Atomic-or_namespace_not_found none = Atomic-raise namespace_not_found
Atomic-or_namespace_not_found (some n) = Atomic-pure n

Reads-or_namespace_not_found : (o : Option Namespace) → Reads (Registrar.or_namespace_not_found o)
Reads-or_namespace_not_found none = Reads-raise namespace_not_found
Reads-or_namespace_not_found (some n) = Reads-pure n

abbrev select_namespace : ℕ → Statement (Option Namespace)
select_namespace id now db = some (find Registrar.namespace_key id db.namespaces, db)

Reads-select_namespace : (id : ℕ) → Reads (exec (select_namespace id))
Reads-select_namespace id = Reads-select (λ now db. find Registrar.namespace_key id db.namespaces)

Reads-get_namespace : (id : ℕ) → Reads (Registrar.get id)
unfolding Registrar.get
Reads-get_namespace id =
    Reads-on_pool (exec (select_namespace id) >>= Registrar.or_namespace_not_found) (
      Reads->>= (exec (select_namespace id)) Registrar.or_namespace_not_found
        (Reads-select_namespace id) Reads-or_namespace_not_found)

Atomic-get_namespace : (id : ℕ) → Atomic (Registrar.get id)
unfolding Registrar.get
Atomic-get_namespace id =
    Atomic-on_pool (exec (select_namespace id) >>= Registrar.or_namespace_not_found) (
      Atomic->>= (exec (select_namespace id)) Registrar.or_namespace_not_found
        (Atomic-exec (select_namespace id)) (Reads-select_namespace id)
        Atomic-or_namespace_not_found)

record_latency-fail :
    (svc : Service) (o : Outcome PromotionRequest) (e : Error) (t : Session)
    → Reviews.record_latency svc o ≡ fail e t
    → o ≡ fail e t
record_latency-fail svc (done p s) e t h = absurd (ground arith)
record_latency-fail svc (fail e' s) e t h = h

Atomic-approve_promotion :
    (svc : Service) (id : ℕ) (who comment : Text)
    → Atomic (Reviews.approve_promotion svc id who comment)
unfolding Reviews.approve_promotion
Atomic-approve_promotion svc id who comment = record {
  at = λ s e t h.
      in_tx-fail (Reviews.approve_in_tx svc id who comment) s
        (record_latency-fail svc (in_tx (Reviews.approve_in_tx svc id who comment) s) e t h);
}

apply_suggestion-total :
    (id : ℕ) (suggested : Text) (p : PromotionRequest) (u v : Session) (e : Error)
    → Reviews.apply_suggestion id suggested p u ≡ fail e v
    → ⊥
apply_suggestion-total id [] p u v e h = ground arith
apply_suggestion-total id (c ∷ suggested) p u v e h = ground arith

Atomic-review :
    (id : ℕ) (who : Text) (d : Decision) (comment : Text) (st : State) (to : Status) (action : Text)
    → Atomic (Reviews.review id who d comment st to action)
unfolding Reviews.review
Atomic-review id who d comment st to action = Atomic-in_tx do
  p ← Requests.get_by_id id
  guard (Reviews.is_reviewable p.state) invalid_state
  now ← current_time
  Reviews.save (Reviews.with_review who d comment st now p) to who action

Atomic-transition :
    (id : ℕ) (who : Text) (mutate : PromotionRequest → Tx PromotionRequest) (to : Status)
    (action : Text)
    → Atomic (Reviews.transition id who mutate to action)
unfolding Reviews.transition
Atomic-transition id who mutate to action =
    Atomic-in_tx do p ← Requests.get_by_id id; q ← mutate p; Reviews.save q to who action

Atomic-request_changes_to :
    (id : ℕ) (who comment suggested : Text)
    → Atomic (Reviews.request_changes_to id who comment suggested)
unfolding Reviews.request_changes_to
Atomic-request_changes_to id who comment suggested =
    Atomic-total
      (Reviews.review id who request_changes comment changes_requested proposed
        (text "promotion.changes_requested"))
      (Reviews.apply_suggestion id suggested) (Atomic-review id who _ comment _ _ _)
      (apply_suggestion-total id suggested)

-- An update that finds no row leaves the table.
update_policy-Atomic : (id : ℕ) (p : Policy) → Atomic (Registrar.update_policy id p)
unfolding Registrar.update_policy exec on_pool
update_policy-Atomic id p = record {
  at = λ s e t h. elim (Option-cases (find Registrar.namespace_key id s.db.namespaces)) [
    | inl missing ↦
        let same =
          modify-absent Registrar.namespace_key id (λ (n : Namespace). record n { policy = p })
            s.db.namespaces missing in
        ground arith
    | inr (n, found) ↦ ground arith
  ];
}

existing_or-fail :
    (d : Db) (o : Outcome PromotionRequest) (rest : Tx PromotionRequest) (e : Error) (t : Session)
    → ((e' : Error) (u : Session) → o ≡ fail e' u → u.db ≡ d)
    → Atomic rest
    → Propose.existing_or o rest ≡ fail e t
    → t.db ≡ d
existing_or-fail d (done p u) rest e t k l h = absurd (ground arith)
existing_or-fail d (fail promotion_not_found u) rest e t k l h =
    l.at u e t h ∙ k promotion_not_found u refl
existing_or-fail d (fail e' u) rest e t k l h = ground (arith, k e' u refl)

Atomic-or_promotion_not_found :
    (o : Option PromotionRequest) → Atomic (Requests.or_promotion_not_found o)
Atomic-or_promotion_not_found none = Atomic-raise promotion_not_found
Atomic-or_promotion_not_found (some n) = Atomic-pure n

abbrev first_under : Text → Text → ℕ → Db → Option PromotionRequest
first_under who key now db =
    Requests.first (λ p. p.proposer == who && Requests.is_key key p.idempotency_key) db.promotions

Atomic-find_by_idempotency_key :
    (who key : Text) → Atomic (Requests.find_by_idempotency_key who key)
unfolding Requests.find_by_idempotency_key
Atomic-find_by_idempotency_key who key =
    Atomic->>= (exec (λ now db. some (first_under who key now db, db)))
      Requests.or_promotion_not_found
      (Atomic-exec (λ now db. some (first_under who key now db, db)))
      (Reads-select (first_under who key)) Atomic-or_promotion_not_found

Atomic-unless_repeated :
    (who key : Text) (rest : Tx PromotionRequest)
    → Atomic rest
    → Atomic (Propose.unless_repeated who key rest)
Atomic-unless_repeated who [] rest k = k
Atomic-unless_repeated who (c ∷ key) rest k = record {
  at = λ s e t h.
      existing_or-fail s.db (on_pool (Requests.find_by_idempotency_key who (c ∷ key)) s) rest e t
        ((Atomic-on_pool (Requests.find_by_idempotency_key who (c ∷ key))
            (Atomic-find_by_idempotency_key who (c ∷ key))).at
          s)
        k h;
}

Atomic-propose : (svc : Service) (input : ProposeInput) → Atomic (Propose.propose svc input)
unfolding Propose.propose Propose.propose_new
Atomic-propose svc input =
    Atomic->>= (guard (valid input.subject) invalid_subject) _
      (Atomic-guard (valid input.subject) invalid_subject)
      (Reads-guard (valid input.subject) invalid_subject)
      λ _. Atomic-unless_repeated input.proposer input.idempotency_key _ (
        Atomic->>= (Registrar.get input.target_namespace_id) _
          (Atomic-get_namespace input.target_namespace_id)
          (Reads-get_namespace input.target_namespace_id)
          (λ ns. Atomic-in_tx (
            Propose.propose_in_tx svc input (Propose.at_least_one ns.policy.required_approvals)
              ns.policy.auto_promote)))

run-Atomic : (svc : Service) (c : Call) → Atomic (run svc c)
unfolding run Reviews.submit Reviews.withdraw Reviews.reject_promotion FactService.revoke
    Reaper.reap Registrar.create
run-Atomic svc (Call.propose input) =
    Atomic-dismiss (Propose.propose svc input) (Atomic-propose svc input)
run-Atomic svc (Call.submit id who) =
    Atomic-dismiss (Reviews.submit id who)
      (Atomic-transition id who (Reviews.may_submit who) in_review (text "promotion.submitted"))
run-Atomic svc (Call.approve id who comment) =
    Atomic-dismiss (Reviews.approve_promotion svc id who comment)
      (Atomic-approve_promotion svc id who comment)
run-Atomic svc (Call.reject id who comment) =
    Atomic-dismiss (Reviews.reject_promotion id who comment) (Atomic-review id who _ comment _ _ _)
run-Atomic svc (Call.request_changes id who comment suggested) =
    Atomic-dismiss (Reviews.request_changes_to id who comment suggested)
      (Atomic-request_changes_to id who comment suggested)
run-Atomic svc (Call.withdraw id who) =
    Atomic-dismiss (Reviews.withdraw id who)
      (Atomic-transition id who (Reviews.may_withdraw who) rejected (text "promotion.withdrawn"))
run-Atomic svc (Call.revoke id version who) =
    Atomic-in_tx do revoke_with_version id version; write (FactService.revoked_event who id)
run-Atomic svc Call.reap = Atomic-dismiss Reaper.reap (
    Atomic-in_tx do
      ids ← Reaper.select_stale
      Reaper.expire_all ids
      soon ← Reaper.count_expiring
      pure (record { expired = length ids; expiring_soon = soon }))
run-Atomic svc (Call.create_namespace n) = Atomic-dismiss (Registrar.create n) (
    Atomic-on_pool (exec (Registrar.insert_namespace (Registrar.with_policy n)))
      (Atomic-exec (Registrar.insert_namespace (Registrar.with_policy n))))
run-Atomic svc (Call.update_policy id p) = update_policy-Atomic id p

-- A call that answers an error, whichever it is and whichever statement fails, leaves the database
-- as it was.
pub run-fail :
    (svc : Service) (c : Call) (s t : Session) (e : Error) → run svc c s ≡ fail e t → t.db ≡ s.db
run-fail svc c s t e h = (run-Atomic svc c).at s e t h
