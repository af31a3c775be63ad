-- ===== src/Invariant/Calls.antt =====
-- The operations of internal/facts/repo.go, internal/promotions/repo.go and internal/audit keep every
-- property that their statements keep, with any fault of the connection.
pub mod Review
pub mod Propose
pub mod Others
use baseline.Prelude.{
  ℕ, ◌≤◌, refl, Bool, true, false, Option, none, some, List, [], ◌∷◌, ◌++◌, arith, Text, ℤ,
}
use baseline.Audit.Writer.{write}
use baseline.Audit.{Event, row}
use baseline.Facts.Repo
use baseline.Facts.{Fact, Status, revoked}
use baseline.Facts.Key.{canonical_key}
use baseline.Invariant.Laws.{Laws}
use baseline.Promotions.Repo as Requests
use baseline.Promotions.Workflow
use baseline.Promotions.Workflow.{Service}
use baseline.Promotions.{PromotionRequest, Review as Reviewed, State}
use baseline.Store.Keeps.{
  Keeps, session, Keeps-exec, Sound-select, Keeps->>=, Keeps->>, Keeps-pure, Keeps-raise,
  Keeps-guard, Keeps-ignore,
}
use baseline.Store.{Session, Outcome, done, fail, exec, Db, fact_not_found, promotion_not_found}

module _ (P : Db → Type 0) (laws : Laws P) where
  pub Keeps-select : {A : Type 0} (q : ℕ → Db → A) → Keeps P (exec (λ now db. some (q now db, db)))
  Keeps-select q = Keeps-exec P (Sound-select P q)

  pub write-Keeps : (e : Event) → Keeps P (write e)
  unfolding write
  write-Keeps e = Keeps-exec P (laws.append_event e)

  pub get-Keeps : (id : ℕ) → Keeps P (Repo.get id)
  unfolding Repo.get
  get-Keeps id = Keeps->>= P (Keeps-select _) λ o.
      elim o as (λ x. Keeps P (Repo.or_fact_not_found x)) [
        | none ↦ Keeps-raise P
        | some f ↦ Keeps-pure P
      ]

  pub find_active-Keeps : (ns : ℕ) (key : Text) → Keeps P (Repo.find_active_by_key ns key)
  unfolding Repo.find_active_by_key
  find_active-Keeps ns key = Keeps->>= P (Keeps-select _) λ o.
      elim o as (λ x. Keeps P (Repo.or_fact_not_found x)) [
        | none ↦ Keeps-raise P
        | some f ↦ Keeps-pure P
      ]

  pub insert-Keeps : (f : Fact) → Keeps P (Repo.insert f)
  unfolding Repo.insert
  insert-Keeps f = Keeps-exec P (laws.insert_fact f)

  pub set_embedding-Keeps : (id : ℕ) (vec : List ℕ) → Keeps P (Repo.set_embedding id vec)
  unfolding Repo.set_embedding
  set_embedding-Keeps id vec =
      Keeps->> P
        (Keeps-exec P (
          laws.update_fact id Repo.any_row (Repo.with_vector vec)
            (λ now f. (refl, refl, refl, refl)) (λ now f. (refl, omega arith))))
        (Keeps-pure P)

  pub set_status-Keeps : (id : ℕ) (to : Status) → Keeps P (Repo.set_status id to)
  unfolding Repo.set_status
  set_status-Keeps id to =
      Keeps->>= P
        (Keeps-exec P (
          laws.update_fact id Repo.any_row (Repo.stamp to) (λ now f. (refl, refl, refl, refl))
            (λ now f. (refl, omega arith))))
        λ hit. Keeps-guard P hit fact_not_found

  pub activate-Keeps : (id : ℕ) (by : List Text) → Keeps P (Repo.activate id by)
  unfolding Repo.activate
  activate-Keeps id by =
      Keeps->>= P
        (Keeps-exec P (
          laws.update_fact id Repo.any_row (Repo.activated by) (λ now f. (refl, refl, refl, refl))
            (λ now f. (refl, omega arith))))
        λ hit. Keeps-guard P hit fact_not_found

  pub activate_auto-Keeps : (id : ℕ) → Keeps P (Repo.activate_auto id)
  unfolding Repo.activate_auto
  activate_auto-Keeps id =
      Keeps->>= P
        (Keeps-exec P (
          laws.update_fact id Repo.any_row (Repo.auto_activated) (λ now f. (refl, refl, refl, refl))
            (λ now f. (refl, omega arith))))
        λ hit. Keeps-guard P hit fact_not_found

  pub supersede-Keeps : (old_id new_id : ℕ) → Keeps P (Repo.supersede old_id new_id)
  unfolding Repo.supersede
  supersede-Keeps old_id new_id =
      Keeps->> P
        (Keeps-exec P (
          laws.update_fact old_id Repo.any_row (Repo.superseded_with new_id)
            (λ now f. (refl, refl, refl, refl)) (λ now f. (refl, omega arith))))
        (Keeps->> P
          (Keeps-exec P (
            laws.update_fact new_id Repo.any_row (Repo.linked_to old_id)
              (λ now f. (refl, refl, refl, refl)) (λ now f. (refl, omega arith))))
          (Keeps-pure P))

  diagnose-keeps : (o : Outcome Fact) → P (session o).db → P (session (Repo.diagnose o)).db
  diagnose-keeps (done f s) v = ground arith
  diagnose-keeps (fail fact_not_found s) v = v
  diagnose-keeps (fail _ s) v = v

  revoked_or_diagnose-Keeps : (id : ℕ) (hit : Bool) → Keeps P (Repo.revoked_or_diagnose id hit)
  revoked_or_diagnose-Keeps id true = record { at = λ s v. v }
  revoked_or_diagnose-Keeps id false = record {
    at = λ s v. diagnose-keeps (Repo.get id s) ((get-Keeps id).at s v);
  }

  pub revoke_with_version-Keeps : (id : ℕ) (v : ℤ) → Keeps P (Repo.revoke_with_version id v)
  unfolding Repo.revoke_with_version
  revoke_with_version-Keeps id v =
      Keeps->>= P
        (Keeps-exec P (
          laws.update_fact id (Repo.is_current v) (Repo.stamp revoked)
            (λ now f. (refl, refl, refl, refl)) (λ now f. (refl, omega arith))))
        (revoked_or_diagnose-Keeps id)

  pub get_by_id-Keeps : (id : ℕ) → Keeps P (Requests.get_by_id id)
  unfolding Requests.get_by_id
  get_by_id-Keeps id = Keeps->>= P (Keeps-select _) λ o.
      elim o as (λ x. Keeps P (Requests.or_promotion_not_found x)) [
        | none ↦ Keeps-raise P
        | some p ↦ Keeps-pure P
      ]

  pub find_by_idempotency_key-Keeps :
      (who key : Text) → Keeps P (Requests.find_by_idempotency_key who key)
  unfolding Requests.find_by_idempotency_key
  find_by_idempotency_key-Keeps who key = Keeps->>= P (Keeps-select _) λ o.
      elim o as (λ x. Keeps P (Requests.or_promotion_not_found x)) [
        | none ↦ Keeps-raise P
        | some p ↦ Keeps-pure P
      ]

  pub insert_request-Keeps :
      (p : PromotionRequest) → 1 ≤ p.required_approvals → Keeps P (Requests.insert_promotion p)
  unfolding Requests.insert_promotion
  insert_request-Keeps p h = Keeps-exec P (laws.insert_promotion p h)

  pub update_state-Keeps :
      (id : ℕ) (st : State) (rs : List Reviewed)
      → Keeps P (Requests.update_state_and_reviews id st rs)
  unfolding Requests.update_state_and_reviews
  update_state-Keeps id st rs =
      Keeps->>= P
        (Keeps-exec P
          (laws.update_promotion id (Requests.with_state st rs) (λ now p. (refl, refl))))
        λ hit. Keeps-guard P hit promotion_not_found

  pub update_statement-Keeps : (id : ℕ) (st : Text) → Keeps P (Requests.update_statement id st)
  unfolding Requests.update_statement
  update_statement-Keeps id st =
      Keeps->> P
        (Keeps-exec P
          (laws.update_promotion id (Requests.with_statement st) (λ now p. (refl, refl))))
        (Keeps-pure P)

  store_vector-Keeps : (id : ℕ) (o : Option (List ℕ)) → Keeps P (Workflow.store_vector id o)
  store_vector-Keeps id none = Keeps-pure P
  store_vector-Keeps id (some vec) = Keeps-ignore P (set_embedding-Keeps id vec)

  embed_with-Keeps :
      (e : Option (Text → Option (List ℕ))) (id : ℕ) (f : Fact)
      → Keeps P (Workflow.embed_with e id f)
  embed_with-Keeps none id f = Keeps-pure P
  embed_with-Keeps (some embed) id f = store_vector-Keeps id _

  embed_found-keeps :
      (svc : Service) (id : ℕ) (o : Outcome Fact)
      → P (session o).db
      → P (session (Workflow.embed_found svc id o)).db
  unfolding Workflow.embed_activated_fact
  embed_found-keeps svc id (done f s) v = (embed_with-Keeps svc.embedder id f).at s v
  embed_found-keeps svc id (fail e s) v = v

  pub embed_after_activation-Keeps :
      (svc : Service) (id : ℕ) → Keeps P (Workflow.embed_after_activation svc id)
  unfolding Workflow.embed_after_activation
  embed_after_activation-Keeps svc id = record {
    at = λ s v. embed_found-keeps svc id (Repo.get id s) ((get-Keeps id).at s v);
  }
