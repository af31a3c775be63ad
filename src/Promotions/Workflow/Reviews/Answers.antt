-- ===== src/Promotions/Workflow/Reviews/Answers.antt =====
-- `Submit` of internal/promotions/service.go where the connection holds.
use baseline.Audit.Writer.{write, logged}
use baseline.Facts.Repo as Rows
use baseline.Facts.Repo.{fact_key, admits, references, has_width, set_status, stamp}
use baseline.Facts.Service.Answers.{columns_hold}
use baseline.Facts.{Fact, Status, active, status_eq, Status-discrete}
use baseline.Prelude.{
  ℕ, suc, ◌≡◌, refl, true, false, Option, none, some, List, arith, Text, In, inl, inr, Bool-cases,
  nat_eq, if◌then◌else◌, ◌==◌, text_eq, text, ◌⊎◌, [], ◌∷◌, ◌++◌,
}
use baseline.Promotions.Repo as Requests
use baseline.Promotions.Repo.Rows.{restated}
use baseline.Promotions.Repo.{promotion_key, get_by_id, with_state, update_state_and_reviews}
use baseline.Promotions.Workflow.Reviews.{
  is_open, may_submit, promotion_event, save, submit, transition,
}
use baseline.Audit.{row}
use baseline.Promotions.{PromotionRequest, in_review, state_eq}
use baseline.Store.Table.{find, modify, In-find}
use baseline.Store.Transactions.{begin}
use baseline.Store.{
  Db, conclude, and_then, Session, Outcome, done, fail, Error, exec, in_tx, promotion_not_found,
  not_proposer, invalid_state, ◌>>=◌,
}

-- What a caller sees of a call: its answer or its error, and the database afterwards.
abbrev pub seen : {A : Type 0} → Outcome A → (Error ⊎ A) × Db
seen (done a s) = (inr a, s.db)
seen (fail e s) = (inl e, s.db)

abbrev pub in_review_of : PromotionRequest → PromotionRequest
in_review_of p = record p { state = in_review }

-- The database after `who` has submitted request `p`.
abbrev pub submitted_in : Text → ℕ → PromotionRequest → Db → Db
submitted_in who now p db = record db {
  promotions = modify promotion_key p.id (with_state in_review p.reviews now) db.promotions;
  facts = modify fact_key p.fact_id (stamp Status.in_review now) db.facts;
  audit_events =
      db.audit_events
      ++ row now (promotion_event who (text "promotion.submitted") (in_review_of p)) ∷ [];
}

-- What a submission comes to, by the request with the ID, if there is one.
abbrev pub submission : Text → ℕ → Db → Option PromotionRequest → (Error ⊎ PromotionRequest) × Db
submission who now db none = (inl promotion_not_found, db)
submission who now db (some p) =
    if is_open p.state
    then if p.proposer == who
      then (inr (in_review_of p), submitted_in who now p db)
      else (inl not_proposer, db)
    else (inl invalid_state, db)

-- The fact with the ID is there, and its row can be written.
abbrev pub Writable : List Fact → ℕ → Type 0
Writable fs id = (f : Fact) × (find fact_key id fs ≡ some f) × (columns_hold fs f ≡ true)

-- The session after a fact has gone to another status.
abbrev moved : Session → ℕ → Status → Session
moved s id to = record s {
  sent = suc s.sent;
  db = record s.db { facts = modify fact_key id (stamp to s.now) s.db.facts };
}

set_status-goes :
    (id : ℕ) (to : Status) (s : Session)
    → Writable s.db.facts id
    → (to == active) ≡ false
    → s.aborted ≡ false
    → s.faults s.sent ≡ false
    → set_status id to s ≡ done tt (moved s id to)
unfolding set_status Rows.update exec admits
set_status-goes id to s (f, found, c) idle a calm =
    let (_, keyed) = In-find fact_key f id s.db.facts found in ground (arith, found, c, keyed)

update_state_and_reviews-goes :
    (p q : PromotionRequest) (s : Session)
    → find promotion_key p.id s.db.promotions ≡ some q
    → s.aborted ≡ false
    → s.faults s.sent ≡ false
    → update_state_and_reviews p.id p.state p.reviews s
      ≡ done tt (restated s p.id p.state p.reviews)
unfolding update_state_and_reviews Requests.update exec
update_state_and_reviews-goes p q s found a calm = ground (arith, found)

save-goes :
    (p q : PromotionRequest) (to : Status) (who action : Text) (s : Session)
    → find promotion_key p.id s.db.promotions ≡ some q
    → Writable s.db.facts p.fact_id
    → (to == active) ≡ false
    → s.aborted ≡ false
    → ((n : ℕ) → s.faults n ≡ false)
    → save p to who action s
      ≡ done p (
          logged
            (moved (restated s p.id p.state p.reviews) p.fact_id to)
            (promotion_event who action p))
unfolding save write exec
save-goes p q to who action s found w idle a calm =
    rw
      (
        update_state_and_reviews-goes p q s found a (calm s.sent),
        set_status-goes p.fact_id to (restated s p.id p.state p.reviews) w idle a
            (calm (suc s.sent)),
      )
      (ground (arith, a, calm (suc (suc s.sent))))

in_review_idle : (Status.in_review == active) ≡ false
unfolding Status-discrete
in_review_idle = refl

-- The body of the transaction, from the request that was read.
submitted :
    (id : ℕ) (who : Text) (s : Session) (o : Option PromotionRequest)
    → find promotion_key id s.db.promotions ≡ o
    → ((p : PromotionRequest) → o ≡ some p → Writable s.db.facts p.fact_id)
    → ((n : ℕ) → s.faults n ≡ false)
    → seen (
        conclude s.db (
          and_then (get_by_id id (begin s)) (λ p.
            may_submit who p >>= (λ q. save q Status.in_review who (text "promotion.submitted")))))
      ≡ submission who s.now s.db o
unfolding get_by_id exec
submitted id who s none found sound calm = ground (arith, found, calm (suc s.sent))
submitted id who s (some p) found sound calm = elim (Bool-cases (is_open p.state)) [
  | inl may ↦ elim (Bool-cases (p.proposer == who)) [
    | inl own ↦
        let goes =
          save-goes (in_review_of p) p Status.in_review who (text "promotion.submitted")
            (record (begin s) { sent = suc (suc s.sent) })
            (cc ((In-find promotion_key p id s.db.promotions found).1, found)) (sound p refl)
            in_review_idle refl calm in
        rw (found, calm (suc s.sent), may, own, goes)
          (ground (arith, calm (suc (suc (suc (suc (suc s.sent)))))))
    | inr other ↦ ground (arith, may, other, found, calm (suc s.sent))
  ]
  | inr shut ↦ ground (arith, shut, found, calm (suc s.sent))
]

-- Over a connection that does not fail, where the fact of every request is there and its row can be
-- written, a submission answers that there is no request where none has the ID, that the state does
-- not allow it where the request is neither pending nor sent back, and that the caller is not the
-- proposer where it is another's; every other one succeeds, and the database afterwards differs in
-- the request and its fact, which are in review, and in the one audit event of the submission.
pub submit-answers :
    (id : ℕ) (who : Text) (s : Session)
    → ((n : ℕ) → s.faults n ≡ false)
    → ((p : PromotionRequest) → In p s.db.promotions → Writable s.db.facts p.fact_id)
    → seen (submit id who s) ≡ submission who s.now s.db (find promotion_key id s.db.promotions)
unfolding submit transition in_tx
submit-answers id who s calm sound =
    let r =
      submitted id who s (find promotion_key id s.db.promotions) refl
        (λ p found. sound p ((In-find promotion_key p id s.db.promotions found).0)) calm in
    rw (calm s.sent) r
