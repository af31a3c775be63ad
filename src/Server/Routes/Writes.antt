-- ===== src/Server/Routes/Writes.antt =====
-- internal/promotions/service.go behind internal/server: who submits or withdraws a request.
use baseline.Facts.{Status}
use baseline.Prelude.{
  ℕ, ◌≡◌, refl, ◌⊎◌, inl, inr, some, Text, text, ◌==◌, nat_eq, text_eq, eq_of_==,
}
use baseline.Promotions.Repo.Rows.{get_by_id-done}
use baseline.Promotions.Repo.{promotion_key, get_by_id}
use baseline.Promotions.Workflow.Reviews
use baseline.Promotions.{PromotionRequest, in_review, rejected}
use baseline.Store.Keeps.{session}
use baseline.Store.Table.{find}
use baseline.Store.Transactions.{begin, and_then-done, in_tx-done, in_tx-fail, guard-done}
use baseline.Store.{
  Db, Session, Tx, Outcome, done, fail, guard, pure, ◌>>=◌, and_then, not_proposer, invalid_state,
}

-- The request with the ID is the caller's own.
abbrev pub Own : Db → ℕ → Text → Type 0
Own d id who =
    (p : PromotionRequest) × (find promotion_key id d.promotions ≡ some p) × (p.proposer ≡ who)

module _ (id : ℕ) (who : Text) (mutate : PromotionRequest → Tx PromotionRequest)
    (asks : (p q : PromotionRequest) (s t : Session) → mutate p s ≡ done q t → p.proposer ≡ who)
    (to : Status) (action : Text) where
  transition-ends :
      (s : Session) (o : Outcome PromotionRequest)
      → Reviews.transition id who mutate to action s ≡ o
      → ((session o).db ≡ s.db) ⊎ Own s.db id who
  unfolding Reviews.transition
  transition-ends s (fail e t) h =
      inl (in_tx-fail (do p ← get_by_id id; q ← mutate p; Reviews.save q to who action) s h)
  transition-ends s (done r t) h =
      let (u, body, _, _) =
        in_tx-done (do p ← get_by_id id; q ← mutate p; Reviews.save q to who action) s h in
      let (p, v, e, e') =
        and_then-done (get_by_id id (begin s))
          (λ p. (do q ← mutate p; Reviews.save q to who action)) r u body in
      let (q, w, m, _) = and_then-done (mutate p v) (λ q. Reviews.save q to who action) r u e' in
      let (found, _) = get_by_id-done id (begin s) p v e in inr (p, found, asks p q v w m)

  pub transition-Own :
      (s : Session)
      → ((session (Reviews.transition id who mutate to action s)).db ≡ s.db) ⊎ Own s.db id who
  transition-Own s = transition-ends s (Reviews.transition id who mutate to action s) refl

may_submit-asks :
    (who : Text) (p q : PromotionRequest) (s t : Session)
    → Reviews.may_submit who p s ≡ done q t
    → p.proposer ≡ who
may_submit-asks who p q s t h =
    let (_, u, e, e') =
      and_then-done (guard (Reviews.is_open p.state) invalid_state s)
        (λ _ v.
          and_then (guard (p.proposer == who) not_proposer v)
            (λ _. pure (record p { state = in_review })))
        q t h in
    let (_, v, g, _) =
      and_then-done (guard (p.proposer == who) not_proposer u)
        (λ _. pure (record p { state = in_review })) q t e' in
    let (same, _) = guard-done (p.proposer == who) not_proposer u v g in
    eq_of_== p.proposer who same

may_withdraw-asks :
    (who : Text) (p q : PromotionRequest) (s t : Session)
    → Reviews.may_withdraw who p s ≡ done q t
    → p.proposer ≡ who
may_withdraw-asks who p q s t h =
    let (_, u, g, _) =
      and_then-done (guard (p.proposer == who) not_proposer s)
        (λ _ v.
          and_then (guard (Reviews.is_open p.state) invalid_state v)
            (λ _. pure (record p { state = rejected })))
        q t h in
    let (same, _) = guard-done (p.proposer == who) not_proposer s u g in
    eq_of_== p.proposer who same

pub submit-Own :
    (id : ℕ) (who : Text) (s : Session)
    → ((session (Reviews.submit id who s)).db ≡ s.db) ⊎ Own s.db id who
unfolding Reviews.submit
submit-Own id who s =
    transition-Own id who (Reviews.may_submit who) (may_submit-asks who) Status.in_review
      (text "promotion.submitted") s

pub withdraw-Own :
    (id : ℕ) (who : Text) (s : Session)
    → ((session (Reviews.withdraw id who s)).db ≡ s.db) ⊎ Own s.db id who
unfolding Reviews.withdraw
withdraw-Own id who s =
    transition-Own id who (Reviews.may_withdraw who) (may_withdraw-asks who) Status.rejected
      (text "promotion.withdrawn") s
