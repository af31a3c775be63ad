-- ===== src/Promotions/Repo/Rows.antt =====
-- What the statements of internal/promotions/repo.go have done once they have succeeded.
use baseline.Store.Transactions.{exec-done, and_then-done, guard-done}
use baseline.Store.Table.{find, modify}
use baseline.Store.{exec, Session, promotion_not_found, done}
use baseline.Promotions.{State, Review, PromotionRequest}
use baseline.Promotions.Repo.{
  get_by_id, or_promotion_not_found, promotion_key, update, update_state_and_reviews, with_state,
  promotion_affected,
}
use baseline.Prelude.{ℕ, suc, ◌≡◌, Option, none, some, List, arith}

or_promotion_not_found-done :
    (o : Option PromotionRequest) (p : PromotionRequest) (s t : Session)
    → or_promotion_not_found o s ≡ done p t
    → (o ≡ some p) × (t ≡ s)
or_promotion_not_found-done none p s t h = absurd (ground arith)
or_promotion_not_found-done (some q) p s t h = (ground arith, ground arith)

pub get_by_id-done :
    (id : ℕ) (s : Session) (p : PromotionRequest) (t : Session)
    → get_by_id id s ≡ done p t
    → (find promotion_key id s.db.promotions ≡ some p) × (t ≡ record s { sent = suc s.sent })
unfolding get_by_id
get_by_id-done id s p t h =
    let (o, u, e, e') =
      and_then-done (exec (λ now db. some (find promotion_key id db.promotions, db)) s)
        or_promotion_not_found p t h in
    let (is, same) = or_promotion_not_found-done o p u t e' in
    let (_, q, q') = exec-done (λ now db. some (find promotion_key id db.promotions, db)) s e in
    (ground arith, ground arith)

abbrev pub restated : Session → ℕ → State → List Review → Session
restated s id st rs = record s {
  sent = suc s.sent;
  db = record s.db {
    promotions = modify promotion_key id (with_state st rs s.now) s.db.promotions;
  };
}

pub update_state_and_reviews-done :
    (id : ℕ) (st : State) (rs : List Review) (s t : Session)
    → update_state_and_reviews id st rs s ≡ done tt t
    → t ≡ restated s id st rs
unfolding update_state_and_reviews
update_state_and_reviews-done id st rs s t h =
    let (hit, u, e, e') =
      and_then-done (exec (update id (with_state st rs)) s) promotion_affected tt t h in
    let (hits, same) = guard-done hit promotion_not_found u t e' in
    let (_, q, q') = exec-done (update id (with_state st rs)) s e in ground arith
