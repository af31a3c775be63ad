-- ===== src/Promotions/Repo.antt =====
-- internal/promotions/repo.go: the statements on the table of promotion requests, under the
-- constraints of internal/store/migrations/00001_init.sql.
pub mod Rows
use baseline.Store.{Tx, ◌>>=◌, ◌>>◌, pure, raise, guard, Statement, exec, promotion_not_found}
use baseline.Prelude.{
  ℕ, suc, Bool, true, false, ◌&&◌, not, Option, none, some, List, [], ◌∷◌, ◌++◌, filter, any, sort,
  leb, if◌then◌else◌, ◌==◌, nat_eq, Text, text_eq, is_some,
}
use baseline.Facts.Repo.{exists_fact, references, has_namespace}
use baseline.Promotions.{PromotionRequest, Review, State, state_eq, decision_eq, state_text}
use baseline.Store.Table.{find, modify}

abbrev pub promotion_key : PromotionRequest → ℕ
promotion_key p = p.id

abbrev pub is_key : Text → Option Text → Bool
is_key key none = false
is_key key (some k) = k == key

-- promotion_requests_idem_unique: NULL keys never clash.
abbrev pub key_taken : Text → Option Text → List PromotionRequest → Bool
key_taken proposer none ps = false
key_taken proposer (some k) ps = any (λ q. q.proposer == proposer && is_key k q.idempotency_key) ps

unfoldable pub insert_row : PromotionRequest → Statement PromotionRequest
unfolding any find
insert_row p now db =
    let r = record p { id = db.next_id; created_at = now; updated_at = now } in
    if exists_fact db.facts p.fact_id
      && has_namespace db p.target_namespace_id
      && references db.facts p.conflict_with
      && not (key_taken p.proposer p.idempotency_key db.promotions)
    then some (r, record db { promotions = db.promotions ++ r ∷ []; next_id = suc db.next_id })
    else none

unfoldable pub insert_promotion : PromotionRequest → Tx PromotionRequest
unfolding exec insert_row
insert_promotion p = exec (insert_row p)

abbrev pub or_promotion_not_found : Option PromotionRequest → Tx PromotionRequest
or_promotion_not_found none = raise promotion_not_found
or_promotion_not_found (some p) = pure p

unfoldable pub get_by_id : ℕ → Tx PromotionRequest
unfolding exec find
get_by_id id = do
  found ← exec (λ now db. some (find promotion_key id db.promotions, db))
  or_promotion_not_found found

unfoldable pub first : (PromotionRequest → Bool) → List PromotionRequest → Option PromotionRequest
first q [] = none
first q (p ∷ ps) = if q p then some p else first q ps

unfoldable pub find_by_idempotency_key : Text → Text → Tx PromotionRequest
unfolding exec first
find_by_idempotency_key proposer key = do
  found ← exec (λ now db.
      some (first (λ p. p.proposer == proposer && is_key key p.idempotency_key) db.promotions, db))
  or_promotion_not_found found

-- An optional filter that is absent lets every row pass.
abbrev pub passes {ℓ} : {A : Type ℓ} → (A → Bool) → Option A → Bool
passes p none = true
passes p (some a) = p a

abbrev pub created_leb : PromotionRequest → PromotionRequest → Bool
created_leb p q = leb p.created_at q.created_at

unfoldable pub list : Option ℕ → Option Text → Option Text → Tx (List PromotionRequest)
unfolding exec filter sort
list ns state proposer = exec (λ now db. some (
  sort created_leb (
      filter
        (λ p.
          passes (λ n. p.target_namespace_id == n) ns
          && passes (λ st. state_text p.state == st) state
          && passes (λ who. p.proposer == who) proposer)
        db.promotions),
  db,
))

abbrev pub promotion_affected : Bool → Tx (Unit {0})
promotion_affected hit = guard hit promotion_not_found

unfoldable pub update : ℕ → (ℕ → PromotionRequest → PromotionRequest) → Statement Bool
unfolding find modify
update id set now db = some (
  is_some (find promotion_key id db.promotions),
  record db { promotions = modify promotion_key id (set now) db.promotions },
)

abbrev pub with_state : State → List Review → ℕ → PromotionRequest → PromotionRequest
with_state state reviews now p = record p { state = state; reviews = reviews; updated_at = now }

abbrev pub with_statement : Text → ℕ → PromotionRequest → PromotionRequest
with_statement statement now p = record p { proposed_statement = statement; updated_at = now }

unfoldable pub update_state_and_reviews : ℕ → State → List Review → Tx (Unit {0})
unfolding exec update
update_state_and_reviews id state reviews = do
  hit ← exec (update id (with_state state reviews))
  promotion_affected hit

unfoldable pub update_statement : ℕ → Text → Tx (Unit {0})
unfolding exec update
update_statement id statement = do exec (update id (with_statement statement)); pure tt
