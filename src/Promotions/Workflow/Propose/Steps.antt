-- ===== src/Promotions/Workflow/Propose/Steps.antt =====
-- The statements of `Propose` (internal/promotions/service.go), one by one: what each has read or
-- written where it succeeds.
use baseline.Facts.Repo.{exists_fact, references, has_namespace}
use baseline.Promotions.{PromotionRequest, state_eq, decision_eq}
use baseline.Store.Transactions.{exec-done, exec-fail, and_then-done}
use baseline.Store.Table.{find}
use baseline.Store.{
  and_then, ◌>>=◌, Statement, exec, settle, on_pool, Session, fact_not_found, Outcome, done, fail,
}
use baseline.Facts.Repo
use baseline.Facts.{Fact, is_active, status_eq}
use baseline.Facts.Key.{canonical_key}
use baseline.Namespaces.Repo as Registrar
use baseline.Namespaces.Repo.{namespace_key}
use baseline.Namespaces.{Namespace}
use baseline.Prelude.{
  inl, inr, ℕ, suc, ◌≡◌, refl, false, ◌&&◌, Option, none, some, List, [], ◌∷◌, ◌++◌, arith, ◌==◌,
  nat_eq, Text, text_eq, not, Bool-cases,
}
use baseline.Promotions.Repo as Requests
use baseline.Promotions.Workflow.Propose.{detect_conflict, conflict_of}

-- The database and the clock are the same.
pub record Same (s t : Session) : Type 0 where
  pub same_db : t.db ≡ s.db
  pub same_time : t.now ≡ s.now

or_namespace_not_found-done :
    (o : Option Namespace) (n : Namespace) (s t : Session)
    → Registrar.or_namespace_not_found o s ≡ done n t
    → (o ≡ some n) × (t ≡ s)
or_namespace_not_found-done none n s t h = absurd (ground arith)
or_namespace_not_found-done (some m) n s t h = (ground arith, ground arith)

settle-session :
    {A : Type 0} (o : Outcome A) (a : A) (t : Session)
    → settle o ≡ done a t
    → (u : Session) × (o ≡ done a u) × (t ≡ record u { aborted = false })
settle-session (done b u) a t h = (u, ground arith, ground arith)
settle-session (fail e u) a t h = absurd (ground arith)

pub get_namespace-done :
    (id : ℕ) (s : Session) (n : Namespace) (t : Session)
    → Registrar.get id s ≡ done n t
    → (find namespace_key id s.db.namespaces ≡ some n) × Same s t
unfolding Registrar.get on_pool
get_namespace-done id s n t h =
    let q : Statement (Option Namespace) =
      λ now db. some (find namespace_key id db.namespaces, db) in
    let s' = record s { aborted = false } in
    let (u, e, t_is) = settle-session ((exec q >>= Registrar.or_namespace_not_found) s') n t h in
    let (o, v, e1, e2) = and_then-done (exec q s') Registrar.or_namespace_not_found n u e in
    let (o_is, u_is) = or_namespace_not_found-done o n v u e2 in
    let (_, found, v_is) = exec-done q s' e1 in
    (ground arith, record { same_db = ground arith; same_time = ground arith })

-- The active fact of the namespace and key.
abbrev pub active_under : ℕ → Text → List Fact → Option Fact
active_under ns key fs =
    Repo.first (λ f. f.namespace_id == ns && f.canonical_key == key && is_active f) fs

abbrev pub id_of : Option Fact → Option ℕ
id_of none = none
id_of (some f) = some f.id

conflict_of-done :
    (o : Option Fact) (c : Option ℕ) (s t : Session)
    → conflict_of (Repo.or_fact_not_found o s) ≡ done c t
    → (c ≡ id_of o) × (t ≡ s)
conflict_of-done none c s t h = (ground arith, ground arith)
conflict_of-done (some f) c s t h = (ground arith, ground arith)

conflict_of-cases :
    (o : Outcome (Option Fact)) (c : Option ℕ) (t : Session)
    → ((u : Session) → o ≡ fail fact_not_found u → ⊥)
    → conflict_of (and_then o Repo.or_fact_not_found) ≡ done c t
    → (a : Option Fact) × (u : Session) × (o ≡ done a u)
      × (conflict_of (Repo.or_fact_not_found a u) ≡ done c t)
conflict_of-cases (done a u) c t k h = (a, u, refl, h)
conflict_of-cases (fail fact_not_found u) c t k h = absurd (k u refl)
conflict_of-cases (fail e u) c t k h = absurd (ground arith)

pub detect_conflict-done :
    (ns : ℕ) (key : Text) (s : Session) (c : Option ℕ) (t : Session)
    → detect_conflict ns key s ≡ done c t
    → (c ≡ id_of (active_under ns key s.db.facts)) × Same s t
unfolding detect_conflict
detect_conflict-done ns key s c t h =
    let q : Statement (Option Fact) = λ now db. some (active_under ns key db.facts, db) in
    let (a, u, e, e1) =
      conflict_of-cases (exec q s) c t
        (λ u f. let (bad, _) = exec-fail q s f in ground (arith, bad)) h in
    let (c_is, t_is) = conflict_of-done a c u t e1 in
    let (_, found, u_is) = exec-done q s e in
    (ground arith, record { same_db = ground arith; same_time = ground arith })

-- The row that an insert makes.
abbrev pub fact_row : Session → Fact → Fact
fact_row s f =
    Repo.new_row s.db.next_id s.now (record f { canonical_key = canonical_key f.subject })

inserted :
    (g : Fact) (s : Session) (r : Fact) (t : Session)
    → Repo.insert_row g s.now s.db ≡ some (r, t.db)
    → t ≡ record s { sent = suc s.sent; db = t.db }
    → (r ≡ Repo.new_row s.db.next_id s.now g)
      × (t.now ≡ s.now)
      × (t.db ≡ record s.db { facts = s.db.facts ++ r ∷ []; next_id = suc s.db.next_id })
unfolding Repo.insert_row
inserted g s r t e e' =
    elim (Bool-cases (
      Repo.has_namespace s.db g.namespace_id
      && Repo.admits s.db.facts (Repo.new_row s.db.next_id s.now g))) [
        | inl ok ↦ (ground arith, ground arith, ground arith)
        | inr refused ↦ absurd (ground arith)
      ]

pub insert-done :
    (f : Fact) (s : Session) (r : Fact) (t : Session)
    → Repo.insert f s ≡ done r t
    → (r ≡ fact_row s f)
      × (t.now ≡ s.now)
      × (t.db ≡ record s.db { facts = s.db.facts ++ r ∷ []; next_id = suc s.db.next_id })
unfolding Repo.insert
insert-done f s r t h =
    let g = record f { canonical_key = canonical_key f.subject } in
    let (_, e, e') = exec-done (Repo.insert_row g) s h in inserted g s r t e e'

-- The row of a request that is inserted.
abbrev pub request_row : Session → PromotionRequest → PromotionRequest
request_row s p = record p { id = s.db.next_id; created_at = s.now; updated_at = s.now }

pub insert_promotion-done :
    (p : PromotionRequest) (s : Session) (r : PromotionRequest) (t : Session)
    → Requests.insert_promotion p s ≡ done r t
    → (r ≡ request_row s p)
      × (t.now ≡ s.now)
      × (t.db ≡ record s.db { promotions = s.db.promotions ++ r ∷ []; next_id = suc s.db.next_id })
unfolding Requests.insert_promotion
insert_promotion-done p s r t h =
    let (_, e, e') = exec-done (Requests.insert_row p) s h in
    elim (Bool-cases (
      exists_fact s.db.facts p.fact_id
      && has_namespace s.db p.target_namespace_id
      && references s.db.facts p.conflict_with
      && not (Requests.key_taken p.proposer p.idempotency_key s.db.promotions))) [
        | inl ok ↦ (ground arith, ground arith, ground arith)
        | inr refused ↦ absurd (ground arith)
      ]
