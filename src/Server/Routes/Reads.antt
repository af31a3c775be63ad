-- ===== src/Server/Routes/Reads.antt =====
-- internal/server: the handlers that only read leave the database as it is.
use baseline.Facts.Repo
use baseline.Facts.Repo.{fact_key}
use baseline.Facts.{Fact}
use baseline.Namespaces.Repo as Registrar
use baseline.Prelude.{
  ℕ, ◌≡◌, refl, ◌⊎◌, inl, inr, Bool, true, false, Option, none, some, arith, if◌then◌else◌, nat_eq,
  text_eq,
}
use baseline.Promotions.Repo as Requests
use baseline.Promotions.Repo.Rows.{get_by_id-done}
use baseline.Promotions.Repo.{promotion_key}
use baseline.Promotions.{PromotionRequest}
use baseline.Rbac.{Action, Entitlements}
use baseline.Server.{
  Server, HttpRequest, Context, Reply, Body, write_json, call, parsed, parse_id, decoded, authorize,
  authorize_with, permits_action, entitled, entitled_with, on_result,
}
use baseline.Store.Atomic.{settle-done}
use baseline.Store.Keeps.{
  Keeps, session, Sound-select, Keeps-exec, Keeps->>=, Keeps-pure, Keeps-raise, Keeps-on_pool,
}
use baseline.Store.Table.{find}
use baseline.Store.Transactions.{exec-done, and_then-done}
use baseline.Store.{Db, Session, Tx, Outcome, Error, done, fail, exec, on_pool}

-- The database is still `d`.
abbrev pub Still : Db → Db → Type 0
Still d db = db ≡ d

-- A caller with the entitlement.
abbrev pub May : Context → ℕ → Action → Type 0
May ctx ns a = (e : Entitlements) × (ctx.entitlements ≡ some e) × (permits_action e ns a ≡ true)

-- From the database `d`, the reply leaves the database alone, unless `C` holds.
pub record Guarded (d : Db) (C : Type 0) (m : Reply) : Type 0 where
  pub at : (s : Session) → s.db ≡ d → ((m s).1.db ≡ d) ⊎ C

module _ (d : Db) (C : Type 0) where
  pub Guarded-write : (code : ℕ) (b : Body) → Guarded d C (write_json code b)
  Guarded-write code b = record { at = λ s h. inl h }

  pub Guarded-any : (m : Reply) → C → Guarded d C m
  Guarded-any m c = record { at = λ s h. inr c }

  pub on_result-Guarded :
      {A : Type 0} (o : Outcome A) (bad : Error → Reply) (good : A → Reply)
      → (session o).db ≡ d
      → ((e : Error) → Guarded d C (bad e))
      → ((a : A) (t : Session) → o ≡ done a t → Guarded d C (good a))
      → ((on_result o bad good).1.db ≡ d) ⊎ C
  on_result-Guarded (done a t) bad good h k l = (l a t refl).at t h
  on_result-Guarded (fail e t) bad good h k l = (k e).at t h

  -- A call that only reads.
  pub Guarded-call :
      {A : Type 0} (m : Tx A) (bad : Error → Reply) (good : A → Reply)
      → Keeps (Still d) m
      → ((e : Error) → Guarded d C (bad e))
      → ((a : A) (s t : Session) → s.db ≡ d → m s ≡ done a t → Guarded d C (good a))
      → Guarded d C (call m bad good)
  Guarded-call m bad good still k l = record {
    at = λ s h. on_result-Guarded (m s) bad good (still.at s h) k (λ a t e. l a s t h e);
  }

  pub Guarded-if :
      (b : Bool) (m n : Reply)
      → (b ≡ true → Guarded d C m)
      → (b ≡ false → Guarded d C n)
      → Guarded d C (if b then m else n)
  Guarded-if true m n k l = k refl
  Guarded-if false m n k l = l refl

  parsed-Guarded :
      (o : Option ℕ) (code : ℕ) (b : Body) (next : ℕ → Reply)
      → ((id : ℕ) → o ≡ some id → Guarded d C (next id))
      → Guarded d C (parsed o (write_json code b) next)
  parsed-Guarded none code b next k = Guarded-write code b
  parsed-Guarded (some id) code b next k = k id refl

  pub Guarded-parse_id :
      (srv : Server) (r : HttpRequest) (next : ℕ → Reply)
      → ((id : ℕ) → srv.parse_uuid r.id_param ≡ some id → Guarded d C (next id))
      → Guarded d C (parse_id srv r next)
  unfolding parse_id
  Guarded-parse_id srv r next k = parsed-Guarded (srv.parse_uuid r.id_param) _ _ next k

  pub Guarded-decoded :
      {A : Type 0} (o : Option A) (next : A → Reply)
      → ((a : A) → o ≡ some a → Guarded d C (next a))
      → Guarded d C (decoded o next)
  Guarded-decoded none next k = Guarded-write _ _
  Guarded-decoded (some a) next k = k a refl

  authorize_with-Guarded :
      (o : Option Entitlements) (ns : ℕ) (a : Action) (next : Reply)
      → ((e : Entitlements) → o ≡ some e → permits_action e ns a ≡ true → Guarded d C next)
      → Guarded d C (authorize_with o ns a next)
  authorize_with-Guarded none ns a next k = Guarded-write _ _
  authorize_with-Guarded (some e) ns a next k =
      Guarded-if (permits_action e ns a) next _ (λ h. k e refl h) (λ h. Guarded-write _ _)

  pub Guarded-authorize :
      (ctx : Context) (ns : ℕ) (a : Action) (next : Reply)
      → (May ctx ns a → Guarded d C next)
      → Guarded d C (authorize ctx ns a next)
  unfolding authorize
  Guarded-authorize ctx ns a next k =
      authorize_with-Guarded ctx.entitlements ns a next (λ e q h. k (e, q, h))

  entitled_with-Guarded :
      (o : Option Entitlements) (next : Entitlements → Reply)
      → ((e : Entitlements) → o ≡ some e → Guarded d C (next e))
      → Guarded d C (entitled_with o next)
  entitled_with-Guarded none next k = Guarded-write _ _
  entitled_with-Guarded (some e) next k = k e refl

  pub Guarded-entitled :
      (ctx : Context) (next : Entitlements → Reply)
      → ((e : Entitlements) → Guarded d C (next e))
      → Guarded d C (entitled ctx next)
  Guarded-entitled ctx next k = entitled_with-Guarded ctx.entitlements next (λ e h. k e)

module _ (d : Db) where
  pub select-Still :
      {A : Type 0} (q : ℕ → Db → A) → Keeps (Still d) (exec (λ now db. some (q now db, db)))
  select-Still q = Keeps-exec (Still d) (Sound-select (Still d) q)

  pub pool-Still :
      {A : Type 0} (q : ℕ → Db → A)
      → Keeps (Still d) (on_pool (exec (λ now db. some (q now db, db))))
  pool-Still q = Keeps-on_pool (Still d) (select-Still q)

  pub get-Still : (id : ℕ) → Keeps (Still d) (on_pool (Repo.get id))
  unfolding Repo.get
  get-Still id = Keeps-on_pool (Still d) (
      Keeps->>= (Still d) (select-Still _) λ o.
        elim o as (λ x. Keeps (Still d) (Repo.or_fact_not_found x)) [
          | none ↦ Keeps-raise (Still d)
          | some f ↦ Keeps-pure (Still d)
        ])

  pub get_by_id-Still : (id : ℕ) → Keeps (Still d) (on_pool (Requests.get_by_id id))
  unfolding Requests.get_by_id
  get_by_id-Still id = Keeps-on_pool (Still d) (
      Keeps->>= (Still d) (select-Still _) λ o.
        elim o as (λ x. Keeps (Still d) (Requests.or_promotion_not_found x)) [
          | none ↦ Keeps-raise (Still d)
          | some p ↦ Keeps-pure (Still d)
        ])

  pub get_namespace-Still : (id : ℕ) → Keeps (Still d) (Registrar.get id)
  unfolding Registrar.get
  get_namespace-Still id = Keeps-on_pool (Still d) (
      Keeps->>= (Still d) (select-Still _) λ o.
        elim o as (λ x. Keeps (Still d) (Registrar.or_namespace_not_found x)) [
          | none ↦ Keeps-raise (Still d)
          | some n ↦ Keeps-pure (Still d)
        ])

or_fact_not_found-done :
    (o : Option Fact) (f : Fact) (s t : Session)
    → Repo.or_fact_not_found o s ≡ done f t
    → o ≡ some f
or_fact_not_found-done none f s t h = absurd (ground arith)
or_fact_not_found-done (some g) f s t h = ground arith

-- The fact that is found is the row.
pub get-found :
    (id : ℕ) (f : Fact) (s t : Session)
    → on_pool (Repo.get id) s ≡ done f t
    → find fact_key id s.db.facts ≡ some f
unfolding on_pool Repo.get
get-found id f s t h =
    let s' = record s { aborted = false } in
    let (u, e, _) = settle-done (Repo.get id s') f t h in
    let (o, v, q, l) =
      and_then-done (exec (λ now db. some (find fact_key id db.facts, db)) s')
        Repo.or_fact_not_found f u e in
    let (_, found, _) = exec-done (λ now db. some (find fact_key id db.facts, db)) s' q in
    let is = or_fact_not_found-done o f v u l in ground arith

pub get_by_id-found :
    (id : ℕ) (p : PromotionRequest) (s t : Session)
    → on_pool (Requests.get_by_id id) s ≡ done p t
    → find promotion_key id s.db.promotions ≡ some p
unfolding on_pool
get_by_id-found id p s t h =
    let s' = record s { aborted = false } in
    let (u, e, _) = settle-done (Requests.get_by_id id s') p t h in
    let (found, _) = get_by_id-done id s' p u e in found
