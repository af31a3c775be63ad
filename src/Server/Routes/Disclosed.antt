-- ===== src/Server/Routes/Disclosed.antt =====
-- internal/server: what the bodies of responses show, and to whom.
pub mod Handlers
pub mod Lists
pub mod Requests
use baseline.ContextSvc.{Item}
use baseline.Facts.{Fact}
use baseline.Namespaces.{Namespace}
use baseline.Prelude.{
  All, All-map, ℕ, ◌≡◌, refl, Bool, true, false, Option, none, some, List, if◌then◌else◌, In, Text,
}
use baseline.Promotions.{PromotionRequest}
use baseline.Rbac.{Action, Entitlements, read_facts}
use baseline.Server.Routes.Reads.{May}
use baseline.Server.{
  Server, HttpRequest, Context, Reply, Body, Response, message, error_of, status_body, fact_body,
  fact_list, event_list, promotion_body, promotion_list, namespace_body, namespace_list,
  member_body, member_list, item_list, memory_body, write_failed, write_json, call, parsed,
  parse_id, authorize, authorize_with, permits_action, entitled, entitled_with, on_result,
}
use baseline.Store.{Session, Tx, Outcome, Error, done, fail}

-- A memory is of no namespace.
abbrev pub OfNamespace : (ℕ → Type 0) → Option ℕ → Type 0
OfNamespace R none = Unit {0}
OfNamespace R (some ns) = R ns

OfNamespace-map :
    (R S : ℕ → Type 0)
    → ((ns : ℕ) → R ns → S ns)
    → (o : Option ℕ) → OfNamespace R o
    → OfNamespace S o
OfNamespace-map R S k none h = tt
OfNamespace-map R S k (some ns) h = k ns h

-- What a body shows of a namespace is shown to one who may read there.
abbrev pub Open : (ℕ → Type 0) → Body → Type 0
Open R (fact_body f) = R f.namespace_id
Open R (fact_list fs) = All (λ f. R f.namespace_id) fs
Open R (promotion_body p) = R p.target_namespace_id
Open R (promotion_list ps) = All (λ p. R p.target_namespace_id) ps
Open R (namespace_body n) = R n.id
Open R (namespace_list ns) = All (λ n. R n.id) ns
Open R (item_list is) = All (λ i. OfNamespace R i.namespace_id) is
Open R _ = Unit {0}

pub Open-map : (R S : ℕ → Type 0) → ((ns : ℕ) → R ns → S ns) → (b : Body) → Open R b → Open S b
Open-map R S k (fact_body f) h = k _ h
Open-map R S k (fact_list fs) h =
    All-map (λ f. R f.namespace_id) (λ f. S f.namespace_id) (λ f. k f.namespace_id) fs h
Open-map R S k (promotion_body p) h = k _ h
Open-map R S k (promotion_list ps) h =
    All-map (λ p. R p.target_namespace_id) (λ p. S p.target_namespace_id)
      (λ p. k p.target_namespace_id) ps h
Open-map R S k (namespace_body n) h = k _ h
Open-map R S k (namespace_list ns) h = All-map (λ n. R n.id) (λ n. S n.id) (λ n. k n.id) ns h
Open-map R S k (item_list is) h =
    All-map (λ i. OfNamespace R i.namespace_id) (λ i. OfNamespace S i.namespace_id)
      (λ i. OfNamespace-map R S k i.namespace_id) is h
Open-map R S k (message t) h = tt
Open-map R S k (error_of e) h = tt
Open-map R S k (status_body t) h = tt
Open-map R S k (event_list es) h = tt
Open-map R S k (member_body t role) h = tt
Open-map R S k (member_list ms) h = tt
Open-map R S k (memory_body m) h = tt
Open-map R S k (write_failed e) h = tt

abbrev pub ReadsIn : Context → ℕ → Type 0
ReadsIn ctx ns = May ctx ns read_facts

pub record Shows (ctx : Context) (m : Reply) : Type 0 where
  pub at : (s : Session) → Open (ReadsIn ctx) (m s).0.body

module _ (ctx : Context) where
  pub Shows-write : (code : ℕ) (b : Body) → Open (ReadsIn ctx) b → Shows ctx (write_json code b)
  Shows-write code b h = record { at = λ s. h }

  on_result-Shows :
      {A : Type 0} (o : Outcome A) (bad : Error → Reply) (good : A → Reply)
      → ((e : Error) → Shows ctx (bad e))
      → ((a : A) (t : Session) → o ≡ done a t → Shows ctx (good a))
      → Open (ReadsIn ctx) (on_result o bad good).0.body
  on_result-Shows (done a t) bad good k l = (l a t refl).at t
  on_result-Shows (fail e t) bad good k l = (k e).at t

  pub Shows-call :
      {A : Type 0} (m : Tx A) (bad : Error → Reply) (good : A → Reply)
      → ((e : Error) → Shows ctx (bad e))
      → ((a : A) (s t : Session) → m s ≡ done a t → Shows ctx (good a))
      → Shows ctx (call m bad good)
  Shows-call m bad good k l = record {
    at = λ s. on_result-Shows (m s) bad good k (λ a t e. l a s t e);
  }

  pub Shows-if :
      (b : Bool) (m n : Reply)
      → (b ≡ true → Shows ctx m)
      → (b ≡ false → Shows ctx n)
      → Shows ctx (if b then m else n)
  Shows-if true m n k l = k refl
  Shows-if false m n k l = l refl

  parsed-Shows :
      (o : Option ℕ) (code : ℕ) (t : Text) (next : ℕ → Reply)
      → ((id : ℕ) → Shows ctx (next id))
      → Shows ctx (parsed o (write_json code (message t)) next)
  parsed-Shows none code t next k = Shows-write code (message t) tt
  parsed-Shows (some id) code t next k = k id

  pub Shows-parse_id :
      (srv : Server) (r : HttpRequest) (next : ℕ → Reply)
      → ((id : ℕ) → Shows ctx (next id))
      → Shows ctx (parse_id srv r next)
  unfolding parse_id
  Shows-parse_id srv r next k = parsed-Shows (srv.parse_uuid r.id_param) _ _ next k

  authorize_with-Shows :
      (o : Option Entitlements) (ns : ℕ) (a : Action) (next : Reply)
      → ((e : Entitlements) → o ≡ some e → permits_action e ns a ≡ true → Shows ctx next)
      → Shows ctx (authorize_with o ns a next)
  authorize_with-Shows none ns a next k = record { at = λ s. tt }
  authorize_with-Shows (some e) ns a next k =
      Shows-if (permits_action e ns a) next _ (λ h. k e refl h) (λ h. record { at = λ s. tt })

  pub Shows-authorize :
      (ns : ℕ) (a : Action) (next : Reply)
      → (May ctx ns a → Shows ctx next)
      → Shows ctx (authorize ctx ns a next)
  unfolding authorize
  Shows-authorize ns a next k =
      authorize_with-Shows ctx.entitlements ns a next (λ e q h. k (e, q, h))

  entitled_with-Shows :
      (o : Option Entitlements) (next : Entitlements → Reply)
      → ((e : Entitlements) → o ≡ some e → Shows ctx (next e))
      → Shows ctx (entitled_with o next)
  entitled_with-Shows none next k = record { at = λ s. tt }
  entitled_with-Shows (some e) next k = k e refl

  pub Shows-entitled :
      (next : Entitlements → Reply)
      → ((e : Entitlements) → ctx.entitlements ≡ some e → Shows ctx (next e))
      → Shows ctx (entitled ctx next)
  Shows-entitled next k = entitled_with-Shows ctx.entitlements next k
