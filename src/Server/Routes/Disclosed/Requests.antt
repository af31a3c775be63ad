-- ===== src/Server/Routes/Disclosed/Requests.antt =====
-- internal/server behind its middleware: whom a response shows what is in a namespace.
use baseline.Namespaces.{Namespace}
use baseline.Prelude.{ℕ, ◌≡◌, refl, ◌⊎◌, inl, inr, Bool, true, false, Text, text, Bool-cases, arith}
use baseline.Rbac.Resolve.Entitled.{resolve-may_read}
use baseline.Rbac.Resolve.Climb.{Readable}
use baseline.Rbac.Resolve.{resolve}
use baseline.Rbac.{Principal, Entitlements}
use baseline.Server.Auth.{
  Authenticated, identified, unauthenticated, auth_error, authn_with, context_of,
}
use baseline.Server.Routes.Disclosed.Handlers.{
  get_fact-Shows, get_fact_history-Shows, get_promotion-Shows, list_promotions-Shows,
  list_namespaces-Shows, list_members-Shows, get_namespace-Shows,
}
use baseline.Server.Routes.Disclosed.Lists.{list_facts-Shows, get_context-Shows}
use baseline.Server.Routes.Disclosed.{Open, Open-map, ReadsIn, Shows}
use baseline.Server.Routes.{
  Route, handle, serve_http, namespaces_get, namespaces_post, namespace_get, namespace_patch,
  members_get, members_post, member_delete, promotions_post, promotions_get, promotion_get,
  promotion_post, facts_get, fact_get, fact_history_get, fact_patch, context_get, memories_post,
}
use baseline.Server.{Server, HttpRequest, Context, Body, message, on_result, write_error}
use baseline.Store.{Db, Session, Outcome, done, fail}

-- The routes with GET.
abbrev pub is_get : Route → Bool
is_get namespaces_get = true
is_get namespace_get = true
is_get members_get = true
is_get promotions_get = true
is_get promotion_get = true
is_get facts_get = true
is_get fact_get = true
is_get fact_history_get = true
is_get context_get = true
is_get _ = false

handle-Shows :
    (srv : Server) (ctx : Context) (r : HttpRequest) (route : Route)
    → is_get route ≡ true
    → Shows ctx (handle srv ctx r route)
unfolding handle
handle-Shows srv ctx r namespaces_get h = list_namespaces-Shows srv ctx r
handle-Shows srv ctx r namespace_get h = get_namespace-Shows srv ctx r
handle-Shows srv ctx r members_get h = list_members-Shows srv ctx r
handle-Shows srv ctx r promotions_get h = list_promotions-Shows srv ctx r
handle-Shows srv ctx r promotion_get h = get_promotion-Shows srv ctx r
handle-Shows srv ctx r facts_get h = list_facts-Shows srv ctx r
handle-Shows srv ctx r fact_get h = get_fact-Shows srv ctx r
handle-Shows srv ctx r fact_history_get h = get_fact_history-Shows srv ctx r
handle-Shows srv ctx r context_get h = get_context-Shows srv ctx r
handle-Shows srv ctx r (namespaces_post body) h = cc
handle-Shows srv ctx r (namespace_patch body) h = cc
handle-Shows srv ctx r (members_post body) h = cc
handle-Shows srv ctx r member_delete h = cc
handle-Shows srv ctx r (promotions_post body) h = cc
handle-Shows srv ctx r (promotion_post action body) h = cc
handle-Shows srv ctx r fact_patch h = cc
handle-Shows srv ctx r (memories_post body) h = cc

-- A platform admin, or one that a grant, down the chain of parents, lets read the namespace.
abbrev pub MayRead : Principal → Db → ℕ → Type 0
MayRead p db id =
    (p.platform_admin ≡ true)
    ⊎ ((n : Namespace) × Readable p.id db.memberships db.namespaces n × (n.id ≡ id))

ReadsIn-MayRead :
    (p : Principal) (s t : Session) (e : Entitlements)
    → resolve p s ≡ done e t
    → (id : ℕ) → ReadsIn (context_of p e) id
    → MayRead p s.db id
ReadsIn-MayRead p s t e h id (e', same, allows) = elim (Bool-cases p.platform_admin) [
  | inl admin ↦ inl admin
  | inr plain ↦ inr ((resolve-may_read p s e t id h plain).0 (ground arith))
]

-- The body is an error's text, or open to the principal that was identified.
abbrev pub ShownTo : (HttpRequest → Authenticated) → HttpRequest → Db → Body → Type 0
ShownTo authenticate r db body =
    ((t : Text) × (body ≡ message t))
    ⊎ ((p : Principal) × (authenticate r ≡ identified p) × Open (MayRead p db) body)

module _ (srv : Server) (authenticate : HttpRequest → Authenticated) (r : HttpRequest)
    (route : Route) (s : Session) (reading : is_get route ≡ true) where
  resolved-Shown :
      (p : Principal) (o : Outcome Entitlements)
      → authenticate r ≡ identified p
      → resolve p s ≡ o
      → ShownTo authenticate r s.db
          (on_result o
            (λ e. write_error 500 (text "entitlement resolution failed"))
            (λ ent. handle srv (context_of p ent) r route)).0.body
  resolved-Shown p (done e t) who h = inr (
    p,
    who,
    Open-map (ReadsIn (context_of p e)) (MayRead p s.db) (ReadsIn-MayRead p s t e h) _
        ((handle-Shows srv (context_of p e) r route reading).at t),
  )
  resolved-Shown p (fail e t) who h = inl (text "entitlement resolution failed", refl)

  authn_with-Shown :
      (a : Authenticated)
      → authenticate r ≡ a
      → ShownTo authenticate r s.db (authn_with a (λ ctx. handle srv ctx r route) s).0.body
  authn_with-Shown unauthenticated h = inl (text "unauthenticated", refl)
  authn_with-Shown auth_error h = inl (text "auth error", refl)
  authn_with-Shown (identified p) h = resolved-Shown p (resolve p s) h refl

-- Whoever authenticates the requests, and whatever the filters, the parameters and the memory source:
-- the body of the response to a request with GET is the text of an error, or every fact, promotion
-- request, namespace and item of a context that it shows is of a namespace that the identified
-- principal may read by the rows of the database: as a platform admin, or by a grant there or below; an
-- item of no namespace is left out of this.
pub serve_http-Shown :
    (srv : Server) (authenticate : HttpRequest → Authenticated) (r : HttpRequest) (route : Route)
    (s : Session)
    → is_get route ≡ true
    → ShownTo authenticate r s.db (serve_http srv authenticate r route s).0.body
unfolding serve_http
serve_http-Shown srv authenticate r route s reading =
    authn_with-Shown srv authenticate r route s reading (authenticate r) refl
