-- ===== src/Server/Routes/Served.antt =====
-- internal/server behind its middleware: who may change the database with a request.
use baseline.Prelude.{
  text, ℕ, ◌≡◌, refl, ◌∙◌, subst, ◌⊎◌, inl, inr, true, false, arith, Bool-cases, In,
}
use baseline.Rbac.Resolve.Entitled.{resolve-may, resolve-entitlements, Permits}
use baseline.Rbac.Resolve.{resolve}
use baseline.Rbac.{Principal, Entitlements, Action}
use baseline.Server.Auth.{
  Authenticated, identified, unauthenticated, auth_error, authn_with, context_of,
}
use baseline.Server.Routes.Guarded.{handle-Permitted}
use baseline.Server.Routes.Permitted.{Permitted, Permitted-map}
use baseline.Server.Routes.Reads.{May, Still, pool-Still}
use baseline.Server.Routes.{Route, handle, serve_http}
use baseline.Server.{Server, HttpRequest, on_result, write_error, is_read}
use baseline.Store.Keeps.{Keeps, session, Keeps->>=, Keeps-pure}
use baseline.Store.{Db, Session, Outcome, Membership, done, fail}

-- A platform admin, or one with a membership row in the namespace that permits the action.
abbrev pub Holds : Principal → Db → ℕ → Action → Type 0
Holds p db ns a =
    (p.platform_admin ≡ true) ⊎ ((m : Membership) × In m db.memberships × Permits p.id ns a m)

May-Holds :
    (p : Principal) (s t : Session) (e : Entitlements)
    → resolve p s ≡ done e t
    → (ns : ℕ) (a : Action) → is_read a ≡ false
    → May (context_of p e) ns a
    → Holds p s.db ns a
May-Holds p s t e h ns a writes (e', same, allows) = elim (Bool-cases p.platform_admin) [
  | inl admin ↦ inl admin
  | inr plain ↦ inr ((resolve-may p s e t ns a h plain).0 (ground arith))
]

-- What a route asks of the principal `p`, by the rows of the database.
abbrev pub Needed : Server → HttpRequest → Route → Principal → Db → Type 0
Needed srv r route p db =
    Permitted db (srv.parse_uuid r.id_param) p.id (p.platform_admin ≡ true) (Holds p db) route

resolve-Still : (d : Db) (p : Principal) → Keeps (Still d) (resolve p)
unfolding resolve
resolve-Still d p =
    Keeps->>= (Still d) (pool-Still d _)
      λ direct. Keeps->>= (Still d) (pool-Still d _) λ readable. Keeps-pure (Still d)

module _ (srv : Server) (r : HttpRequest) (route : Route) (p : Principal) (s : Session) where
  handled-Needed :
      (t : Session) (e : Entitlements)
      → resolve p s ≡ done e t
      → ((handle srv (context_of p e) r route t).1.db ≡ s.db) ⊎ Needed srv r route p s.db
  handled-Needed t e h =
      let (_, same) = resolve-entitlements p s e t h in
      elim (handle-Permitted srv (context_of p e) r route t) [
        | inl still ↦ inl (still ∙ same)
        | inr asked ↦ inr (
            Permitted-map s.db (srv.parse_uuid r.id_param) p.id _ _ (May (context_of p e))
              (Holds p s.db) (λ admin. admin) (May-Holds p s t e h) route
              (subst
                (λ d.
                  Permitted d (srv.parse_uuid r.id_param) p.id (p.platform_admin ≡ true)
                    (May (context_of p e)) route)
                same asked))
      ]

  resolved-Needed :
      (o : Outcome Entitlements)
      → resolve p s ≡ o
      → ((on_result o
            (λ e. write_error 500 (text "entitlement resolution failed"))
            (λ ent. handle srv (context_of p ent) r route)).1.db
          ≡ s.db)
        ⊎ Needed srv r route p s.db
  resolved-Needed (done e t) h = handled-Needed t e h
  resolved-Needed (fail e t) h =
      inl (subst (λ o. (session o).db ≡ s.db) h ((resolve-Still s.db p).at s refl))

-- Whoever authenticates the requests: the database after a request is the one before, unless the
-- request was identified as that of a principal whom the route asks for by the rows of the database.
-- Creating a namespace takes a platform admin. Setting the policy or the members of the namespace of
-- the path, proposing to a namespace, reviewing a request, and revoking a fact take a platform admin
-- or a membership there with a role that may do so. Submitting and withdrawing take the proposer. No
-- other route changes the database.
pub serve_http-Needed :
    (srv : Server) (authenticate : HttpRequest → Authenticated) (r : HttpRequest) (route : Route)
    (s : Session)
    → ((serve_http srv authenticate r route s).1.db ≡ s.db)
      ⊎ ((p : Principal) × (authenticate r ≡ identified p) × Needed srv r route p s.db)
unfolding serve_http
serve_http-Needed srv authenticate r route s = authn_with-Needed (authenticate r) refl
  where
    authn_with-Needed :
        (a : Authenticated)
        → authenticate r ≡ a
        → ((authn_with a (λ ctx. handle srv ctx r route) s).1.db ≡ s.db)
          ⊎ ((p : Principal) × (authenticate r ≡ identified p) × Needed srv r route p s.db)
    authn_with-Needed unauthenticated h = inl refl
    authn_with-Needed auth_error h = inl refl
    authn_with-Needed (identified p) h = elim (resolved-Needed srv r route p s (resolve p s) refl) [
      | inl still ↦ inl still
      | inr needed ↦ inr (p, h, needed)
    ]
