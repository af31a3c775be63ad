-- ===== src/Server/Routes/Disclosed/Handlers.antt =====
-- internal/server: each handler that reads shows only what its caller may read.
use baseline.Facts.Repo
use baseline.Facts.Service as FactService
use baseline.Facts.{Fact}
use baseline.Namespaces.Repo as Registrar
use baseline.Namespaces.{Namespace}
use baseline.Prelude.{
  All-In, ℕ, ◌≡◌, refl, sym, subst, false, Option, none, some, List, [], ◌∷◌, In, In-filter, filter,
  arith, Text, text, map, nat_eq, text_eq,
}
use baseline.Promotions.Repo as Requests
use baseline.Promotions.{PromotionRequest}
use baseline.Rbac.Repo as Grants
use baseline.Rbac.{Action, Entitlements, may_read, read_facts}
use baseline.Server.Facts
use baseline.Server.Members
use baseline.Server.Promotions
use baseline.Server.Respond.{get_value}
use baseline.Server.Routes.Disclosed.{
  ReadsIn, Shows, Shows-write, Shows-call, Shows-if, Shows-parse_id, Shows-authorize,
  Shows-entitled,
}
use baseline.Server.Routes.Reads.{May}
use baseline.Server.Spaces
use baseline.Server.{
  Server, HttpRequest, Context, Reply, write_json, write_error, promotion_list, namespace_list,
  namespace_body, member_list, event_list, promotion_body, message, authorize, id_or_blank,
}
use baseline.Store.Atomic.{settle-done}
use baseline.Store.Transactions.{exec-done, and_then-done}
use baseline.Store.Table.{find, In-find}
use baseline.Namespaces.Repo.{namespace_key}
use baseline.Store.{Session, Error, and_then, done, exec, on_pool}

or_namespace_not_found-done :
    (o : Option Namespace) (n : Namespace) (s t : Session)
    → Registrar.or_namespace_not_found o s ≡ done n t
    → o ≡ some n
or_namespace_not_found-done none n s t h = absurd (ground arith)
or_namespace_not_found-done (some m) n s t h = ground arith

namespace-row :
    (id : ℕ) (n : Namespace) (s t : Session)
    → Registrar.get id s ≡ done n t
    → find namespace_key id s.db.namespaces ≡ some n
unfolding Registrar.get on_pool
namespace-row id n s t h =
    let s' = record s { aborted = false } in
    let (u, e, _) =
      settle-done
        (and_then (exec (λ now db. some (find namespace_key id db.namespaces, db)) s')
          Registrar.or_namespace_not_found)
        n t h in
    let (o, v, q, l) =
      and_then-done (exec (λ now db. some (find namespace_key id db.namespaces, db)) s')
        Registrar.or_namespace_not_found n u e in
    let (_, found, _) = exec-done (λ now db. some (find namespace_key id db.namespaces, db)) s' q in
    let is = or_namespace_not_found-done o n v u l in ground arith

namespace-found :
    (id : ℕ) (n : Namespace) (s t : Session) → Registrar.get id s ≡ done n t → n.id ≡ id
namespace-found id n s t h =
    let (_, same) = In-find namespace_key n id s.db.namespaces (namespace-row id n s t h) in same

module _ (srv : Server) (ctx : Context) (r : HttpRequest) where
  said : (code : ℕ) (t : Text) → Shows ctx (write_error code t)
  said code t = Shows-write ctx code (message t) tt

  get_failed-Shows : (e : Error) → Shows ctx (Facts.get_failed e)
  get_failed-Shows e = record { at = λ s. ground arith }

  lookup_failed-Shows : (t : Text) (e : Error) → Shows ctx (Promotions.lookup_failed t e)
  lookup_failed-Shows t e = record { at = λ s. ground arith }

  namespace_failed-Shows : (t : Text) (e : Error) → Shows ctx (Spaces.namespace_failed t e)
  namespace_failed-Shows t e = record { at = λ s. ground arith }

  with_fact-Shows :
      (a : Action) (next : ℕ → Fact → Reply)
      → ((id : ℕ) (f : Fact) → May ctx f.namespace_id a → Shows ctx (next id f))
      → Shows ctx (Facts.with_fact srv ctx r a next)
  unfolding Facts.with_fact
  with_fact-Shows a next k = Shows-parse_id ctx srv r _ λ id.
      Shows-call ctx (on_pool (Repo.get id)) Facts.get_failed
        (λ f. authorize ctx f.namespace_id a (next id f)) get_failed-Shows
        λ f s t e. Shows-authorize ctx f.namespace_id a (next id f) λ may. k id f may

  pub get_fact-Shows : Shows ctx (Facts.get_fact srv ctx r)
  unfolding Facts.get_fact
  get_fact-Shows =
      with_fact-Shows read_facts (λ id f. Facts.reply_fact f) λ id f may. record { at = λ s. may }

  pub get_fact_history-Shows : Shows ctx (Facts.get_fact_history srv ctx r)
  unfolding Facts.get_fact_history
  get_fact_history-Shows = with_fact-Shows read_facts _ λ id f may.
      Shows-call ctx (FactService.history id) (λ err. write_error 500 (text "history failed"))
        (λ events. write_json 200 (event_list events)) (λ e. said 500 (text "history failed"))
        λ events s t e. Shows-write ctx 200 (event_list events) tt

  pub get_promotion-Shows : Shows ctx (Promotions.get_promotion srv ctx r)
  unfolding Promotions.get_promotion
  get_promotion-Shows = Shows-parse_id ctx srv r _ λ id.
      Shows-call ctx (on_pool (Requests.get_by_id id))
        (Promotions.lookup_failed (text "get failed"))
        (λ p. authorize ctx p.target_namespace_id read_facts (write_json 200 (promotion_body p)))
        (lookup_failed-Shows (text "get failed"))
        λ p s t e.
          Shows-authorize ctx p.target_namespace_id read_facts (write_json 200 (promotion_body p))
            λ may. Shows-write ctx 200 (promotion_body p) may

  namespace_filter-Shows :
      (e : Entitlements) (next : Option ℕ → Reply)
      → ((o : Option ℕ) → Shows ctx (next o))
      → (o : Option ℕ) → Shows ctx (Promotions.namespace_filter e o next)
  namespace_filter-Shows e next k none = said 400 (text "invalid namespace")
  namespace_filter-Shows e next k (some id) =
      Shows-if ctx (may_read e id) (next (some id)) (write_error 403 (text "forbidden"))
        (λ h. k (some id)) (λ h. said 403 (text "forbidden"))

  filtered-Shows :
      (e : Entitlements) (v : Text) (next : Option ℕ → Reply)
      → ((o : Option ℕ) → Shows ctx (next o))
      → Shows ctx (Promotions.filtered srv e v next)
  filtered-Shows e [] next k = k none
  filtered-Shows e (c ∷ v) next k = namespace_filter-Shows e next k (srv.parse_uuid (c ∷ v))

  -- Of the requests that are found, those are shown that may be read.
  kept-Shows :
      (e : Entitlements) (ps : List PromotionRequest)
      → ctx.entitlements ≡ some e
      → Shows ctx
          (write_json 200 (promotion_list (filter (λ p. may_read e p.target_namespace_id) ps)))
  kept-Shows e ps q =
      Shows-write ctx 200 (promotion_list (filter (λ p. may_read e p.target_namespace_id) ps)) (
        All-In (λ p. ReadsIn ctx p.target_namespace_id) _
          λ p i. let (j, h) = In-filter (λ x. may_read e x.target_namespace_id) p ps i in (e, q, h))

  pub list_promotions-Shows : Shows ctx (Promotions.list_promotions srv ctx r)
  unfolding Promotions.list_promotions
  list_promotions-Shows = Shows-entitled ctx _ λ e q.
      filtered-Shows e (get_value (text "namespace") r.query) _ λ ns.
        Shows-call ctx
          (on_pool (
            Requests.list ns (Facts.given (get_value (text "state") r.query)) (
              Promotions.proposer_of (id_or_blank ctx.principal)
                (get_value (text "proposer") r.query))))
          (λ err. write_error 500 (text "list failed"))
          (λ ps.
            write_json 200 (promotion_list (filter (λ p. may_read e p.target_namespace_id) ps)))
          (λ err. said 500 (text "list failed")) λ ps s t h. kept-Shows e ps q

  readable-Shows :
      (o : Option Entitlements) (ns : List Namespace)
      → ctx.entitlements ≡ o
      → (n : Namespace) → In n (filter (λ x. Spaces.reads o x.id) ns)
      → May ctx n.id read_facts
  readable-Shows none ns q n i = absurd (ground (arith, In-filter (λ x. false) n ns i))
  readable-Shows (some e) ns q n i =
      let (j, h) = In-filter (λ x. may_read e x.id) n ns i in (e, q, h)

  pub list_namespaces-Shows : Shows ctx (Spaces.list_namespaces srv ctx)
  unfolding Spaces.list_namespaces
  list_namespaces-Shows =
      Shows-call ctx Registrar.list (λ err. write_error 500 (text "list failed"))
        (λ ns.
          write_json 200 (namespace_list (filter (λ n. Spaces.reads ctx.entitlements n.id) ns)))
        (λ err. said 500 (text "list failed"))
        λ ns s t h.
          Shows-write ctx 200 (namespace_list (filter (λ n. Spaces.reads ctx.entitlements n.id) ns))
            (All-In (λ n. ReadsIn ctx n.id) _ (readable-Shows ctx.entitlements ns refl))

  pub list_members-Shows : Shows ctx (Members.list_members_handler srv ctx r)
  unfolding Members.list_members_handler
  list_members-Shows = Shows-parse_id ctx srv r _ λ id. Shows-authorize ctx id read_facts _ λ may.
      Shows-call ctx (Grants.list_members id) (λ err. write_error 500 (text "list members failed"))
        (λ ms. write_json 200 (member_list (map Members.member_view ms)))
        (λ err. said 500 (text "list members failed"))
        λ ms s t h. Shows-write ctx 200 (member_list (map Members.member_view ms)) tt

  pub get_namespace-Shows : Shows ctx (Spaces.get_namespace srv ctx r)
  unfolding Spaces.get_namespace
  get_namespace-Shows = Shows-parse_id ctx srv r _ λ id. Shows-authorize ctx id read_facts _ λ may.
      Shows-call ctx (Registrar.get id) (Spaces.namespace_failed (text "get failed"))
        (λ n. write_json 200 (namespace_body n)) (namespace_failed-Shows (text "get failed"))
        λ n s t h.
          Shows-write ctx 200 (namespace_body n)
            (subst (λ x. May ctx x read_facts) (sym (namespace-found id n s t h)) may)
