-- ===== src/Server/Routes/Disclosed/Lists.antt =====
-- internal/server: the listing of facts and the context show only what their caller may read.
use baseline.ContextSvc as ContextSvc
use baseline.ContextSvc.Placed.{resolve-Placed}
use baseline.ContextSvc.{Item}
use baseline.Facts.Listing.{list_facts, listing, listing-scoped, ListFilter, meets}
use baseline.Facts.{Fact}
use baseline.Prelude.{
  All-In, any, any-In, In-any, ℕ, ◌≡◌, refl, sym, subst, inl, inr, true, false, Option, none, some,
  List, [], ◌∷◌, In, In-filter, filter, contains, arith, Text, text, ◌==◌, nat_eq, text_eq,
}
use baseline.Rbac.{Entitlements, may_read}
use baseline.Server.Facts
use baseline.Server.Reading
use baseline.Server.Respond.{get_value}
use baseline.Server.Routes.Disclosed.{
  ReadsIn, OfNamespace, Shows, Shows-write, Shows-call, Shows-if, Shows-entitled,
}
use baseline.Server.{
  Server, HttpRequest, Context, Reply, write_json, write_error, fact_list, item_list, message,
}
use baseline.Store.Atomic.{settle-done}
use baseline.Store.Transactions.{exec-done}
use baseline.Store.{Db, Session, done, exec, on_pool}

-- A statement that only selects answers with what it selects.
pool-selected :
    {A : Type 0} (q : ℕ → Db → A) (a : A) (s t : Session)
    → on_pool (exec (λ now db. some (q now db, db))) s ≡ done a t
    → q s.now s.db ≡ a
unfolding on_pool
pool-selected q a s t h =
    let s' = record s { aborted = false } in
    let (u, e, _) = settle-done (exec (λ now db. some (q now db, db)) s') a t h in
    let (_, found, _) = exec-done (λ now db. some (q now db, db)) s' e in ground arith

abbrev ReadableBy : Entitlements → List ℕ → Type 0
ReadableBy e scope = (id : ℕ) → contains id scope ≡ true → may_read e id ≡ true

readable-scope : (e : Entitlements) → ReadableBy e e.readable
unfolding may_read
readable-scope e id h = ground arith

readable-one : (e : Entitlements) (id : ℕ) → may_read e id ≡ true → ReadableBy e (id ∷ [])
unfolding contains any
readable-one e id h j k = ground arith

readable-narrowed :
    (e : Entitlements) (want : List ℕ) → ReadableBy e (filter (λ id. contains id want) e.readable)
unfolding contains
readable-narrowed e want id h =
    let (x, i, same) = any-In (λ x. x == id) (filter (λ y. contains y want) e.readable) h in
    let (j, _) = In-filter (λ y. contains y want) x e.readable i in
    readable-scope e id (In-any (λ x. x == id) x e.readable j same)

module _ (srv : Server) (ctx : Context) (r : HttpRequest) where
  in_scope-Shows :
      (e : Entitlements) (o : Option ℕ) (next : List ℕ → Reply)
      → ((scope : List ℕ) → ReadableBy e scope → Shows ctx (next scope))
      → Shows ctx (Facts.in_scope e o next)
  in_scope-Shows e none next k = Shows-write ctx 400 (message (text "invalid namespace")) tt
  in_scope-Shows e (some id) next k =
      Shows-if ctx (may_read e id) (next (id ∷ [])) (write_error 403 (text "forbidden"))
        (λ h. k (id ∷ []) (readable-one e id h))
        (λ h. Shows-write ctx 403 (message (text "forbidden")) tt)

  scoped-Shows :
      (e : Entitlements) (v : Text) (next : List ℕ → Reply)
      → ((scope : List ℕ) → ReadableBy e scope → Shows ctx (next scope))
      → Shows ctx (Facts.scoped srv e v next)
  scoped-Shows e [] next k = k e.readable (readable-scope e)
  scoped-Shows e (c ∷ v) next k = in_scope-Shows e (srv.parse_uuid (c ∷ v)) next k

  listed-Shows :
      (e : Entitlements) (flt : ListFilter) (scope : List ℕ) (fs all : List Fact)
      → ctx.entitlements ≡ some e
      → flt.namespaces ≡ some scope
      → ReadableBy e scope
      → listing srv.distance flt all ≡ fs
      → Shows ctx (write_json 200 (fact_list fs))
  listed-Shows e flt scope fs all q is may h = Shows-write ctx 200 (fact_list fs) (
      All-In (λ f. ReadsIn ctx f.namespace_id) fs
        λ f i.
          let (j, within, st, tags) =
            listing-scoped srv.distance flt all f (subst (λ x. In f x) (sym h) i) in
          (
            e,
            q,
            may f.namespace_id (subst (λ o. meets o (contains f.namespace_id) ≡ true) is within),
          ))

  pub list_facts-Shows : Shows ctx (Facts.list_facts_handler srv ctx r)
  unfolding Facts.list_facts_handler list_facts Facts.list_filter
  list_facts-Shows = Shows-entitled ctx _ λ e q.
      scoped-Shows e (get_value (text "namespace") r.query) _ λ scope may.
        Shows-call ctx (on_pool (list_facts srv.distance (Facts.list_filter srv r scope)))
          (λ err. write_error 500 (text "list failed")) (λ fs. write_json 200 (fact_list fs))
          (λ err. Shows-write ctx 500 (message (text "list failed")) tt)
          λ fs s t h.
            listed-Shows e (Facts.list_filter srv r scope) scope fs s.db.facts q refl may (
              pool-selected
                (λ now db. listing srv.distance (Facts.list_filter srv r scope) db.facts) fs s t h)

  narrowed-Shows :
      (e : Entitlements) (o : Option (List ℕ)) (next : List ℕ → Reply)
      → ((scope : List ℕ) → ReadableBy e scope → Shows ctx (next scope))
      → Shows ctx (Reading.narrowed e.readable o next)
  narrowed-Shows e none next k = Shows-write ctx 400 (message (text "invalid namespaces filter")) tt
  narrowed-Shows e (some want) next k = k _ (readable-narrowed e want)

  override-Shows :
      (e : Entitlements) (v : Text) (next : List ℕ → Reply)
      → ((scope : List ℕ) → ReadableBy e scope → Shows ctx (next scope))
      → Shows ctx (Reading.override srv e.readable v next)
  override-Shows e [] next k = k e.readable (readable-scope e)
  override-Shows e (c ∷ v) next k = narrowed-Shows e _ next k

  placed-Shows :
      (e : Entitlements) (q : ContextSvc.Query) (items : List Item) (s t : Session)
      → ctx.entitlements ≡ some e
      → ReadableBy e q.namespaces
      → ContextSvc.resolve srv.memories q s ≡ done items t
      → Shows ctx (write_json 200 (item_list items))
  placed-Shows e q items s t known may h = Shows-write ctx 200 (item_list items) (
      All-In (λ i. OfNamespace (ReadsIn ctx) i.namespace_id) items
        λ i j. elim (resolve-Placed srv.memories q s t items i h j) [
          | inl nowhere ↦ subst (OfNamespace (ReadsIn ctx)) (sym nowhere) tt
          | inr (ns, there, within) ↦
              subst (OfNamespace (ReadsIn ctx)) (sym there) (e, known, may ns within)
        ])

  pub get_context-Shows : Shows ctx (Reading.get_context srv ctx r)
  unfolding Reading.get_context Reading.context_query
  get_context-Shows = Shows-entitled ctx _ λ e known.
      override-Shows e (get_value (text "namespaces") r.query) _ λ scope may.
        Shows-call ctx (ContextSvc.resolve srv.memories (Reading.context_query ctx r scope))
          (λ err. write_error 500 (text "context resolution failed"))
          (λ items. write_json 200 (item_list items))
          (λ err. Shows-write ctx 500 (message (text "context resolution failed")) tt)
          λ items s t h. placed-Shows e (Reading.context_query ctx r scope) items s t known may h
