-- ===== src/Server/Routes/Queries.antt =====
-- internal/server: the handlers that only read leave the database as it is, whoever calls.
use baseline.ContextSvc as ContextSvc
use baseline.Facts.Listing.{list_facts}
use baseline.Facts.Repo.{fact_key}
use baseline.Facts.Service as FactService
use baseline.Facts.{Fact}
use baseline.Namespaces.Repo as Registrar
use baseline.Prelude.{
  ℕ, ◌≡◌, sym, ap, ◌∙◌, inl, Option, none, some, List, [], ◌∷◌, arith, Text, ◌==◌, nat_eq, text_eq,
}
use baseline.Promotions.Repo as Requests
use baseline.Promotions.Repo.{promotion_key}
use baseline.Rbac.Repo as Grants
use baseline.Rbac.{Action, Entitlements, may_read}
use baseline.Server.Facts
use baseline.Server.Members
use baseline.Server.Memories
use baseline.Server.Promotions
use baseline.Server.Promotions.{
  ProposeReq, ReviewAction, submit, approve, reject, request_changes, withdraw, CommentReq,
}
use baseline.Server.Reading
use baseline.Server.Routes.Reads.{
  Still, May, Guarded, Guarded-write, Guarded-call, Guarded-if, Guarded-parse_id, Guarded-authorize,
  Guarded-entitled, select-Still, pool-Still, get-Still, get_by_id-Still, get_namespace-Still,
  get-found,
}
use baseline.Server.Spaces
use baseline.Server.{Server, HttpRequest, Context, Reply}
use baseline.Store.Keeps.{Keeps, Keeps->>=, Keeps-pure, Keeps-on_pool, Keeps-if}
use baseline.Store.Table.{find}
use baseline.Store.{Db}

module _ (srv : Server) (ctx : Context) (r : HttpRequest) (d : Db) (C : Type 0) where
  resolve-Still : (q : ContextSvc.Query) → Keeps (Still d) (ContextSvc.resolve srv.memories q)
  unfolding ContextSvc.resolve
  resolve-Still q =
      Keeps-if (Still d) (q.namespaces == []) (Keeps-pure (Still d)) (
        Keeps-on_pool (Still d) (Keeps->>= (Still d) (select-Still d _) λ fs. Keeps-pure (Still d)))

  pub list_namespaces-Guarded : Guarded d C (Spaces.list_namespaces srv ctx)
  unfolding Spaces.list_namespaces Registrar.list
  list_namespaces-Guarded =
      Guarded-call d C _ _ _ (pool-Still d _) (λ e. Guarded-write d C _ _)
        (λ a s t h e. Guarded-write d C _ _)

  pub get_namespace-Guarded : Guarded d C (Spaces.get_namespace srv ctx r)
  unfolding Spaces.get_namespace
  get_namespace-Guarded = Guarded-parse_id d C srv r _ λ id q.
      Guarded-authorize d C ctx id _ _ λ may.
        Guarded-call d C _ _ _ (get_namespace-Still d id)
          (λ e. record { at = λ s h. inl (ground arith) }) (λ a s t h e. Guarded-write d C _ _)

  pub list_members-Guarded : Guarded d C (Members.list_members_handler srv ctx r)
  unfolding Members.list_members_handler Grants.list_members
  list_members-Guarded = Guarded-parse_id d C srv r _ λ id q.
      Guarded-authorize d C ctx id _ _ λ may.
        Guarded-call d C _ _ _ (pool-Still d _) (λ e. Guarded-write d C _ _)
          (λ a s t h e. Guarded-write d C _ _)

  filtered-Guarded :
      (e : Entitlements) (v : Text) (next : Option ℕ → Reply)
      → ((o : Option ℕ) → Guarded d C (next o))
      → Guarded d C (Promotions.filtered srv e v next)
  filtered-Guarded e [] next k = k none
  filtered-Guarded e (c ∷ v) next k = record {
    at = λ s h. ground (arith, (k (srv.parse_uuid (c ∷ v))).at s h);
  }

  pub list_promotions-Guarded : Guarded d C (Promotions.list_promotions srv ctx r)
  unfolding Promotions.list_promotions Requests.list
  list_promotions-Guarded = Guarded-entitled d C ctx _ λ e. filtered-Guarded e _ _ λ ns.
      Guarded-call d C _ _ _ (pool-Still d _) (λ e. Guarded-write d C _ _)
        (λ a s t h e. Guarded-write d C _ _)

  pub get_promotion-Guarded : Guarded d C (Promotions.get_promotion srv ctx r)
  unfolding Promotions.get_promotion
  get_promotion-Guarded = Guarded-parse_id d C srv r _ λ id q.
      Guarded-call d C _ _ _ (get_by_id-Still d id) (λ e. record { at = λ s h. inl (ground arith) })
        (λ p s t h e.
          Guarded-authorize d C ctx p.target_namespace_id _ _ λ may. Guarded-write d C _ _)

  in_scope-Guarded :
      (e : Entitlements) (o : Option ℕ) (next : List ℕ → Reply)
      → ((ns : List ℕ) → Guarded d C (next ns))
      → Guarded d C (Facts.in_scope e o next)
  in_scope-Guarded e none next k = Guarded-write d C _ _
  in_scope-Guarded e (some id) next k =
      Guarded-if d C (may_read e id) _ _ (λ h. k (id ∷ [])) (λ h. Guarded-write d C _ _)

  scoped-Guarded :
      (e : Entitlements) (v : Text) (next : List ℕ → Reply)
      → ((ns : List ℕ) → Guarded d C (next ns))
      → Guarded d C (Facts.scoped srv e v next)
  scoped-Guarded e [] next k = k e.readable
  scoped-Guarded e (c ∷ v) next k = in_scope-Guarded e (srv.parse_uuid (c ∷ v)) next k

  pub list_facts-Guarded : Guarded d C (Facts.list_facts_handler srv ctx r)
  unfolding Facts.list_facts_handler list_facts
  list_facts-Guarded = Guarded-entitled d C ctx _ λ e. scoped-Guarded e _ _ λ scope.
      Guarded-call d C _ _ _ (pool-Still d _) (λ e. Guarded-write d C _ _)
        (λ a s t h e. Guarded-write d C _ _)

  -- What may be done with the fact of the path.
  pub with_fact-Guarded :
      (a : Action) (next : ℕ → Fact → Reply)
      → ((id : ℕ) (f : Fact)
          → srv.parse_uuid r.id_param ≡ some id
          → find fact_key id d.facts ≡ some f
          → May ctx f.namespace_id a
          → Guarded d C (next id f))
      → Guarded d C (Facts.with_fact srv ctx r a next)
  unfolding Facts.with_fact
  with_fact-Guarded a next k = Guarded-parse_id d C srv r _ λ id q.
      Guarded-call d C _ _ _ (get-Still d id) (λ e. record { at = λ s h. inl (ground arith) })
        (λ f s t h e.
          Guarded-authorize d C ctx f.namespace_id a _
            λ may. k id f q (ap (λ x. find fact_key id x.facts) (sym h) ∙ get-found id f s t e) may)

  pub get_fact-Guarded : Guarded d C (Facts.get_fact srv ctx r)
  unfolding Facts.get_fact
  get_fact-Guarded = with_fact-Guarded _ _ λ id f q e may. record { at = λ s h. inl h }

  pub get_fact_history-Guarded : Guarded d C (Facts.get_fact_history srv ctx r)
  unfolding Facts.get_fact_history FactService.history
  get_fact_history-Guarded = with_fact-Guarded _ _ λ id f q e may.
      Guarded-call d C _ _ _ (pool-Still d _) (λ e. Guarded-write d C _ _)
        (λ a s t h e. Guarded-write d C _ _)

  narrowed-Guarded :
      (readable : List ℕ) (o : Option (List ℕ)) (next : List ℕ → Reply)
      → ((ns : List ℕ) → Guarded d C (next ns))
      → Guarded d C (Reading.narrowed readable o next)
  narrowed-Guarded readable none next k = Guarded-write d C _ _
  narrowed-Guarded readable (some want) next k = k _

  override-Guarded :
      (readable : List ℕ) (v : Text) (next : List ℕ → Reply)
      → ((ns : List ℕ) → Guarded d C (next ns))
      → Guarded d C (Reading.override srv readable v next)
  override-Guarded readable [] next k = k readable
  override-Guarded readable (c ∷ v) next k = narrowed-Guarded readable _ next k

  pub get_context-Guarded : Guarded d C (Reading.get_context srv ctx r)
  unfolding Reading.get_context
  get_context-Guarded = Guarded-entitled d C ctx _ λ e. override-Guarded e.readable _ _ λ ns.
      Guarded-call d C _ _ _ (resolve-Still _) (λ e. Guarded-write d C _ _)
        (λ a s t h e. Guarded-write d C _ _)

  pub add_memory-Guarded :
      (body : Option Memories.AddMemoryReq) → Guarded d C (Memories.add_memory srv ctx body)
  unfolding Memories.add_memory
  add_memory-Guarded body = record { at = λ s h. inl (ground arith) }
