-- ===== src/Server/Routes/Guarded.antt =====
-- internal/server: a request changes the database only for a caller who may do so.
use baseline.Namespaces.{Policy}
use baseline.Prelude.{
  subst, ℕ, ◌≡◌, refl, sym, ap, ◌∙◌, ◌⊎◌, inl, inr, true, Option, none, some, arith, nat_eq,
  text_eq,
}
use baseline.Promotions.Repo.{promotion_key}
use baseline.Promotions.{PromotionRequest}
use baseline.Server.Facts
use baseline.Server.Members
use baseline.Server.Promotions
use baseline.Server.Promotions.{
  ProposeReq, ReviewAction, submit, approve, reject, request_changes, withdraw, CommentReq,
}
use baseline.Server.Routes.Reads.{
  May, Guarded, Guarded-write, Guarded-any, Guarded-call, Guarded-if, Guarded-parse_id,
  Guarded-authorize, on_result-Guarded, get_by_id-Still, get_by_id-found,
}
use baseline.Server.Routes.Writes.{Own, submit-Own, withdraw-Own}
use baseline.Server.Routes.{
  Route, handle, namespaces_get, namespaces_post, namespace_get, namespace_patch, members_get,
  members_post, member_delete, promotions_post, promotions_get, promotion_get, promotion_post,
  facts_get, fact_get, fact_history_get, fact_patch, context_get, memories_post,
}
use baseline.Server.Routes.Permitted.{Permitted}
use baseline.Server.Routes.Queries.{
  list_namespaces-Guarded, get_namespace-Guarded, list_members-Guarded, list_promotions-Guarded,
  get_promotion-Guarded, list_facts-Guarded, with_fact-Guarded, get_fact-Guarded,
  get_fact_history-Guarded, get_context-Guarded, add_memory-Guarded,
}
use baseline.Server.Spaces
use baseline.Server.{
  Server, HttpRequest, Context, Reply, call, is_platform_admin, require_platform_admin, id_or_blank,
  write_json, promotion_body,
}
use baseline.Store.Keeps.{session}
use baseline.Store.Table.{find}
use baseline.Store.{Db, Session, Tx, Error}

module _ (srv : Server) (ctx : Context) (r : HttpRequest) (d : Db) where
  -- What the route asks of the context's caller.
  abbrev Needs : Route → Type 0
  Needs =
      Permitted d (srv.parse_uuid r.id_param) (id_or_blank ctx.principal)
        (is_platform_admin ctx.principal ≡ true) (May ctx)

  create_namespace-Guarded :
      (body : Option Spaces.CreateNamespaceReq)
      → Guarded d (Needs (namespaces_post body)) (Spaces.create_namespace srv ctx body)
  unfolding Spaces.create_namespace require_platform_admin
  create_namespace-Guarded body =
      Guarded-if d _ (is_platform_admin ctx.principal) _ _ (λ h. Guarded-any d _ _ h)
        (λ h. Guarded-write d _ _ _)

  patch_namespace_policy-Guarded :
      (body : Option Policy)
      → Guarded d (Needs (namespace_patch body)) (Spaces.patch_namespace_policy srv ctx r body)
  unfolding Spaces.patch_namespace_policy
  patch_namespace_policy-Guarded body =
      Guarded-parse_id d _ srv r _
        λ id q. Guarded-authorize d _ ctx id _ _ λ may. Guarded-any d _ _ (id, q, may)

  add_member-Guarded :
      (body : Option Members.AddMemberReq)
      → Guarded d (Needs (members_post body)) (Members.add_member srv ctx r body)
  unfolding Members.add_member
  add_member-Guarded body =
      Guarded-parse_id d _ srv r _
        λ id q. Guarded-authorize d _ ctx id _ _ λ may. Guarded-any d _ _ (id, q, may)

  remove_member-Guarded : Guarded d (Needs member_delete) (Members.remove_member srv ctx r)
  unfolding Members.remove_member
  remove_member-Guarded =
      Guarded-parse_id d _ srv r _
        λ id q. Guarded-authorize d _ ctx id _ _ λ may. Guarded-any d _ _ (id, q, may)

  create_promotion-Guarded :
      (body : Option ProposeReq)
      → Guarded d (Needs (promotions_post body)) (Promotions.create_promotion srv ctx r body)
  unfolding Promotions.create_promotion
  create_promotion-Guarded none = Guarded-write d _ _ _
  create_promotion-Guarded (some req) =
      Guarded-authorize d _ ctx req.target_namespace _ _ λ may. Guarded-any d _ _ may

  -- The caller's own request is asked for by the service.
  call-Own :
      (C : Type 0) (m : Tx PromotionRequest) (bad : Error → Reply) (good : PromotionRequest → Reply)
      (id : ℕ)
      → ((s : Session) → ((session (m s)).db ≡ s.db) ⊎ Own s.db id (id_or_blank ctx.principal))
      → ((e : Error) → Guarded d C (bad e))
      → ((p : PromotionRequest) → Guarded d C (good p))
      → (Own d id (id_or_blank ctx.principal) → C)
      → Guarded d C (call m bad good)
  call-Own C m bad good id own k l c = record {
    at = λ s h. elim (own s) [
      | inl same ↦ on_result-Guarded d C (m s) bad good (same ∙ h) k (λ a t e. l a)
      | inr mine ↦ inr (c (subst (λ x. Own x id (id_or_blank ctx.principal)) h mine))
    ];
  }

  abbrev failed : Error → Reply
  failed err = Promotions.mapped err (Promotions.map_workflow_err err)

  abbrev replied : PromotionRequest → Reply
  replied out = write_json 200 (promotion_body out)

  mapped-Guarded : (C : Type 0) (e : Error) (o : Option ℕ) → Guarded d C (Promotions.mapped e o)
  mapped-Guarded C e none = Guarded-write d C _ _
  mapped-Guarded C e (some code) = Guarded-write d C _ _

  module _ (body : CommentReq) (id : ℕ) (p : PromotionRequest)
      (q : srv.parse_uuid r.id_param ≡ some id)
      (found : find promotion_key id d.promotions ≡ some p) where
    abbrev acted : ReviewAction → Reply
    acted action =
        call (Promotions.act srv action id (id_or_blank ctx.principal) body) failed replied

    acted-Guarded :
        (action : ReviewAction)
        → Guarded d
            (Needs (promotion_post action body))
            (Promotions.guarded ctx action p.target_namespace_id (acted action))
    acted-Guarded submit =
        call-Own _ (Promotions.act srv submit id (id_or_blank ctx.principal) body) failed replied id
          (submit-Own id (id_or_blank ctx.principal))
          (λ e. mapped-Guarded _ e (Promotions.map_workflow_err e))
          (λ out. Guarded-write d _ 200 (promotion_body out))
          (λ own. let (p', found', mine) = own in (p', id, q, found', mine))
    acted-Guarded withdraw =
        call-Own _ (Promotions.act srv withdraw id (id_or_blank ctx.principal) body) failed replied
          id (withdraw-Own id (id_or_blank ctx.principal))
          (λ e. mapped-Guarded _ e (Promotions.map_workflow_err e))
          (λ out. Guarded-write d _ 200 (promotion_body out))
          (λ own. let (p', found', mine) = own in (p', id, q, found', mine))
    acted-Guarded approve =
        Guarded-authorize d _ ctx p.target_namespace_id _ _
          λ may. Guarded-any d _ _ (p, id, q, found, may)
    acted-Guarded reject =
        Guarded-authorize d _ ctx p.target_namespace_id _ _
          λ may. Guarded-any d _ _ (p, id, q, found, may)
    acted-Guarded request_changes =
        Guarded-authorize d _ ctx p.target_namespace_id _ _
          λ may. Guarded-any d _ _ (p, id, q, found, may)

  promotion_action-Guarded :
      (action : ReviewAction) (body : CommentReq)
      → Guarded d
          (Needs (promotion_post action body))
          (Promotions.promotion_action srv ctx r action body)
  unfolding Promotions.promotion_action
  promotion_action-Guarded action body = Guarded-parse_id d _ srv r _ λ id q.
      Guarded-call d _ _ _ _ (get_by_id-Still d id) (λ e. record { at = λ s h. inl (ground arith) })
        (λ p s t h e.
          acted-Guarded body id p q
            (ap (λ x. find promotion_key id x.promotions) (sym h) ∙ get_by_id-found id p s t e)
            action)

  revoke_fact-Guarded : Guarded d (Needs fact_patch) (Facts.revoke_fact srv ctx r)
  unfolding Facts.revoke_fact
  revoke_fact-Guarded =
      with_fact-Guarded srv ctx r d _ _ _ λ id f q e may. Guarded-any d _ _ (f, id, q, e, may)

  handle-Guarded : (route : Route) → Guarded d (Needs route) (handle srv ctx r route)
  unfolding handle
  handle-Guarded namespaces_get = list_namespaces-Guarded srv ctx r d _
  handle-Guarded (namespaces_post body) = create_namespace-Guarded body
  handle-Guarded namespace_get = get_namespace-Guarded srv ctx r d _
  handle-Guarded (namespace_patch body) = patch_namespace_policy-Guarded body
  handle-Guarded members_get = list_members-Guarded srv ctx r d _
  handle-Guarded (members_post body) = add_member-Guarded body
  handle-Guarded member_delete = remove_member-Guarded
  handle-Guarded (promotions_post body) = create_promotion-Guarded body
  handle-Guarded promotions_get = list_promotions-Guarded srv ctx r d _
  handle-Guarded promotion_get = get_promotion-Guarded srv ctx r d _
  handle-Guarded (promotion_post action body) = promotion_action-Guarded action body
  handle-Guarded facts_get = list_facts-Guarded srv ctx r d _
  handle-Guarded fact_get = get_fact-Guarded srv ctx r d _
  handle-Guarded fact_history_get = get_fact_history-Guarded srv ctx r d _
  handle-Guarded fact_patch = revoke_fact-Guarded
  handle-Guarded context_get = get_context-Guarded srv ctx r d _
  handle-Guarded (memories_post body) = add_memory-Guarded srv ctx r d _ body

-- A handler leaves the database as it is, unless the route permits the context's caller.
pub handle-Permitted :
    (srv : Server) (ctx : Context) (r : HttpRequest) (route : Route) (s : Session)
    → ((handle srv ctx r route s).1.db ≡ s.db)
      ⊎ Permitted s.db
          (srv.parse_uuid r.id_param)
          (id_or_blank ctx.principal)
          (is_platform_admin ctx.principal ≡ true)
          (May ctx)
          route
handle-Permitted srv ctx r route s = (handle-Guarded srv ctx r s.db route).at s refl
