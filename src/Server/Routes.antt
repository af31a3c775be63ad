-- ===== src/Server/Routes.antt =====
-- `Handler` of internal/server/server.go: the routes under /v1, behind the middleware. Which of them a
-- request takes is the router's to say; a route carries the body that its handler decodes.
pub mod Reads
pub mod Queries
pub mod Writes
pub mod Permitted
pub mod Guarded
pub mod Dispatch
pub mod Disclosed
pub mod Served
use baseline.Namespaces.{Policy}
use baseline.Prelude.{Option, some}
use baseline.Server.Auth.{authn, Authenticated}
use baseline.Server.Facts.{list_facts_handler, get_fact, get_fact_history, revoke_fact}
use baseline.Server.Members.{list_members_handler, add_member, remove_member, AddMemberReq}
use baseline.Server.Memories.{add_memory, AddMemoryReq}
use baseline.Server.Promotions.{
  create_promotion, list_promotions, get_promotion, promotion_action, ProposeReq, CommentReq,
  ReviewAction,
}
use baseline.Server.Reading.{get_context}
use baseline.Server.Spaces.{
  list_namespaces, create_namespace, get_namespace, patch_namespace_policy, CreateNamespaceReq,
}
use baseline.Server.{
  HttpRequest, Server, Context, Reply, write_json, write_error, call, status_body,
}
use baseline.Prelude.{text}
use baseline.Store.{exec, on_pool}

pub data Route : Type 0 where
  namespaces_get : Route
  namespaces_post : Option CreateNamespaceReq → Route
  namespace_get : Route
  namespace_patch : Option Policy → Route
  members_get : Route
  members_post : Option AddMemberReq → Route
  member_delete : Route
  promotions_post : Option ProposeReq → Route
  promotions_get : Route
  promotion_get : Route
  promotion_post : ReviewAction → CommentReq → Route
  facts_get : Route
  fact_get : Route
  fact_history_get : Route
  fact_patch : Route
  context_get : Route
  memories_post : Option AddMemoryReq → Route

unfoldable pub handle : Server → Context → HttpRequest → Route → Reply
handle srv ctx r namespaces_get = list_namespaces srv ctx
handle srv ctx r (namespaces_post body) = create_namespace srv ctx body
handle srv ctx r namespace_get = get_namespace srv ctx r
handle srv ctx r (namespace_patch body) = patch_namespace_policy srv ctx r body
handle srv ctx r members_get = list_members_handler srv ctx r
handle srv ctx r (members_post body) = add_member srv ctx r body
handle srv ctx r member_delete = remove_member srv ctx r
handle srv ctx r (promotions_post body) = create_promotion srv ctx r body
handle srv ctx r promotions_get = list_promotions srv ctx r
handle srv ctx r promotion_get = get_promotion srv ctx r
handle srv ctx r (promotion_post action body) = promotion_action srv ctx r action body
handle srv ctx r facts_get = list_facts_handler srv ctx r
handle srv ctx r fact_get = get_fact srv ctx r
handle srv ctx r fact_history_get = get_fact_history srv ctx r
handle srv ctx r fact_patch = revoke_fact srv ctx r
handle srv ctx r context_get = get_context srv ctx r
handle srv ctx r (memories_post body) = add_memory srv ctx body

-- A request under /v1.
unfoldable pub serve_http : Server → (HttpRequest → Authenticated) → HttpRequest → Route → Reply
unfolding handle authn
serve_http srv authenticate r route = authn authenticate r (λ ctx. handle srv ctx r route)

-- The two routes in front of the middleware; the ping is a statement of its own.
abbrev pub healthz : Reply
healthz = write_json 200 (status_body (text "ok"))

unfoldable pub readyz : Reply
unfolding on_pool exec
readyz =
    call (on_pool (exec (λ now db. some (tt, db)))) (λ err. write_error 503 (text "not ready"))
      (λ up. write_json 200 (status_body (text "ready")))
