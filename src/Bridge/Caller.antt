-- ===== src/Bridge/Caller.antt =====
-- internal/mcpbridge over internal/server: in whose name a tool acts.
use baseline.Bridge.Tools.{
  ToolCall, run_tool, get_context_call, search_facts_call, list_namespaces_call, propose_fact_call,
  submit_promotion_call, list_my_promotions_call, review_promotion_call, save_memory_call,
  get_context, search_facts, list_namespaces, propose_fact, submit_promotion, list_my_promotions,
  review_promotion, save_memory, promotion_target, review_actions, review_body, memory_type,
  memory_types, memory_request,
}
use baseline.Bridge.{
  Bridge, ToolReply, new, call, error_result, message_of, content_type, principal_header,
}
use baseline.Facts.Key.{trim_space, to_lower}
use baseline.Json.{Json}
use baseline.Prelude.{
  contains, ◌≡◌, refl, ◌∙◌, sym, subst, ◌⊎◌, inl, inr, Bool, true, false, Option, none, some, [],
  ◌∷◌, if◌then◌else◌, ◌==◌, nat_eq, Text, text_eq, text, ℕ_discrete, Text-discrete, arith,
}
use baseline.Rbac.{Principal}
use baseline.Server.Auth.{header_authenticate, Authenticated, identified, unauthenticated}
use baseline.Server.Respond.{get_value}
use baseline.Server.Routes.Dispatch.{
  http_handler, Router, Routed, Method, method_post, Message, path_of, request_of, routed,
}
use baseline.Server.Routes.Served.{serve_http-Needed, Needed}
use baseline.Server.{Server, HttpRequest}
use baseline.Store.{Db, Session}

-- Whom a tool acts for: never a platform admin.
abbrev pub caller : Text → Principal
caller principal = record { id = trim_space principal; platform_admin = false }

abbrev authenticated : Text → Authenticated
authenticated principal =
    if trim_space principal == [] then unauthenticated else identified (caller principal)

header_authenticate-bridge :
    (principal : Text) (body : Option Json) (r : HttpRequest)
    → r.headers ≡ (principal_header, principal) ∷ content_type body
    → header_authenticate r ≡ authenticated principal
unfolding header_authenticate get_value to_lower ℕ_discrete Text-discrete
header_authenticate-bridge principal none r h = rw h refl
header_authenticate-bridge principal (some body) r h = rw h refl

authenticated-caller :
    (principal : Text) (p : Principal)
    → authenticated principal ≡ identified p
    → ((trim_space principal == []) ≡ false) × (caller principal ≡ p)
authenticated-caller principal p h = ground arith

module _ (srv : Server) (router : Router) (principal : Text) where
  abbrev bridge : Bridge
  bridge = new (http_handler srv header_authenticate router) principal

  -- What the route asks of the caller, for a request that the router knows.
  abbrev pub Asked : Db → Type 0
  Asked db =
      ((trim_space principal == []) ≡ false)
      × (m : Message) × (found : Routed) × (router m.method (path_of m) m.body ≡ some found)
      × Needed srv (request_of m found) found.route (caller principal) db

  record Acts (t : ToolReply) : Type 0 where
    at : (s : Session) → ((t s).1.db ≡ s.db) ⊎ Asked s.db

  -- A request that the router knows.
  served-Acts :
      (m : Message) (body : Option Json) (found : Routed) (s : Session)
      → m.headers ≡ (principal_header, principal) ∷ content_type body
      → router m.method (path_of m) m.body ≡ some found
      → ((routed srv header_authenticate m (some found) s).1.db ≡ s.db) ⊎ Asked s.db
  unfolding request_of
  served-Acts m body found s h k =
      let r = request_of m found in
      elim (serve_http-Needed srv header_authenticate r found.route s) [
        | inl still ↦ inl still
        | inr (p, who, needed) ↦
            let (named, same) =
              authenticated-caller principal p
                (sym (header_authenticate-bridge principal body r h) ∙ who) in
            inr (named, m, found, k, subst (λ x. Needed srv r found.route x s.db) (sym same) needed)
      ]

  routed-Acts :
      (m : Message) (body : Option Json) (o : Option Routed) (s : Session)
      → m.headers ≡ (principal_header, principal) ∷ content_type body
      → router m.method (path_of m) m.body ≡ o
      → ((routed srv header_authenticate m o s).1.db ≡ s.db) ⊎ Asked s.db
  routed-Acts m body none s h k = inl refl
  routed-Acts m body (some found) s h k = served-Acts m body found s h k

  call-Acts :
      (method : Method) (target : Text) (body : Option Json) → Acts (call bridge method target body)
  unfolding call http_handler message_of
  call-Acts method target body = record {
    at = λ s. routed-Acts (message_of bridge method target body) body _ s refl refl;
  }

  error_result-Acts : (msg : Text) → Acts (error_result msg)
  error_result-Acts msg = record { at = λ s. inl refl }

  if-Acts : (b : Bool) (t u : ToolReply) → Acts t → Acts u → Acts (if b then t else u)
  if-Acts true t u h k = h
  if-Acts false t u h k = k

  run_tool-Acts : (c : ToolCall) → Acts (run_tool bridge c)
  unfolding run_tool get_context search_facts list_namespaces propose_fact submit_promotion
      list_my_promotions review_promotion save_memory
  run_tool-Acts (get_context_call i) = call-Acts _ _ _
  run_tool-Acts (search_facts_call i) = call-Acts _ _ _
  run_tool-Acts list_namespaces_call = call-Acts _ _ _
  run_tool-Acts (propose_fact_call i) = call-Acts _ _ _
  run_tool-Acts (submit_promotion_call id) =
      if-Acts (id == []) _ _ (error_result-Acts (text "promotion_id is required"))
        (call-Acts method_post (promotion_target id (text "submit")) none)
  run_tool-Acts (list_my_promotions_call state) = call-Acts _ _ _
  run_tool-Acts (review_promotion_call i) =
      if-Acts (contains i.action review_actions) _ _
        (call-Acts method_post (promotion_target i.promotion_id i.action) (some (review_body i)))
        (error_result-Acts (text "action must be approve|reject|request-changes"))
  run_tool-Acts (save_memory_call i) =
      if-Acts (i.content == []) _ _ (error_result-Acts (text "content is required")) (
        if-Acts (contains (memory_type i.type) memory_types) _ _
          (call-Acts method_post (text "/v1/memories") (some (memory_request i)))
          (error_result-Acts (text "type must be semantic|procedural|episodic")))

-- Whatever the router, the database after a tool of the bridge is the one before, unless the bridge has
-- a principal that is not blank, of which the route of a request asks what it asks of a principal that
-- is no platform admin.
pub run_tool-Asked :
    (srv : Server) (router : Router) (principal : Text) (c : ToolCall) (s : Session)
    → ((run_tool (new (http_handler srv header_authenticate router) principal) c s).1.db ≡ s.db)
      ⊎ Asked srv router principal s.db
run_tool-Asked srv router principal c s = (run_tool-Acts srv router principal c).at s
