-- ===== src/Examples/Tools.antt =====
-- Tools of internal/mcpbridge at concrete inputs.
use baseline.Bridge.Caller.{run_tool-Asked, Asked}
use baseline.Bridge.Received.{context_query-received}
use baseline.Bridge.Tools.{
  ToolCall, review_promotion_call, run_tool, promotion_target, GetContextIn, context_values,
}
use baseline.Bridge.{Bridge, new, is_error, call}
use baseline.ContextSvc.{Query}
use baseline.Examples.Sample.{db}
use baseline.Examples.Served.{server}
use baseline.Facts.Key.{trim_space, join}
use baseline.Facts.{Status-discrete}
use baseline.Prelude.{
  ◌≡◌, refl, ◌⊎◌, true, false, none, some, [], ◌∷◌, ◌++◌, text, ℕ_discrete, Text-discrete, pos,
  arith, all,
}
use baseline.Promotions.Workflow.Reviews.{approve_promotion}
use baseline.Promotions.{State-discrete, distinct_approvers, collect, Decision-discrete, add_key}
use baseline.Rbac.{role_reviewer, can, can_any}
use baseline.Requests.{open_session}
use baseline.Server.Auth.{header_authenticate}
use baseline.Server.Promotions.{approve, promotion_action}
use baseline.Server.Reading.{context_query}
use baseline.Server.Respond.{get_value}
use baseline.Server.Routes.Dispatch.{
  http_handler, Router, Message, Routed, method_get, method_post, request_of,
}
use baseline.Server.Routes.{promotion_post, context_get, serve_http}
use baseline.Server.{Server, Context}
use baseline.Store.{Db, Membership, Session}
use baseline.Url.Ascii.{all-IsAscii}
use baseline.Url.{encode}

abbrev bobs : Membership
bobs = record { principal = text "bob"; namespace_id = 0; role = role_reviewer }

abbrev governed : Db
governed = record db { memberships = bobs ∷ [] }

-- Every ID is that of request 3.
abbrev one_request : Server
one_request = record server { parse_uuid = λ t. some 3 }

abbrev to_approval : Router
to_approval method path body = some (record {
  route = promotion_post approve (record { comment = text "good"; suggested_statement = [] });
  id_param = text "3";
  principal_param = [];
})

abbrev start : Session
start = open_session governed 10 (λ n. false)

abbrev bobs_bridge : Bridge
bobs_bridge = new (http_handler one_request header_authenticate to_approval) (text " bob")

abbrev approval : ToolCall
approval = review_promotion_call (record {
  promotion_id = text "3";
  action = text "approve";
  comment = text "good";
  suggested_statement = [];
})

approval_answered : is_error (run_tool bobs_bridge approval start).0 ≡ false
unfolding run_tool is_error call http_handler header_authenticate can_any can Text-discrete
    ℕ_discrete Status-discrete serve_http request_of promotion_action approve_promotion
    State-discrete distinct_approvers collect Decision-discrete add_key
approval_answered = refl

run_tool-Asked_example :
    ((run_tool bobs_bridge approval start).1.db ≡ governed)
    ⊎ Asked one_request to_approval (text " bob") governed
run_tool-Asked_example = run_tool-Asked one_request to_approval (text " bob") approval start

abbrev odd : Message
odd = record {
  method = method_post;
  target = promotion_target (text "a/b?") (text "approve");
  headers = [];
  body = none;
}

abbrev asked : GetContextIn
asked = record {
  actor_id = text "ann";
  namespaces = [];
  include_memories = true;
  limit = pos 5;
  tags = text "a b,c";
}

abbrev ask : Message
ask = record {
  method = method_get;
  target = text "/v1/context?" ++ encode (context_values asked);
  headers = [];
  body = none;
}

abbrev found : Routed
found = record { route = context_get; id_param = []; principal_param = [] }

abbrev nobody : Context
nobody = record { principal = none; entitlements = none }

abbrev understood : Query
understood = record {
  actor_id = text "ann";
  namespaces = 0 ∷ [];
  include_memories = true;
  limit = 5;
  tags = text "a b" ∷ text "c" ∷ [];
}

context_query-received_example :
    (get_value (text "namespaces") (request_of ask found).query ≡ [])
    × (context_query nobody (request_of ask found) (0 ∷ []) ≡ understood)
unfolding all trim_space ℕ_discrete Text-discrete join
context_query-received_example =
    context_query-received nobody ask found asked (text "a b" ∷ text "c" ∷ []) (0 ∷ []) refl
      (all-IsAscii (text "ann") refl, tt, all-IsAscii (text "a b,c") refl) refl
      ((refl, refl, (refl, (refl, (refl, tt)))), ((refl, refl, (refl, tt)), tt)) (omega arith)
