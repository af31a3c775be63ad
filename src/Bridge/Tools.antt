-- ===== src/Bridge/Tools.antt =====
-- internal/mcpbridge/mcpbridge.go: the tools, from their typed input to the request.
use baseline.Bridge.{Bridge, ToolReply, call, error_result}
use baseline.Json.{
  Json, Items, Members, null, string, boolean, array, object, nil, cons, end, member,
}
use baseline.Prelude.{
  Bool, false, Option, none, some, List, [], ◌∷◌, ◌++◌, if◌then◌else◌, ◌==◌, nat_eq, Text, text_eq,
  text, ℤ, pos_part, ltb, itoa, contains,
}
use baseline.Server.Routes.Dispatch.{method_get, method_post}
use baseline.Url.{Values, set, encode, path_escape}

pub record GetContextIn : Type 0 where
  pub actor_id : Text
  pub namespaces : Text
  pub include_memories : Bool
  pub limit : ℤ
  pub tags : Text

pub record SearchFactsIn : Type 0 where
  pub query : Text
  pub namespace : Text
  pub status : Text
  pub tag : Text
  pub tags : Text
  pub limit : ℤ

-- A slice that was not given is `none`.
pub record ProposeFactIn : Type 0 where
  pub target_namespace : Text
  pub proposed_statement : Text
  pub subject : Members
  pub candidate_memory_ids : Option (List Text)
  pub tags : Option (List Text)

pub record SaveMemoryIn : Type 0 where
  pub content : Text
  pub type : Text

pub record ReviewPromotionIn : Type 0 where
  pub promotion_id : Text
  pub action : Text
  pub comment : Text
  pub suggested_statement : Text

-- `if v != "" { q.Set(k, v) }`
unfoldable pub set_given : Text → Text → Values → Values
unfolding set
set_given key value q = if value == [] then q else set key value q

abbrev pub set_limit : ℤ → Values → Values
set_limit limit q =
    if ltb 0 (pos_part limit) then set (text "limit") (itoa (pos_part limit)) q else q

unfoldable pub context_values : GetContextIn → Values
unfolding set_given set itoa
context_values i =
    let q =
      set_given (text "namespaces") i.namespaces (set_given (text "actor_id") i.actor_id []) in
    let r = if i.include_memories then set (text "include_memories") (text "true") q else q in
    set_limit i.limit (set_given (text "tags") i.tags r)

unfoldable pub get_context : Bridge → GetContextIn → ToolReply
unfolding call encode context_values
get_context b i = call b method_get (text "/v1/context?" ++ encode (context_values i)) none

-- The loop over a map of five values, in one of its orders; `Encode` puts the keys in order.
unfoldable pub search_values : SearchFactsIn → Values
unfolding set_given set itoa
search_values i = set_limit i.limit (
    set_given (text "tags") i.tags (
      set_given (text "tag") i.tag (
        set_given (text "status") i.status
          (set_given (text "namespace") i.namespace (set_given (text "q") i.query [])))))

unfoldable pub search_facts : Bridge → SearchFactsIn → ToolReply
unfolding call encode search_values
search_facts b i = call b method_get (text "/v1/facts?" ++ encode (search_values i)) none

abbrev pub strings : List Text → Items
strings [] = nil
strings (s ∷ ss) = cons (string s) (strings ss)

abbrev pub string_slice : Option (List Text) → Json
string_slice none = null
string_slice (some ss) = array (strings ss)

-- The keys of a map are encoded in their order.
unfoldable pub propose_body : ProposeFactIn → Json
propose_body i = object (
    member (text "candidate_memory_ids") (string_slice i.candidate_memory_ids) (
      member (text "proposed_statement") (string i.proposed_statement) (
        member (text "subject") (object i.subject) (
          member (text "tags") (string_slice i.tags)
            (member (text "target_namespace") (string i.target_namespace) end)))))

unfoldable pub propose_fact : Bridge → ProposeFactIn → ToolReply
unfolding call propose_body
propose_fact b i = call b method_post (text "/v1/promotions") (some (propose_body i))

unfoldable pub list_namespaces : Bridge → ToolReply
unfolding call
list_namespaces b = call b method_get (text "/v1/namespaces") none

abbrev pub promotion_target : Text → Text → Text
promotion_target id action = text "/v1/promotions/" ++ (path_escape id ++ (b'/' ∷ action))

unfoldable pub submit_promotion : Bridge → Text → ToolReply
unfolding call path_escape
submit_promotion b id =
    if id == []
    then error_result (text "promotion_id is required")
    else call b method_post (promotion_target id (text "submit")) none

unfoldable pub list_my_promotions : Bridge → Text → ToolReply
unfolding call encode set_given
list_my_promotions b state =
    let q = set_given (text "state") state ((text "proposer", text "me") ∷ []) in
    call b method_get (text "/v1/promotions?" ++ encode q) none

abbrev pub review_actions : List Text
review_actions = text "approve" ∷ text "reject" ∷ text "request-changes" ∷ []

unfoldable pub review_body : ReviewPromotionIn → Json
review_body i = object (
    member (text "comment") (string i.comment) (
      if i.suggested_statement == []
      then end
      else member (text "suggested_statement") (string i.suggested_statement) end))

unfoldable pub review_promotion : Bridge → ReviewPromotionIn → ToolReply
unfolding call path_escape contains review_body
review_promotion b i =
    if contains i.action review_actions
    then call b method_post (promotion_target i.promotion_id i.action) (some (review_body i))
    else error_result (text "action must be approve|reject|request-changes")

abbrev pub memory_types : List Text
memory_types = text "semantic" ∷ text "procedural" ∷ text "episodic" ∷ []

abbrev pub memory_type : Text → Text
memory_type given = if given == [] then text "semantic" else given

-- The memory is stored as it is, for the caller.
unfoldable pub memory_request : SaveMemoryIn → Json
memory_request i = object (
    member (text "content") (string i.content) (
      member (text "infer") (boolean false) (
        member (text "metadata") (object (member (text "type") (string (memory_type i.type)) end))
          end)))

unfoldable pub save_memory : Bridge → SaveMemoryIn → ToolReply
unfolding call contains memory_request
save_memory b i =
    if i.content == []
    then error_result (text "content is required")
    else if contains (memory_type i.type) memory_types
    then call b method_post (text "/v1/memories") (some (memory_request i))
    else error_result (text "type must be semantic|procedural|episodic")

-- The tools that a session registers, each with its input.
pub data ToolCall : Type 0 where
  get_context_call : GetContextIn → ToolCall
  search_facts_call : SearchFactsIn → ToolCall
  list_namespaces_call : ToolCall
  propose_fact_call : ProposeFactIn → ToolCall
  submit_promotion_call : Text → ToolCall
  list_my_promotions_call : Text → ToolCall
  review_promotion_call : ReviewPromotionIn → ToolCall
  save_memory_call : SaveMemoryIn → ToolCall

unfoldable pub run_tool : Bridge → ToolCall → ToolReply
unfolding get_context search_facts list_namespaces propose_fact submit_promotion list_my_promotions
    review_promotion save_memory
run_tool b (get_context_call i) = get_context b i
run_tool b (search_facts_call i) = search_facts b i
run_tool b list_namespaces_call = list_namespaces b
run_tool b (propose_fact_call i) = propose_fact b i
run_tool b (submit_promotion_call id) = submit_promotion b id
run_tool b (list_my_promotions_call state) = list_my_promotions b state
run_tool b (review_promotion_call i) = review_promotion b i
run_tool b (save_memory_call i) = save_memory b i
