-- ===== src/Memory/Mem0.antt =====
-- internal/memory/mem0/mem0.go: the REST API of Mem0 behind the port. What `json.Decode` makes of a
-- body, and the transport, are parameters.
pub mod ReadOnly
use baseline.HttpClient.{ClientRequest, ClientResponse, Transport, trim_right}
use baseline.Json.{
  Json, Items, Members, string, boolean, number, array, object, nil, cons, end, member,
}
use baseline.Memory.{
  Memory, MemoryError, MemorySource, Writer, AddOpts, memory_not_found, request_failed, bad_body,
  bad_status,
}
use baseline.Prelude.{
  ℕ, Bool, ◌⊎◌, inl, inr, Option, none, some, List, [], ◌∷◌, ◌++◌, map, if◌then◌else◌, ◌==◌, nat_eq,
  Text, text_eq, text, leb, ltb, itoa,
}
use baseline.Server.Routes.Dispatch.{Method, method_get, method_post}
use baseline.Url.{Values, set, encode, path_escape}

-- The wire shape.
pub record Mem0Memory : Type 0 where
  pub id : Text
  pub user_id : Text
  pub memory : Text
  pub metadata : List (Text × Json)
  pub created_at : ℕ

pub record Mem0 : Type 0 where
  pub base_url : Text
  pub api_key : Text
  pub send : Transport
  pub decode_list : Text → Option (List Mem0Memory)
  pub decode_memory : Text → Option Mem0Memory

unfoldable pub connect :
    Transport → (Text → Option (List Mem0Memory)) → (Text → Option Mem0Memory) → Text → Text → Mem0
unfolding trim_right
connect send decode_list decode_memory base_url api_key = record {
  base_url = trim_right b'/' base_url;
  api_key = api_key;
  send = send;
  decode_list = decode_list;
  decode_memory = decode_memory;
}

abbrev pub to_neutral : Mem0Memory → Memory
to_neutral m = record {
  id = m.id;
  actor_id = m.user_id;
  content = m.memory;
  metadata = m.metadata;
  created_at = m.created_at;
}

abbrev pub to_neutral_slice : List Mem0Memory → List Memory
to_neutral_slice ms = map to_neutral ms

abbrev pub auth : Mem0 → List (Text × Text) → List (Text × Text)
auth s headers =
    if s.api_key == []
    then headers
    else (text "Authorization", text "Bearer " ++ s.api_key) ∷ headers

abbrev pub decoded_or : {A : Type 0} → Option A → A ⊎ MemoryError
decoded_or none = inr bad_body
decoded_or (some a) = inl a

abbrev pub answer_of : {A : Type 0} → (Text → Option A) → Option ClientResponse → A ⊎ MemoryError
answer_of decode none = inr request_failed
answer_of decode (some resp) =
    if resp.status == 404
    then inr memory_not_found
    else if leb 300 resp.status
    then inr (bad_status resp.status)
    else decoded_or (decode resp.body)

unfoldable pub do_request :
    {A : Type 0} → Mem0 → (Text → Option A) → ClientRequest → A ⊎ MemoryError
do_request s decode req = answer_of decode (s.send req)

unfoldable pub get_json : {A : Type 0} → Mem0 → (Text → Option A) → Text → A ⊎ MemoryError
unfolding do_request
get_json s decode path =
    do_request s decode
      (record { method = method_get; url = s.base_url ++ path; headers = auth s []; body = none })

unfoldable pub post_json : {A : Type 0} → Mem0 → (Text → Option A) → Text → Json → A ⊎ MemoryError
unfolding do_request
post_json s decode path body = do_request s decode (record {
  method = method_post;
  url = s.base_url ++ path;
  headers = auth s ((text "Content-Type", text "application/json") ∷ []);
  body = some body;
})

abbrev pub neutral : List Mem0Memory ⊎ MemoryError → List Memory ⊎ MemoryError
neutral (inl ms) = inl (to_neutral_slice ms)
neutral (inr e) = inr e

abbrev pub neutral_one : Mem0Memory ⊎ MemoryError → Memory ⊎ MemoryError
neutral_one (inl m) = inl (to_neutral m)
neutral_one (inr e) = inr e

unfoldable pub list_values : Text → ℕ → Values
unfolding set itoa
list_values actor limit =
    let q = (text "user_id", actor) ∷ [] in
    if ltb 0 limit then set (text "limit") (itoa limit) q else q

unfoldable pub list : Mem0 → Text → ℕ → List Memory ⊎ MemoryError
unfolding get_json encode list_values
list s actor limit =
    neutral (get_json s s.decode_list (text "/memories?" ++ encode (list_values actor limit)))

-- The keys of the body in their order.
unfoldable pub search_body : Text → Text → ℕ → Json
unfolding itoa
search_body actor query limit =
    let rest = member (text "query") (string query) (member (text "user_id") (string actor) end) in
    object (if ltb 0 limit then member (text "limit") (number (itoa limit)) rest else rest)

unfoldable pub search : Mem0 → Text → Text → ℕ → List Memory ⊎ MemoryError
unfolding post_json search_body
search s actor query limit =
    neutral (post_json s s.decode_list (text "/search") (search_body actor query limit))

abbrev pub members_of : List (Text × Json) → Members
members_of [] = end
members_of ((k, v) ∷ rest) = member k v (members_of rest)

abbrev pub with_infer : Option Bool → Members → Members
with_infer none rest = rest
with_infer (some b) rest = member (text "infer") (boolean b) rest

abbrev pub with_metadata : List (Text × Json) → Members → Members
with_metadata [] rest = rest
with_metadata (m ∷ ms) rest = member (text "metadata") (object (members_of (m ∷ ms))) rest

abbrev pub user_message : Text → Json
user_message content =
    object
      (member (text "content") (string content) (member (text "role") (string (text "user")) end))

unfoldable pub add_body : Text → Text → AddOpts → Json
add_body actor content opts = object (
    with_infer opts.infer (
      member (text "messages") (array (cons (user_message content) nil))
        (with_metadata opts.metadata (member (text "user_id") (string actor) end))))

-- Where nothing was stored the input is echoed.
abbrev pub first_or_echo :
    Text → Text → AddOpts → List Mem0Memory ⊎ MemoryError → Memory ⊎ MemoryError
first_or_echo actor content opts (inr e) = inr e
first_or_echo actor content opts (inl []) = inl (record {
  id = [];
  actor_id = actor;
  content = content;
  metadata = opts.metadata;
  created_at = 0;
})
first_or_echo actor content opts (inl (m ∷ ms)) = inl (to_neutral m)

unfoldable pub add : Mem0 → Text → Text → AddOpts → Memory ⊎ MemoryError
unfolding post_json add_body
add s actor content opts =
    first_or_echo actor content opts
      (post_json s s.decode_list (text "/memories") (add_body actor content opts))

unfoldable pub get : Mem0 → Text → Memory ⊎ MemoryError
unfolding get_json path_escape
get s id = neutral_one (get_json s s.decode_memory (text "/memories/" ++ path_escape id))

abbrev pub source_of : Mem0 → MemorySource
source_of s = record { list = list s; search = search s; get = get s }
