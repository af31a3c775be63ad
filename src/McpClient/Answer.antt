-- ===== src/McpClient/Answer.antt =====
-- cmd/baseline-mcp/main.go: one call over HTTP, and what is printed of its answer.
use baseline.Facts.Key.{trim_space}
use baseline.HttpClient.{ClientRequest, ClientResponse, Transport, trim_right}
use baseline.Json.{
  Json, Items, Members, null, string, number, boolean, array, object, nil, cons, end, member,
}
use baseline.Prelude.{
  Bool, false, ◌⊎◌, inl, inr, Option, none, some, List, [], ◌∷◌, ◌++◌, if◌then◌else◌, ◌==◌, nat_eq,
  text_eq, Text, text,
}
use baseline.Server.Respond.{split}
use baseline.Server.Routes.Dispatch.{method_post}

-- What a key maps to; a repeated key has its last value.
unfoldable pub lookup : Text → Members → Option Json
lookup key end = none
lookup key (member k v rest) =
    let later = lookup key rest in
    elim later [ some w ↦ some w | none ↦ (if k == key then some v else none) ]

pub data RpcError : Type 0 where
  transport_failed unauthorized no_frame empty_result : RpcError
  rpc_error tool_error : Json → RpcError

-- `strings.HasPrefix` and `strings.TrimPrefix`.
unfoldable pub cut_prefix : Text → Text → Option Text
cut_prefix [] s = some s
cut_prefix (p ∷ prefix) [] = none
cut_prefix (p ∷ prefix) (c ∷ s) = let rest = cut_prefix prefix s in if c == p then rest else none

abbrev pub object_of : Option Json → Option Members
object_of (some (object ms)) = some ms
object_of _ = none

abbrev pub frame_of : (Text → Option Json) → Option Text → Option Members
frame_of decode none = none
frame_of decode (some payload) = object_of (decode (trim_space payload))

abbrev pub is_rpc : Option Members → Option Members
is_rpc none = none
is_rpc (some ms) = elim (lookup (text "jsonrpc") ms) [ some v ↦ some ms | none ↦ none ]

abbrev pub or_later : Option Members → Option Members → Option Members
or_later none later = later
or_later (some ms) later = some ms

-- The first data line that holds an object with `jsonrpc`.
unfoldable pub scan_lines : (Text → Option Json) → List Text → Option Members
unfolding lookup trim_space trim_right cut_prefix
scan_lines decode [] = none
scan_lines decode (line ∷ lines) =
    or_later (is_rpc (frame_of decode (cut_prefix (text "data:") (trim_right 13 line))))
      (scan_lines decode lines)

unfoldable pub parse_sse : (Text → Option Json) → Text → Option Members
unfolding scan_lines split
parse_sse decode body = scan_lines decode (split 10 body)

-- `tools` has a name and a description for each, and `raw_text` is printed as it is.
pub data Printed : Type 0 where
  tools : List (Option Json × Option Json) → Printed
  indented : Json → Printed
  raw_text : Text → Printed

abbrev pub tool_lines : Items → List (Option Json × Option Json)
tool_lines nil = []
tool_lines (cons (object t) rest) =
    (lookup (text "name") t, lookup (text "description") t) ∷ tool_lines rest
tool_lines (cons _ rest) = tool_lines rest

abbrev pub text_or_blank : Option Json → Text
text_or_blank (some (string s)) = s
text_or_blank _ = []

abbrev pub first_text : Json → Text
first_text (object first) = text_or_blank (lookup (text "text") first)
first_text _ = []

abbrev pub inner_or_text : Text → Option Json → Printed
inner_or_text t none = raw_text t
inner_or_text t (some inner) = indented inner

abbrev pub print_content : (Text → Option Json) → Bool → Members → Option Json → Printed
print_content decode raw result (some (array (cons first rest))) =
    let t = first_text first in if raw then raw_text t else inner_or_text t (decode t)
print_content decode raw result _ = indented (object result)

abbrev pub print_tools : (Text → Option Json) → Bool → Members → Option Json → Printed
print_tools decode raw result (some (array ts)) = tools (tool_lines ts)
print_tools decode raw result _ = print_content decode raw result (lookup (text "content") result)

abbrev pub is_true : Option Json → Bool
is_true (some (boolean b)) = b
is_true _ = false

abbrev pub or_null : Option Json → Json
or_null none = null
or_null (some v) = v

abbrev pub print_object : (Text → Option Json) → Bool → Members → Printed ⊎ RpcError
print_object decode raw result =
    if is_true (lookup (text "isError") result)
    then inr (tool_error (or_null (lookup (text "content") result)))
    else inl (print_tools decode raw result (lookup (text "tools") result))

unfoldable pub print_result : (Text → Option Json) → Bool → Option Members → Printed ⊎ RpcError
unfolding lookup
print_result decode raw none = inr empty_result
print_result decode raw (some result) = print_object decode raw result

abbrev pub headers_of : Text → Text → List (Text × Text)
headers_of principal token =
    (text "Content-Type", text "application/json")
      ∷ (text "Accept", text "application/json, text/event-stream")
      ∷ (if principal == [] then [] else (text "X-Baseline-Principal", principal) ∷ [])
    ++ (if token == [] then [] else (text "Authorization", text "Bearer " ++ token) ∷ [])

unfoldable pub rpc_request : Text → Text → Text → Text → Json → ClientRequest
unfolding trim_right
rpc_request base_url principal token method params = record {
  method = method_post;
  url = trim_right b'/' base_url ++ text "/mcp";
  headers = headers_of principal token;
  body = some (
      object (
        member (text "id") (number (text "1")) (
          member (text "jsonrpc") (string (text "2.0"))
            (member (text "method") (string method) (member (text "params") params end)))));
}

abbrev pub print_payload : (Text → Option Json) → Bool → Members → Option Json → Printed ⊎ RpcError
print_payload decode raw payload (some err) = inr (rpc_error err)
print_payload decode raw payload none =
    print_result decode raw (object_of (lookup (text "result") payload))

abbrev pub print_frame : (Text → Option Json) → Bool → Option Members → Printed ⊎ RpcError
print_frame decode raw none = inr no_frame
print_frame decode raw (some payload) =
    print_payload decode raw payload (lookup (text "error") payload)

abbrev pub print_response : (Text → Option Json) → Bool → Option ClientResponse → Printed ⊎ RpcError
print_response decode raw none = inr transport_failed
print_response decode raw (some resp) =
    if resp.status == 401
    then inr unauthorized
    else print_frame decode raw (parse_sse decode resp.body)

unfoldable pub rpc :
    Transport → (Text → Option Json) → Text → Text → Text → Text → Json → Bool → Printed ⊎ RpcError
unfolding rpc_request parse_sse print_result lookup
rpc send decode base_url principal token method params raw =
    print_response decode raw (send (rpc_request base_url principal token method params))
