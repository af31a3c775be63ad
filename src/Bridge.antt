-- ===== src/Bridge.antt =====
-- internal/mcpbridge/mcpbridge.go: the tools of the MCP bridge, each of which sends one request to the
-- handler of the server in its principal's name. The SDK that finds the tool of a call is not modelled.
pub mod Tools
pub mod Caller
pub mod Targets
pub mod Values
pub mod Received
use baseline.Json.{Json}
use baseline.Prelude.{
  Bool, true, false, ◌||◌, Option, none, some, is_some, List, [], ◌∷◌, ◌++◌, if◌then◌else◌, ltb,
  leb, Text, text,
}
use baseline.Server.Respond.{get_value}
use baseline.Server.Routes.Dispatch.{HttpHandler, Method, Message}
use baseline.Server.{Body, Response}
use baseline.Store.{Session}

pub record Bridge : Type 0 where
  pub handler : HttpHandler
  pub principal : Text

abbrev pub principal_header : Text
principal_header = text "X-Baseline-Principal"

abbrev pub new : HttpHandler → Text → Bridge
new handler principal = record { handler = handler; principal = principal }

-- The bridge of a request to the mounted handler, by its headers.
unfoldable pub bridge_of : HttpHandler → List (Text × Text) → Bridge
unfolding get_value
bridge_of handler headers = new handler (get_value principal_header headers)

-- `refused` is the text of what the handler answered, `answered` the body as text and as a result.
pub data ToolResult : Type 0 where
  invalid : Text → ToolResult
  refused : Method → Text → Response → ToolResult
  answered : Body → ToolResult

unfoldable pub is_error : ToolResult → Bool
is_error (invalid msg) = true
is_error (refused method target resp) = true
is_error (answered body) = false

abbrev pub ToolReply : Type 0
ToolReply = Session → ToolResult × Session

abbrev pub error_result : Text → ToolReply
error_result msg s = (invalid msg, s)

abbrev pub content_type : Option Json → List (Text × Text)
content_type none = []
content_type (some body) = (text "Content-Type", text "application/json") ∷ []

unfoldable pub message_of : Bridge → Method → Text → Option Json → Message
message_of b method target body = record {
  method = method;
  target = target;
  headers = (principal_header, b.principal) ∷ content_type body;
  body = body;
}

abbrev pub tool_result : Method → Text → Response → ToolResult
tool_result method target resp =
    if ltb resp.status 200 || leb 300 resp.status
    then refused method target resp
    else answered resp.body

unfoldable pub call : Bridge → Method → Text → Option Json → ToolReply
unfolding message_of
call b method target body s =
    let (resp, t) = b.handler (message_of b method target body) s in
    (tool_result method target resp, t)
