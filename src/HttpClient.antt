-- ===== src/HttpClient.antt =====
-- What internal/memory/mem0 and internal/embed use of net/http as clients, and what cmd/baseline-mcp does. The other side is a
-- parameter: a function from a request to a response, or none where the transport fails.
use baseline.Json.{Json}
use baseline.Prelude.{Option, List, [], ◌∷◌, ℕ, if◌then◌else◌, ◌==◌, nat_eq, Text}
use baseline.Server.Routes.Dispatch.{Method}
use mathlib.Core.List.{reverse}

pub record ClientRequest : Type 0 where
  pub method : Method
  pub url : Text
  pub headers : List (Text × Text)
  pub body : Option Json

pub record ClientResponse : Type 0 where
  pub status : ℕ
  pub body : Text

abbrev pub Transport : Type 0
Transport = ClientRequest → Option ClientResponse

unfoldable pub drop : ℕ → Text → Text
drop mark [] = []
drop mark (c ∷ s) = if c == mark then drop mark s else c ∷ s

-- `strings.TrimRight` with one character.
unfoldable pub trim_right : ℕ → Text → Text
unfolding drop
trim_right mark s = reverse (drop mark (reverse s))
