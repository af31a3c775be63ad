-- ===== src/Server/Routes/Dispatch.antt =====
-- The `http.Handler` that internal/server/server.go makes. The router is a parameter: from the method,
-- the path and the body it finds a route with the parameters of the path, or none.
use baseline.Json.{Json}
use baseline.Prelude.{Option, none, some, List, Text, text}
use baseline.Server.Auth.{Authenticated}
use baseline.Server.Routes.{Route, serve_http}
use baseline.Server.{HttpRequest, Server, Reply, write_error}
use baseline.Url.{cut, parse_query}

pub data Method : Type 0 where
  method_get method_post method_patch method_delete : Method

-- A request as a client makes it; the target is the path with the query.
pub record Message : Type 0 where
  pub method : Method
  pub target : Text
  pub headers : List (Text × Text)
  pub body : Option Json

abbrev pub HttpHandler : Type 0
HttpHandler = Message → Reply

pub record Routed : Type 0 where
  pub route : Route
  pub id_param : Text
  pub principal_param : Text

abbrev pub Router : Type 0
Router = Method → Text → Option Json → Option Routed

unfoldable pub path_of : Message → Text
unfolding cut
path_of m = let (path, query, found) = cut b'?' m.target in path

unfoldable pub request_of : Message → Routed → HttpRequest
unfolding cut parse_query
request_of m found =
    let (path, query, marked) = cut b'?' m.target in
    record {
      id_param = found.id_param;
      principal_param = found.principal_param;
      query = parse_query query;
      headers = m.headers;
    }

abbrev pub routed : Server → (HttpRequest → Authenticated) → Message → Option Routed → Reply
routed srv authenticate m none = write_error 404 (text "404 page not found")
routed srv authenticate m (some found) =
    serve_http srv authenticate (request_of m found) found.route

unfoldable pub http_handler : Server → (HttpRequest → Authenticated) → Router → HttpHandler
unfolding path_of
http_handler srv authenticate router m =
    routed srv authenticate m (router m.method (path_of m) m.body)
