-- ===== src/Examples/Served.antt =====
-- Requests to internal/server at concrete inputs.
use baseline.Examples.Sample.{db, service}
use baseline.Facts.{Status-discrete}
use baseline.Prelude.{
  ℕ, ◌≡◌, refl, ◌⊎◌, false, Option, none, some, [], ◌∷◌, Text, text, ℕ_discrete, Text-discrete,
}
use baseline.Rbac.{Principal, role_reviewer, can, can_any}
use baseline.Server.Facts.{revoke_fact}
use baseline.Requests.{open_session}
use baseline.Server.Auth.{header_authenticate, identified}
use baseline.Server.Routes.Disclosed.Requests.{serve_http-Shown, ShownTo}
use baseline.Server.Routes.Served.{serve_http-Needed, Needed}
use baseline.Server.Routes.{serve_http, fact_patch, facts_get}
use baseline.Server.{Server, HttpRequest, Response, status_body}
use baseline.Store.{Db, Membership, Session}

-- An ID is a text of as many letters.
abbrev count : Text → Option ℕ
count [] = none
count (c ∷ []) = some 1
count (c ∷ d ∷ s) = some 2

abbrev pub server : Server
server = record {
  promos = service;
  engines = [];
  embedder = none;
  memories = none;
  writer = none;
  parse_uuid = count;
  distance = λ u v. 0;
}

abbrev anns : Membership
anns = record { principal = text "ann"; namespace_id = 0; role = role_reviewer }

abbrev governed : Db
governed = record db { memberships = anns ∷ [] }

-- Ann revokes fact 1 at version 1.
abbrev pub patch : HttpRequest
patch = record {
  id_param = text "x";
  principal_param = [];
  query = [];
  headers = (text "X-Baseline-Principal", text " ann") ∷ (text "If-Match", text "1") ∷ [];
}

abbrev start : Session
start = open_session governed 10 (λ n. false)

abbrev revoked_answer : Response
revoked_answer = record { status = 200; etag = none; body = status_body (text "revoked") }

run_patches : (serve_http server header_authenticate patch fact_patch start).0 ≡ revoked_answer
unfolding serve_http header_authenticate revoke_fact can_any can Text-discrete ℕ_discrete
    Status-discrete
run_patches = refl

serve_http-Needed_example :
    ((serve_http server header_authenticate patch fact_patch start).1.db ≡ governed)
    ⊎ ((p : Principal) × (header_authenticate patch ≡ identified p)
        × Needed server patch fact_patch p governed)
serve_http-Needed_example = serve_http-Needed server header_authenticate patch fact_patch start

-- Ann lists the facts.
serve_http-Shown_example :
    ShownTo header_authenticate patch governed
      (serve_http server header_authenticate patch facts_get start).0.body
serve_http-Shown_example = serve_http-Shown server header_authenticate patch facts_get start refl
