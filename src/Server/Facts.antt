-- ===== src/Server/Facts.antt =====
-- internal/server/handlers_facts.go.
use baseline.Facts.Listing.{ListFilter, list_facts}
use baseline.Facts.Repo
use baseline.Facts.Service as FactService
use baseline.Facts.{Fact}
use baseline.Prelude.{
  ℕ, Bool, true, false, Option, none, some, List, [], ◌∷◌, if◌then◌else◌, ◌==◌, nat_eq, Text,
  text_eq, text, ℤ, pos_part,
}
use baseline.Rbac.{read_facts, Action, Entitlements, may_read}
use baseline.Server.Respond.{get_value, parse_csv, atoi}
use baseline.Server.{
  HttpRequest, Server, Context, Reply, write_json, write_error, call, parse_id, authorize, entitled,
  id_or_blank, error_of, status_body, fact_body, fact_list, event_list,
}
use baseline.Store.{Error, fact_not_found, version_conflict, on_pool}

-- A query value that is empty is none.
abbrev pub given : Text → Option Text
given [] = none
given (c ∷ s) = some (c ∷ s)

-- The query vector, where there is an embedder that answers.
abbrev pub query_vector : Option (Text → Option (List ℕ)) → Option Text → Option (List ℕ)
query_vector none q = none
query_vector (some embed) none = none
query_vector (some embed) (some q) = embed q

-- The text is compared only where there is no vector.
abbrev pub or_text : Option (List ℕ) → Option Text → Option Text
or_text (some vec) q = none
or_text none q = q

-- `Limit > 0` is all that is asked of a limit, so that a negative one is none.
abbrev pub limit_of : Text → ℕ
limit_of v = if v == [] then 0 else pos_part (atoi v).0

unfoldable pub list_filter : Server → HttpRequest → List ℕ → ListFilter
unfolding get_value parse_csv atoi
list_filter srv r scope =
    let q = given (get_value (text "q") r.query) in
    let vec = query_vector srv.embedder q in
    record {
      namespaces = some scope;
      status = given (get_value (text "status") r.query);
      canonical_key = given (get_value (text "canonical_key") r.query);
      tag = given (get_value (text "tag") r.query);
      tags = parse_csv (get_value (text "tags") r.query);
      text = or_text vec q;
      query_vec = vec;
      limit = limit_of (get_value (text "limit") r.query);
    }

abbrev pub in_scope : Entitlements → Option ℕ → (List ℕ → Reply) → Reply
in_scope e none next = write_error 400 (text "invalid namespace")
in_scope e (some id) next =
    if may_read e id then next (id ∷ []) else write_error 403 (text "forbidden")

-- The namespaces that are searched: the one asked for, or all that are readable.
abbrev pub scoped : Server → Entitlements → Text → (List ℕ → Reply) → Reply
scoped srv e [] next = next e.readable
scoped srv e (c ∷ v) next = in_scope e (srv.parse_uuid (c ∷ v)) next

unfoldable pub list_facts_handler : Server → Context → HttpRequest → Reply
unfolding on_pool list_facts list_filter may_read
list_facts_handler srv ctx r = entitled ctx λ e.
    scoped srv e (get_value (text "namespace") r.query) λ scope.
      call (on_pool (list_facts srv.distance (list_filter srv r scope)))
        (λ err. write_error 500 (text "list failed")) (λ fs. write_json 200 (fact_list fs))

abbrev pub get_failed : Error → Reply
get_failed fact_not_found = write_error 404 (text "not found")
get_failed _ = write_error 500 (text "get failed")

-- The fact of the path, where the caller may do `a` in its namespace.
unfoldable pub with_fact : Server → Context → HttpRequest → Action → (ℕ → Fact → Reply) → Reply
unfolding on_pool Repo.get parse_id authorize
with_fact srv ctx r a next =
    parse_id srv r
      λ id. call (on_pool (Repo.get id)) get_failed λ f. authorize ctx f.namespace_id a (next id f)

-- With the version as the ETag.
abbrev pub reply_fact : Fact → Reply
reply_fact f s = (record { status = 200; etag = some f.version; body = fact_body f }, s)

unfoldable pub get_fact : Server → Context → HttpRequest → Reply
unfolding with_fact
get_fact srv ctx r = with_fact srv ctx r read_facts λ id f. reply_fact f

unfoldable pub get_fact_history : Server → Context → HttpRequest → Reply
unfolding with_fact FactService.history
get_fact_history srv ctx r = with_fact srv ctx r read_facts λ id f.
    call (FactService.history id) (λ err. write_error 500 (text "history failed"))
      (λ events. write_json 200 (event_list events))

abbrev pub revoke_failed : Error → Reply
revoke_failed version_conflict = write_error 409 (text "stale version")
revoke_failed fact_not_found = write_error 404 (text "not found")
revoke_failed err = write_json 409 (error_of err)

abbrev pub if_match : Text → ℤ × Bool → (ℤ → Reply) → Reply
if_match [] v next = write_error 428 (text "If-Match (version) required")
if_match (c ∷ s) (v, true) next = next v
if_match (c ∷ s) (v, false) next = write_error 400 (text "invalid If-Match")

unfoldable pub revoke_fact : Server → Context → HttpRequest → Reply
unfolding with_fact get_value atoi FactService.revoke
revoke_fact srv ctx r = with_fact srv ctx r Action.revoke λ id f.
    let etag = get_value (text "If-Match") r.headers in
    if_match etag (atoi etag) λ version.
      call (FactService.revoke id version (id_or_blank ctx.principal)) revoke_failed
        (λ done. write_json 200 (status_body (text "revoked")))
