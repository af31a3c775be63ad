-- ===== src/Server/Reading.antt =====
-- internal/server/handlers_context.go: the read path of the agents.
use baseline.ContextSvc.{Query, resolve}
use baseline.Facts.Key.{trim_space}
use baseline.Prelude.{
  ℕ, Option, none, some, List, [], ◌∷◌, map, filter, contains, ◌==◌, nat_eq, Text, text_eq, text,
}
use baseline.Server.Facts.{limit_of}
use baseline.Server.Respond.{get_value, split, parse_csv, atoi}
use baseline.Server.{
  HttpRequest, Server, Context, Reply, write_json, write_error, call, entitled, id_or_blank,
  item_list,
}

abbrev pub with_uuid : Option ℕ → Option (List ℕ) → Option (List ℕ)
with_uuid (some id) (some rest) = some (id ∷ rest)
with_uuid _ _ = none

-- `none` where a part is no UUID.
unfoldable pub parse_all : (Text → Option ℕ) → List Text → Option (List ℕ)
parse_all parse [] = some []
parse_all parse (p ∷ ps) = with_uuid (parse p) (parse_all parse ps)

abbrev pub narrowed : List ℕ → Option (List ℕ) → (List ℕ → Reply) → Reply
narrowed readable none next = write_error 400 (text "invalid namespaces filter")
narrowed readable (some want) next = next (filter (λ id. contains id want) readable)

-- The override narrows what is readable and never widens it.
abbrev pub override : Server → List ℕ → Text → (List ℕ → Reply) → Reply
override srv readable [] next = next readable
override srv readable (c ∷ raw) next =
    narrowed readable (parse_all srv.parse_uuid (map trim_space (split b',' (c ∷ raw)))) next

abbrev pub actor_of : Context → Text → Text
actor_of ctx [] = id_or_blank ctx.principal
actor_of ctx (c ∷ actor) = c ∷ actor

unfoldable pub context_query : Context → HttpRequest → List ℕ → Query
unfolding get_value parse_csv atoi
context_query ctx r namespaces = record {
  actor_id = actor_of ctx (get_value (text "actor_id") r.query);
  namespaces = namespaces;
  include_memories = get_value (text "include_memories") r.query == text "true";
  limit = limit_of (get_value (text "limit") r.query);
  tags = parse_csv (get_value (text "tags") r.query);
}

unfoldable pub get_context : Server → Context → HttpRequest → Reply
unfolding get_value split trim_space parse_all filter contains context_query resolve
get_context srv ctx r = entitled ctx λ e.
    override srv e.readable (get_value (text "namespaces") r.query) λ namespaces.
      call (resolve srv.memories (context_query ctx r namespaces))
        (λ err. write_error 500 (text "context resolution failed"))
        (λ items. write_json 200 (item_list items))
