-- ===== src/Embed.antt =====
-- internal/embed/embed.go: the client of the embeddings endpoint. What `json.Decode` makes of a body,
-- and the transport, are parameters; a component of a vector is a number.
pub mod Width
use baseline.HttpClient.{ClientRequest, ClientResponse, Transport, trim_right}
use baseline.Json.{Json, string, object, end, member}
use baseline.Prelude.{
  ℕ, ◌⊎◌, inl, inr, Option, none, some, List, [], ◌∷◌, ◌++◌, length, if◌then◌else◌, not, ◌==◌,
  nat_eq, Text, text, leb,
}
use baseline.Server.Routes.Dispatch.{method_post}

pub record Client : Type 0 where
  pub base_url : Text
  pub model : Text
  pub dims : ℕ
  pub send : Transport
  pub decode : Text → Option (List ℕ)

unfoldable pub new_client : Transport → (Text → Option (List ℕ)) → Text → Text → ℕ → Client
unfolding trim_right
new_client send decode base_url model dims = record {
  base_url = trim_right b'/' base_url;
  model = model;
  dims = dims;
  send = send;
  decode = decode;
}

pub data EmbedError : Type 0 where
  request_failed bad_body : EmbedError
  bad_status : ℕ → EmbedError
  dimension_mismatch : ℕ → ℕ → EmbedError

unfoldable pub embed_request : Client → Text → ClientRequest
embed_request c prompt = record {
  method = method_post;
  url = c.base_url ++ text "/api/embeddings";
  headers = (text "Content-Type", text "application/json") ∷ [];
  body = some (
      object (member (text "model") (string c.model) (member (text "prompt") (string prompt) end)));
}

abbrev pub checked_width : ℕ → Option (List ℕ) → List ℕ ⊎ EmbedError
checked_width dims none = inr bad_body
checked_width dims (some vec) =
    if not (length vec == dims) then inr (dimension_mismatch (length vec) dims) else inl vec

abbrev pub embedding_of : Client → Option ClientResponse → List ℕ ⊎ EmbedError
embedding_of c none = inr request_failed
embedding_of c (some resp) =
    if leb 300 resp.status
    then inr (bad_status resp.status)
    else checked_width c.dims (c.decode resp.body)

unfoldable pub embed : Client → Text → List ℕ ⊎ EmbedError
unfolding embed_request
embed c prompt = embedding_of c (c.send (embed_request c prompt))

abbrev pub or_none : List ℕ ⊎ EmbedError → Option (List ℕ)
or_none (inl vec) = some vec
or_none (inr err) = none

-- What the promotions and the server take as their embedder.
abbrev pub embedder_of : Client → Text → Option (List ℕ)
embedder_of c prompt = or_none (embed c prompt)
