-- ===== src/Memory/Mem0/ReadOnly.antt =====
-- internal/memory: the port to the back end only reads, and the writer is apart from it.
use baseline.HttpClient.{ClientRequest, Transport}
use baseline.Memory.Mem0.{
  Mem0, list, search, get, answer_of, do_request, get_json, post_json, neutral, neutral_one,
  source_of,
}
use baseline.Prelude.{
  ℕ, ◌≡◌, refl, ap, Bool, true, false, ◌||◌, ◌==◌, text_eq, Text, text, Option, ◌++◌, ==_self,
}
use baseline.Server.Routes.Dispatch.{Method, method_get}
use mathlib.Core.Path.{fun_ext}

abbrev is_get : Method → Bool
is_get m = elim m [ method_get ↦ true | _ ↦ false ]

-- The requests that change nothing on the other side: those with GET, and the search.
abbrev pub reads : Text → ClientRequest → Bool
reads base_url req = is_get req.method || req.url == base_url ++ text "/search"

module _ (s : Mem0) (send : Transport)
    (agree : (req : ClientRequest) → reads s.base_url req ≡ true → s.send req ≡ send req) where
  abbrev pub other : Mem0
  other = record s { send = send }

  get_json-agree :
      {A : Type 0} (decode : Text → Option A) (path : Text)
      → get_json s decode path ≡ get_json other decode path
  unfolding get_json do_request
  get_json-agree decode path = ap (answer_of decode) (agree _ refl)

  search-agree :
      (actor query : Text) (limit : ℕ) → search s actor query limit ≡ search other actor query limit
  unfolding search post_json do_request
  search-agree actor query limit =
      ap (λ r. neutral (answer_of s.decode_list r))
        (agree _ (==_self (s.base_url ++ text "/search")))

  list-agree : (actor : Text) (limit : ℕ) → list s actor limit ≡ list other actor limit
  unfolding list
  list-agree actor limit = ap neutral (get_json-agree s.decode_list _)

  get-agree : (id : Text) → get s id ≡ get other id
  unfolding get
  get-agree id = ap neutral_one (get_json-agree s.decode_memory _)

-- What the port to Mem0 answers depends on the requests with GET and on the search alone: a back end
-- that answers those alike, and treats every other request as it likes, is not told apart.
pub source_of-read_only :
    (s : Mem0) (send : Transport)
    → ((req : ClientRequest) → reads s.base_url req ≡ true → s.send req ≡ send req)
    → source_of s ≡ source_of (record s { send = send })
source_of-read_only s send agree = cc (
  fun_ext (λ actor. fun_ext (λ limit. list-agree s send agree actor limit)),
  fun_ext
      (λ actor. fun_ext (λ query. fun_ext (λ limit. search-agree s send agree actor query limit))),
  fun_ext (λ id. get-agree s send agree id),
)
