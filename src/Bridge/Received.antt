-- ===== src/Bridge/Received.antt =====
-- internal/mcpbridge/mcpbridge.go against internal/server: what the server reads of the query of a tool.
use baseline.Bridge.Tools.{GetContextIn, context_values, set_given, set_limit}
use baseline.Bridge.Values.{
  actor_id-read, namespaces-read, memories-read, tags-read, limit-read, set_memories,
}
use baseline.Facts.Key.{join}
use baseline.Prelude.{
  contains, any, ℕ, ◌≤◌, ◌≡◌, refl, ◌∙◌, ap, inl, inr, List, [], ◌++◌, ◌==◌, text_eq, nat_eq, Text,
  text, Bool-cases, All, all, ltb, ℤ, pos_part, ℕ_discrete, sort,
}
use baseline.Server.Reading.{context_query, actor_of}
use baseline.Server.Respond.Tags.{IsTag, parse_csv-join}
use baseline.Server.Respond.{get_value, max_int}
use baseline.Server.Routes.Dispatch.{Message, Routed, request_of}
use baseline.Server.{Context}
use baseline.Url.Ascii.{all-IsAscii, itoa-IsAscii, set-IsAscii}
use baseline.Url.Escapes.{IsAscii}
use baseline.Url.Lookups.{get_value-sort}
use baseline.Url.Queries.{IsAsciiPair, parse_query-encode, cut-behind, Without-contains}
use baseline.Url.{Values, encode, cut, parse_query, key_leb}

set_given-IsAscii :
    (k v : Text) (q : Values)
    → IsAscii k
    → IsAscii v
    → All IsAsciiPair q
    → All IsAsciiPair (set_given k v q)
unfolding set_given
set_given-IsAscii k v q h e hs = elim (Bool-cases (v == [])) [
  | inl blank ↦ rw blank hs
  | inr given ↦ rw given (set-IsAscii k v q h e hs)
]

set_memories-IsAscii :
    (i : GetContextIn) (q : Values) → All IsAsciiPair q → All IsAsciiPair (set_memories i q)
unfolding all
set_memories-IsAscii i q hs = elim (Bool-cases i.include_memories) [
  | inl yes_please ↦ rw yes_please (
      set-IsAscii (text "include_memories") (text "true") q
        (all-IsAscii (text "include_memories") refl) (all-IsAscii (text "true") refl) hs)
  | inr none_asked ↦ rw none_asked hs
]

set_limit-IsAscii :
    (limit : ℤ) (q : Values) → All IsAsciiPair q → All IsAsciiPair (set_limit limit q)
unfolding all
set_limit-IsAscii limit q hs = elim (Bool-cases (ltb 0 (pos_part limit))) [
  | inl given ↦ rw given (
      set-IsAscii (text "limit") _ q (all-IsAscii (text "limit") refl)
        (itoa-IsAscii (pos_part limit)) hs)
  | inr none_given ↦ rw none_given hs
]

-- The texts of the input.
abbrev pub IsAsciiInput : GetContextIn → Type 0
IsAsciiInput i = IsAscii i.actor_id × IsAscii i.namespaces × IsAscii i.tags

context_values-IsAscii : (i : GetContextIn) → IsAsciiInput i → All IsAsciiPair (context_values i)
unfolding context_values all
context_values-IsAscii i (actor, ids, tags) = set_limit-IsAscii i.limit _ (
    set_given-IsAscii (text "tags") i.tags _ (all-IsAscii (text "tags") refl) tags (
      set_memories-IsAscii i _ (
        set_given-IsAscii (text "namespaces") i.namespaces _ (all-IsAscii (text "namespaces") refl)
          ids
          (set_given-IsAscii (text "actor_id") i.actor_id [] (all-IsAscii (text "actor_id") refl)
            actor tt))))

query-received :
    (m : Message) (found : Routed) (i : GetContextIn)
    → m.target ≡ text "/v1/context?" ++ encode (context_values i)
    → IsAsciiInput i
    → (request_of m found).query ≡ sort key_leb (context_values i)
unfolding request_of contains any ℕ_discrete
query-received m found i h k =
    ap (λ t. parse_query (cut b'?' t).1) h
    ∙ ap (λ x. parse_query x.1)
        (cut-behind b'?' (text "/v1/context") (encode (context_values i))
          (Without-contains b'?' (text "/v1/context") refl))
    ∙ parse_query-encode (context_values i) (context_values-IsAscii i k)

-- What the server asks of the context service for a request of the tool `get_context`, whose texts are of
-- ASCII, whose limit is no more than the largest int and whose tags are such as commas separate: the
-- actor, the tags, the limit and whether memories are included are those that the tool was given, and
-- the namespaces to narrow to are read from the text that it was given.
pub context_query-received :
    (ctx : Context) (m : Message) (found : Routed) (i : GetContextIn) (tags : List Text)
    (namespaces : List ℕ)
    → m.target ≡ text "/v1/context?" ++ encode (context_values i)
    → IsAsciiInput i
    → i.tags ≡ join (text ",") tags
    → All IsTag tags
    → pos_part i.limit ≤ max_int
    → (get_value (text "namespaces") (request_of m found).query ≡ i.namespaces)
      × (context_query ctx (request_of m found) namespaces ≡ record {
        actor_id = actor_of ctx i.actor_id;
        namespaces = namespaces;
        include_memories = i.include_memories;
        limit = pos_part i.limit;
        tags = tags;
      })
unfolding context_query
context_query-received ctx m found i tags namespaces h ascii joined are_tags fits =
    let read : (key : Text)
        → get_value key (request_of m found).query ≡ get_value key (context_values i) =
      λ key. ap (get_value key) (query-received m found i h ascii) ∙ get_value-sort key _ in
    (
      read (text "namespaces") ∙ namespaces-read i,
      cc (
        read (text "actor_id"),
        actor_id-read i,
        read (text "include_memories"),
        memories-read i,
        read (text "limit"),
        limit-read i fits,
        read (text "tags"),
        tags-read i,
        joined,
        parse_csv-join tags are_tags,
      ),
    )
