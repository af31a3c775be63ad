-- ===== src/Embed/Width.antt =====
-- internal/embed/embed.go against the column of the vectors.
use baseline.Embed.{
  Client, EmbedError, embed, embedding_of, checked_width, embedder_of, or_none, embed_request,
}
use baseline.Facts.Repo.{has_width}
use baseline.HttpClient.{ClientResponse}
use baseline.Prelude.{
  Bool, ℕ, ◌≡◌, refl, ◌⊎◌, inl, inr, Option, none, some, List, length, Text, arith, true, nat_eq,
}

checked_width-length :
    (dims : ℕ) (o : Option (List ℕ)) (vec : List ℕ)
    → checked_width dims o ≡ inl vec
    → length vec ≡ dims
checked_width-length dims none vec h = cc
checked_width-length dims (some found) vec h = ground arith

embedding_of-length :
    (c : Client) (o : Option ClientResponse) (vec : List ℕ)
    → embedding_of c o ≡ inl vec
    → length vec ≡ c.dims
embedding_of-length c none vec h = cc
embedding_of-length c (some resp) vec h =
    ground (arith, checked_width-length c.dims (c.decode resp.body) vec)

abbrev embedded : List ℕ ⊎ EmbedError → Bool
embedded r = has_width (or_none r)

embedded-width :
    (c : Client) (r : List ℕ ⊎ EmbedError)
    → ((vec : List ℕ) → r ≡ inl vec → length vec ≡ c.dims)
    → c.dims ≡ 768
    → embedded r ≡ true
embedded-width c (inl vec) h e = ground (arith, h vec refl)
embedded-width c (inr err) h e = refl

-- Whatever the endpoint answers, and however its body decodes: a client that is configured for 768
-- components never hands on a vector that the column would refuse.
pub embedder_of-has_width :
    (c : Client) (prompt : Text) → c.dims ≡ 768 → has_width (embedder_of c prompt) ≡ true
unfolding embed
embedder_of-has_width c prompt e =
    embedded-width c (embed c prompt) (embedding_of-length c (c.send (embed_request c prompt))) e
