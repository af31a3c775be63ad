-- ===== src/Facts/Backfill.antt =====
-- internal/facts/backfill.go: vectors for the active facts that have none.
use baseline.Store.Transactions.{and_then-done}
use baseline.Facts.{Fact, is_active}
use baseline.Facts.Key.{embed_text}
use baseline.Facts.Repo
use baseline.Prelude.{
  ℕ, suc, Bool, ◌&&◌, not, Option, none, some, List, [], ◌∷◌, map, filter, length, is_some, Text,
  ◌+◌, ◌≡◌, arith,
}
use baseline.Store.{Tx, Outcome, done, fail, exec, on_pool, pure, ◌>>=◌, Session}

pub record BackfillResult : Type 0 where
  pub scanned : ℕ
  pub embedded : ℕ
  pub failed : ℕ

unfoldable pub needs_vector : Fact → Bool
needs_vector f = is_active f && not (is_some f.embedding)

abbrev pub todo : Fact → ℕ × Text
todo f = (f.id, embed_text f)

abbrev pub counted_failed : BackfillResult → BackfillResult
counted_failed r = record r { failed = suc r.failed }

abbrev pub counted_embedded : BackfillResult → BackfillResult
counted_embedded r = record r { embedded = suc r.embedded }

-- `if err := SetEmbedding(…); err != nil { res.Failed++; continue }; res.Embedded++`.
abbrev pub stored_or_failed : Outcome (Unit {0}) → BackfillResult → Outcome BackfillResult
stored_or_failed (done _ s) r = done (counted_embedded r) s
stored_or_failed (fail e s) r = done (counted_failed r) s

abbrev pub store_one : ℕ → Option (List ℕ) → BackfillResult → Tx BackfillResult
store_one id none r s = done (counted_failed r) s
store_one id (some vec) r s = stored_or_failed (on_pool (Repo.set_embedding id vec) s) r

unfoldable pub embed_each :
    (Text → Option (List ℕ)) → List (ℕ × Text) → BackfillResult → Tx BackfillResult
unfolding on_pool Repo.set_embedding
embed_each embed [] r = pure r
embed_each embed ((id, t) ∷ work) r = do r' ← store_one id (embed t) r; embed_each embed work r'

unfoldable pub backfill_embeddings : (Text → Option (List ℕ)) → Tx BackfillResult
unfolding exec on_pool filter needs_vector embed_text embed_each
backfill_embeddings embed = do
  work ← on_pool (exec (λ now db. some (map todo (filter needs_vector db.facts), db)))
  embed_each embed work (record { scanned = length work; embedded = 0; failed = 0 })

-- `n` facts have been counted between the two results.
abbrev Counted : ℕ → BackfillResult → BackfillResult → Type 0
Counted n r r' = (r'.scanned ≡ r.scanned) × (r'.embedded + r'.failed ≡ r.embedded + r.failed + n)

stored_or_failed-Counted :
    (o : Outcome (Unit {0})) (r r' : BackfillResult) (t : Session)
    → stored_or_failed o r ≡ done r' t
    → Counted 1 r r'
stored_or_failed-Counted (done _ s) r r' t h = (ground arith, ground arith)
stored_or_failed-Counted (fail e s) r r' t h = (ground arith, ground arith)

store_one-Counted :
    (id : ℕ) (v : Option (List ℕ)) (r r' : BackfillResult) (s t : Session)
    → store_one id v r s ≡ done r' t
    → Counted 1 r r'
store_one-Counted id none r r' s t h = (ground arith, ground arith)
store_one-Counted id (some vec) r r' s t h =
    stored_or_failed-Counted (on_pool (Repo.set_embedding id vec) s) r r' t h

embed_each-Counted :
    (embed : Text → Option (List ℕ)) (work : List (ℕ × Text)) (r r' : BackfillResult)
    (s t : Session)
    → embed_each embed work r s ≡ done r' t
    → Counted (length work) r r'
unfolding embed_each
embed_each-Counted embed [] r r' s t h = (ground arith, ground arith)
embed_each-Counted embed ((id, w) ∷ work) r r' s t h =
    let (q, u, e, e') = and_then-done (store_one id (embed w) r s) (embed_each embed work) r' t h in
    let (a, b) = store_one-Counted id (embed w) r q s u e in
    let (c, d) = embed_each-Counted embed work q r' u t e' in (ground arith, ground arith)

-- A backfill that gets past its query counts each fact that it has found once, as embedded or as
-- failed.
pub backfill_embeddings-counts :
    (embed : Text → Option (List ℕ)) (s t : Session) (r : BackfillResult)
    → backfill_embeddings embed s ≡ done r t
    → r.embedded + r.failed ≡ r.scanned
unfolding backfill_embeddings
backfill_embeddings-counts embed s t r h =
    let (work, u, _, e) =
      and_then-done
        (on_pool (exec (λ now db. some (map todo (filter needs_vector db.facts), db))) s)
        (λ work. embed_each embed work (record { scanned = length work; embedded = 0; failed = 0 }))
        r t h in
    let (a, b) =
      embed_each-Counted embed work (record { scanned = length work; embedded = 0; failed = 0 }) r u
        t e in
    ground arith
