-- ===== src/Promotions/Workflow.antt =====
-- internal/promotions/service.go: what the service is wired with, and the steps that proposing and
-- reviewing share. The timeout around the embedder is not modelled: a call that times out fails.
pub mod Embedding
pub mod Propose
pub mod Reviews
use baseline.Store.{Tx, pure, ignore, Outcome, done, fail}
use baseline.Prelude.{ℕ, Bool, Option, none, some, List, Text}
use baseline.AutoPromote.{Registry}
use baseline.Facts.Key.{embed_text}
use baseline.Facts.Repo
use baseline.Facts.{Fact}

-- The embedder, the engines and the latency recorder may each be missing.
pub record Service : Type 0 where
  pub engines : Option Registry
  pub latency : Bool
  pub embedder : Option (Text → Option (List ℕ))

abbrev pub store_vector : ℕ → Option (List ℕ) → Tx (Unit {0})
store_vector id none = pure tt
store_vector id (some vec) = ignore (Repo.set_embedding id vec)

abbrev pub embed_with : Option (Text → Option (List ℕ)) → ℕ → Fact → Tx (Unit {0})
embed_with none id f = pure tt
embed_with (some embed) id f = store_vector id (embed (embed_text f))

-- Never fails by itself; a statement that fails in it leaves the transaction aborted.
unfoldable pub embed_activated_fact : Service → ℕ → Fact → Tx (Unit {0})
unfolding Repo.set_embedding embed_text
embed_activated_fact svc id f = embed_with svc.embedder id f

-- `if f, err := facts.Get(…); err == nil { … }`.
abbrev pub embed_found : Service → ℕ → Outcome Fact → Outcome (Unit {0})
embed_found svc id (done f s) = embed_activated_fact svc id f s
embed_found svc id (fail e s) = done tt s

unfoldable pub embed_after_activation : Service → ℕ → Tx (Unit {0})
unfolding embed_activated_fact Repo.get
embed_after_activation svc id s = embed_found svc id (Repo.get id s)

-- `time.Now()`, on the clock of the database.
abbrev pub current_time : Tx ℕ
current_time s = done s.now s
