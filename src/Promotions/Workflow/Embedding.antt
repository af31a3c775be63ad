-- ===== src/Promotions/Workflow/Embedding.antt =====
-- `embedActivatedFact` of internal/promotions/service.go: of the facts it changes one vector at
-- most, whatever the embedder answers and whichever of its statements fails.
use baseline.Facts.Key.{embed_text}
use baseline.Promotions.Workflow.{Service}
use baseline.Facts.Repo.{fact_key}
use baseline.Store.Keeps.{session}
use baseline.Store.Table.{find}
use baseline.Store.{Db, Session}
use baseline.Store.{pure, exec, done, fail, Outcome, Error, ignore_outcome, and_then}
use baseline.Store.Transactions.{exec-fail}
use baseline.Prelude.{
  ap, sym, subst, Bool, refl, ℕ, ◌≡◌, ◌∙◌, Option, none, some, List, arith, Text,
}
use baseline.Facts.{Fact}
use baseline.Facts.Repo
use baseline.Facts.Repo.Writes.{Moves, Moves-update, on_key}
use baseline.Promotions.Workflow
use mathlib.Core.Option

abbrev pub without_vector : Fact → Fact
without_vector f = record f { embedding = none }

-- The two sessions agree on the database, but for the vectors of facts.
pub record SameButVectors (s t : Session) : Type 0 where
  pub same_time : t.now ≡ s.now
  pub frame : t.db ≡ record s.db { facts = t.db.facts }
  pub looked :
      (j : ℕ)
      → Option.map without_vector (find fact_key j t.db.facts)
        ≡ Option.map without_vector (find fact_key j s.db.facts)

SameButVectors-refl : (s t : Session) → t.db ≡ s.db → t.now ≡ s.now → SameButVectors s t
SameButVectors-refl s t d n = record {
  same_time = n;
  frame = ground arith;
  looked = λ j. ap (λ (x : Db). Option.map without_vector (find fact_key j x.facts)) d;
}

vector_dropped :
    (id : ℕ) (vec : List ℕ) (now j : ℕ) (o : Option Fact)
    → Option.map without_vector (on_key id (Repo.with_vector vec now) j o)
      ≡ Option.map without_vector o
vector_dropped id vec now j none = ground arith
vector_dropped id vec now j (some f) = ground arith

Moves-SameButVectors :
    (id : ℕ) (vec : List ℕ) (s t : Session)
    → Moves s t (on_key id (Repo.with_vector vec s.now))
    → SameButVectors s t
Moves-SameButVectors id vec s t m = record {
  same_time = m.same_time;
  frame = m.frame;
  looked = λ j.
      ap (Option.map without_vector) (m.looked j)
      ∙ vector_dropped id vec s.now j (find fact_key j s.db.facts);
}

dismissed :
    (s : Session) (o : Outcome Bool)
    → ((hit : Bool) (u : Session) → o ≡ done hit u → SameButVectors s u)
    → ((e : Error) (u : Session) → o ≡ fail e u → SameButVectors s u)
    → SameButVectors s (session (and_then o (λ _. pure tt)))
dismissed s (done hit u) k l = k hit u refl
dismissed s (fail e u) k l = l e u refl

set_embedding-SameButVectors :
    (id : ℕ) (vec : List ℕ) (s : Session) → SameButVectors s (session (Repo.set_embedding id vec s))
unfolding Repo.set_embedding
set_embedding-SameButVectors id vec s =
    dismissed s (exec (Repo.update id Repo.any_row (Repo.with_vector vec)) s)
      (λ hit u h.
        Moves-SameButVectors id vec s u
          (Moves-update id (Repo.with_vector vec) s hit u (λ n f. refl) h))
      (λ e u h.
        let (_, q) = exec-fail (Repo.update id Repo.any_row (Repo.with_vector vec)) s h in
        SameButVectors-refl s u (ground arith) (ground arith))

get-SameButVectors : (id : ℕ) (s : Session) → SameButVectors s (session (Repo.get id s))
unfolding Repo.get
get-SameButVectors id s =
    SameButVectors-refl s (session (Repo.get id s)) (ground arith) (ground arith)

SameButVectors-trans :
    (s t u : Session) → SameButVectors s t → SameButVectors t u → SameButVectors s u
SameButVectors-trans s t u m n = record {
  same_time = n.same_time ∙ m.same_time;
  frame = ground (arith, m.frame, n.frame);
  looked = λ j. n.looked j ∙ m.looked j;
}

ignored-session : {A : Type 0} (o : Outcome A) → session (ignore_outcome o) ≡ session o
ignored-session (done a s) = refl
ignored-session (fail e s) = refl

store_vector-SameButVectors :
    (id : ℕ) (o : Option (List ℕ)) (s : Session)
    → SameButVectors s (session (Workflow.store_vector id o s))
store_vector-SameButVectors id none s = SameButVectors-refl s s refl refl
store_vector-SameButVectors id (some vec) s =
    subst (SameButVectors s) (sym (ignored-session (Repo.set_embedding id vec s)))
      (set_embedding-SameButVectors id vec s)

embed_with-SameButVectors :
    (e : Option (Text → Option (List ℕ))) (id : ℕ) (f : Fact) (s : Session)
    → SameButVectors s (session (Workflow.embed_with e id f s))
embed_with-SameButVectors none id f s = SameButVectors-refl s s refl refl
embed_with-SameButVectors (some embed) id f s =
    store_vector-SameButVectors id (embed (embed_text f)) s

embed_found-SameButVectors :
    (svc : Service) (id : ℕ) (s : Session) (o : Outcome Fact)
    → SameButVectors s (session o)
    → SameButVectors s (session (Workflow.embed_found svc id o))
unfolding Workflow.embed_activated_fact
embed_found-SameButVectors svc id s (done f u) m =
    SameButVectors-trans s u _ m (embed_with-SameButVectors svc.embedder id f u)
embed_found-SameButVectors svc id s (fail e u) m = m

pub embed_after_activation-SameButVectors :
    (svc : Service) (id : ℕ) (s t : Session)
    → Workflow.embed_after_activation svc id s ≡ done tt t
    → SameButVectors s t
unfolding Workflow.embed_after_activation
embed_after_activation-SameButVectors svc id s t h =
    subst (SameButVectors s) (ap session h)
      (embed_found-SameButVectors svc id s (Repo.get id s) (get-SameButVectors id s))
