-- ===== src/Invariant/Laws.antt =====
-- What a property of the database owes to the statements of internal/facts/repo.go,
-- internal/promotions/repo.go, internal/namespaces/repo.go and internal/audit for every call to keep it.
use baseline.Audit.{Event, row}
use baseline.Facts.Key.{canonical_key}
use baseline.Facts.Repo
use baseline.Facts.{Fact, Subject, Provenance}
use baseline.Invariant.Inserts.{KeepsRequired}
use baseline.Invariant.Statements.{KeepsSlot}
use baseline.Namespaces.Repo as Registrar
use baseline.Namespaces.{Namespace}
use baseline.Prelude.{ℕ, ◌≤◌, ◌≡◌, Bool, Text, some, List, [], ◌∷◌, ◌++◌}
use baseline.Promotions.Repo as Requests
use baseline.Promotions.{PromotionRequest}
use baseline.Store.Keeps.{Sound}
use baseline.Store.{Db}

-- The columns that no update sets.
abbrev pub recorded : Fact → ℕ × ℕ × Text × Subject × Provenance × Text
recorded f = (f.id, f.namespace_id, f.statement, f.subject, f.provenance, f.created_by)

abbrev pub Evolves : Fact → Fact → Type 0
Evolves f g = (recorded g ≡ recorded f) × (f.version ≤ g.version)

pub record Laws (P : Db → Type 0) : Type 0 where
  pub append_event :
      (e : Event)
      → Sound P
          (λ now db. some (tt, record db { audit_events = db.audit_events ++ row now e ∷ [] }))
  pub update_fact :
      (id : ℕ) (where_ : Fact → Bool) (set : ℕ → Fact → Fact)
      → ((now : ℕ) → KeepsSlot (set now))
      → ((now : ℕ) (f : Fact) → Evolves f (set now f))
      → Sound P (Repo.update id where_ set)
  pub insert_fact :
      (f : Fact) → Sound P (Repo.insert_row (record f { canonical_key = canonical_key f.subject }))
  pub update_promotion :
      (id : ℕ) (set : ℕ → PromotionRequest → PromotionRequest)
      → ((now : ℕ) → KeepsRequired (set now))
      → Sound P (Requests.update id set)
  pub insert_promotion :
      (p : PromotionRequest) → 1 ≤ p.required_approvals → Sound P (Requests.insert_row p)
  pub insert_namespace : (n : Namespace) → Sound P (Registrar.insert_namespace n)
  pub set_namespaces :
      (hit : Db → Bool) (ns : Db → List Namespace)
      → Sound P (λ now db. some (hit db, record db { namespaces = ns db }))
