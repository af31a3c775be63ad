-- ===== src/Invariant.antt =====
-- What holds of the database (internal/store/migrations/00001_init.sql) after any sequence of calls of
-- internal/facts, internal/promotions, internal/namespaces and internal/reaper.
pub mod Statements
pub mod Inserts
pub mod Laws
pub mod Calls
pub mod Holds
use baseline.Prelude.{◌≤◌, ◌≡◌, true, List, In}
use baseline.Facts.Key.{canonical_key}
use baseline.Facts.Repo.{fact_key, same_slot}
use baseline.Facts.{Fact, is_active}
use baseline.Promotions.Repo.{promotion_key}
use baseline.Promotions.{PromotionRequest}
use baseline.Store.Table.{IsTable}
use baseline.Store.{Db}

-- Two active facts of one namespace and one canonical key are one fact.
abbrev pub ActiveUnique : List Fact → Type 0
ActiveUnique fs =
    (f g : Fact)
    → In f fs
    → In g fs
    → is_active f ≡ true
    → is_active g ≡ true
    → same_slot f g ≡ true
    → f.id ≡ g.id

pub record Inv (db : Db) : Type 0 where
  pub facts_keyed : IsTable fact_key db.next_id db.facts
  pub promotions_keyed : IsTable promotion_key db.next_id db.promotions
  pub active_unique : ActiveUnique db.facts
  pub key_derived : (f : Fact) → In f db.facts → f.canonical_key ≡ canonical_key f.subject
  pub approval_required : (p : PromotionRequest) → In p db.promotions → 1 ≤ p.required_approvals
