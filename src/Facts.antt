-- ===== src/Facts.antt =====
-- internal/facts/fact.go and the type of internal/facts/subject.go: a fact and its lifecycle state.
-- A uuid and a time are numbers. The children hold the rest of the package.
pub mod Lifecycle
pub mod Key
pub mod Repo
pub mod Service
pub mod Listing
pub mod Backfill
use baseline.Json.{Json}
use baseline.Prelude.{ℕ, Text, Eq, Option, List, text, Bool, ◌==◌}

pub data Status : Type 0 where
  proposed in_review active superseded revoked expired rejected : Status

unfoldable pub Status-discrete : Discrete Status
Status-discrete = hlevel

instance abbrev pub status_eq : Eq Status
status_eq = record { decide_eq = Status-discrete }

-- `string(s)`: the text of a status constant.
unfoldable pub status_text : Status → Text
status_text proposed = text "proposed"
status_text in_review = text "in_review"
status_text active = text "active"
status_text superseded = text "superseded"
status_text revoked = text "revoked"
status_text expired = text "expired"
status_text rejected = text "rejected"

pub record Provenance : Type 0 where
  pub origin_actor : Text
  pub origin_session : Text
  pub derived_from : List Text
  pub rationale : Text

-- The map of qualifiers, in the order in which one `range` loop meets its entries.
pub record Subject : Type 0 where
  pub type : Text
  pub scope : Text
  pub qualifiers : List (Text × Text)

pub record Fact : Type 0 where
  pub id : ℕ
  pub namespace_id : ℕ
  pub statement : Text
  pub subject : Subject
  pub canonical_key : Text
  pub status : Status
  pub confidence : Option ℕ
  pub source_memory_ids : List Text
  pub provenance : Provenance
  pub valid_from : Option ℕ
  pub valid_to : Option ℕ
  pub supersedes_id : Option ℕ
  pub superseded_by_id : Option ℕ
  pub tags : List Text
  pub metadata : List (Text × Json)
  pub embedding : Option (List ℕ)  -- a column of the table that the Go struct leaves out
  pub created_by : Text
  pub approved_by : List Text
  pub version : ℕ
  pub created_at : ℕ
  pub updated_at : ℕ

abbrev pub is_active : Fact → Bool
is_active f = f.status == active
