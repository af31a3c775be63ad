-- ===== src/Audit.antt =====
-- internal/audit/audit.go: the event that records a transition, and the row that it becomes.
pub mod Writer
use baseline.Prelude.{ℕ, Option, none, some, [], ◌∷◌, Text}
use baseline.Json.{Json}

-- The `detail` documents that the callers pass; `empty` is the document of a nil `Detail`.
pub data Detail : Type 0 where
  empty : Detail
  proposal : ℕ → Text → Option ℕ → Detail
  superseded_by : ℕ → Detail
  approvals : ℕ → ℕ → Detail
  auto_promotion : Text → Json → Text → Detail

-- `subject_type` is one of "fact", "promotion", "namespace", "membership".
pub record Event : Type 0 where
  pub principal : Text
  pub action : Text
  pub subject_type : Text
  pub subject_id : ℕ
  pub from_state : Text
  pub to_state : Text
  pub detail : Detail

-- A row of `audit_events`: an empty state is stored as NULL.
pub record Row : Type 0 where
  pub at : ℕ
  pub principal : Text
  pub action : Text
  pub subject_type : Text
  pub subject_id : ℕ
  pub from_state : Option Text
  pub to_state : Option Text
  pub detail : Detail

unfoldable pub nullable : Text → Option Text
nullable [] = none
nullable (c ∷ s) = some (c ∷ s)

unfoldable pub row : ℕ → Event → Row
unfolding nullable
row now e = record {
  at = now;
  principal = e.principal;
  action = e.action;
  subject_type = e.subject_type;
  subject_id = e.subject_id;
  from_state = nullable e.from_state;
  to_state = nullable e.to_state;
  detail = e.detail;
}
