-- ===== src/Facts/Service.antt =====
-- internal/facts/service.go: revoking a fact with its audit event, and a fact's history.
pub mod Revoke
pub mod History
pub mod Answers
use baseline.Store.{Tx, ◌>>◌, exec, on_pool, in_tx, ◌>>=◌}
use baseline.Prelude.{
  text, ℕ, Bool, Option, none, some, List, [], map, filter, sort, leb, ◌==◌, nat_eq, Text, text_eq,
  ℤ,
}
use baseline.Audit.Writer.{write}
use baseline.Audit.{Event, Row, empty}
use baseline.Facts.Repo

abbrev pub revoked_event : Text → ℕ → Event
revoked_event who id = record {
  principal = who;
  action = text "fact.revoked";
  subject_type = text "fact";
  subject_id = id;
  from_state = text "active";
  to_state = text "revoked";
  detail = empty;
}

unfoldable pub revoke : ℕ → ℤ → Text → Tx (Unit {0})
unfolding in_tx Repo.revoke_with_version write
revoke id expected_version principal =
    in_tx do Repo.revoke_with_version id expected_version; write (revoked_event principal id)

-- coalesce(from_state, '')
abbrev pub or_blank : Option Text → Text
or_blank none = []
or_blank (some s) = s

abbrev pub event_of : Row → Event
event_of r = record {
  principal = r.principal;
  action = r.action;
  subject_type = r.subject_type;
  subject_id = r.subject_id;
  from_state = or_blank r.from_state;
  to_state = or_blank r.to_state;
  detail = empty;
}

abbrev pub at_leb : Row → Row → Bool
at_leb a b = leb a.at b.at

-- The query leaves the `Detail` of each event nil.
unfoldable pub history : ℕ → Tx (List Event)
unfolding exec on_pool filter sort
history id = on_pool (
    exec (λ now db.
      some (map event_of (sort at_leb (filter (λ r. r.subject_id == id) db.audit_events)), db)))
