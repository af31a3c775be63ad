-- ===== src/Facts/Service/History.antt =====
-- `History` of internal/facts/service.go: the audit events of a fact.
use baseline.Audit.{Event, Row}
use baseline.Facts.Service.{history, event_of, at_leb}
use baseline.Prelude.{
  ℕ, ◌≡◌, arith, List, map, filter, sort, ◌==◌, nat_eq, Sorted, sort-Perm, sort-Sorted,
}
use mathlib.Core.List.{Perm}
use baseline.Store.{Session, done}

-- The history of a subject that is read consists of the events of the audit rows of that subject,
-- of each of them once, in the order of their times, and reading it changes nothing.
pub history_complete :
    (id : ℕ) (s t : Session) (events : List Event)
    → history id s ≡ done events t
    → (rows : List Row) × (events ≡ map event_of rows)
      × Perm rows (filter (λ r. r.subject_id == id) s.db.audit_events)
      × Sorted at_leb rows
      × (t.db ≡ s.db)
unfolding history
history_complete id s t events h =
    let told = filter (λ r. r.subject_id == id) s.db.audit_events in
    (
      sort at_leb told,
      ground arith,
      sort-Perm at_leb told,
      sort-Sorted at_leb (λ a b. ground arith) (λ a b c h k. ground arith) told,
      ground arith,
    )
