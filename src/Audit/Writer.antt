-- ===== src/Audit/Writer.antt =====
-- internal/audit/audit.go: `Write` appends one event in the given transaction. The detail documents
-- of the callers always marshal.
use baseline.Store.Transactions.{exec-done}
use baseline.Store.{Tx, exec, Session, done, Statement}
use baseline.Prelude.{some, [], ◌∷◌, ◌++◌, suc, ◌≡◌, arith}
use baseline.Audit.{Event, row}

abbrev append_event : Event → Statement (Unit {0})
append_event e now db = some (tt, record db { audit_events = db.audit_events ++ row now e ∷ [] })

unfoldable pub write : Event → Tx (Unit {0})
unfolding exec row
write e = exec (append_event e)

-- The session after an event has been written.
abbrev pub logged : Session → Event → Session
logged s e = record s {
  sent = suc s.sent;
  db = record s.db { audit_events = s.db.audit_events ++ row s.now e ∷ [] };
}

pub write-done : (e : Event) (s t : Session) → write e s ≡ done tt t → t ≡ logged s e
unfolding write
write-done e s t h = let (_, q, q') = exec-done (append_event e) s h in ground arith
