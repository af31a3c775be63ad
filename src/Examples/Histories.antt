-- ===== src/Examples/Histories.antt =====
-- Sequences of calls of internal/promotions/service.go, internal/facts/service.go and
-- internal/reaper/reaper.go at concrete inputs.
use baseline.Audit.{Row}
use baseline.Examples.Sample.{service, old_fact, db}
use baseline.Facts.{Fact}
use baseline.Invariant.Laws.{recorded}
use baseline.Prelude.{pos, ◌≡◌, ◌≤◌, refl, inl, List, [], ◌∷◌, ◌++◌, In, text, false}
use baseline.Requests.Log.{serve-audit_events}
use baseline.Requests.Recorded.{serve-facts}
use baseline.Requests.{Call, Request, serve}

abbrev request_of : Call → Request
request_of c = record { call = c; now = 60; faults = λ n. false }

-- Bob approves the proposal, and Ann revokes what has become of fact 1 before a pass of the reaper.
abbrev requests : List Request
requests =
    request_of (Call.approve 3 (text "bob") [])
    ∷ request_of (Call.revoke 1 (pos 2) (text "ann"))
    ∷ request_of Call.reap
    ∷ []

serve-audit_events_example :
    (rows : List Row) × ((serve service db requests).audit_events ≡ db.audit_events ++ rows)
serve-audit_events_example = serve-audit_events service db requests

serve-facts_example :
    (g : Fact) × In g (serve service db requests).facts
    × (recorded g ≡ recorded old_fact)
    × (old_fact.version ≤ g.version)
serve-facts_example = serve-facts service db requests old_fact (inl refl)
