-- ===== src/Examples/Admin.antt =====
-- Grants of internal/rbac/repo.go and the backfill of internal/facts/backfill.go, and a
-- fact's history of internal/facts/service.go, at concrete inputs.
use baseline.Store.{Session, done}
use baseline.Examples.Reads.{stored}
use baseline.Facts.Backfill.{backfill_embeddings, BackfillResult}
use baseline.Facts.Service.{history, revoke, revoked_event, event_of, at_leb}
use baseline.Facts.Service.History.{history_complete}
use baseline.Audit.{Row}
use mathlib.Core.List.{Perm}
use baseline.Facts.{Status-discrete, status_eq}
use baseline.Rbac.Repo.{grant, revoke_grant}
use baseline.Rbac.{role_reviewer}
use baseline.Requests.{open_session}
use baseline.Store.Keeps.{session}
use baseline.Prelude.{
  pos, ℕ_discrete, Text-discrete, false, ℕ, ◌≡◌, refl, Option, none, List, [], ◌∷◌, map, filter,
  Sorted, ◌==◌, nat_eq, Text, text, text_eq,
}

abbrev calm : Session
calm = open_session stored 10 (λ n. false)

abbrev holding : Session
holding = session (grant (text "bob") 0 role_reviewer calm)

run_grants : grant (text "bob") 0 role_reviewer calm ≡ done tt holding
unfolding grant Text-discrete ℕ_discrete
run_grants = refl

abbrev taken : Session
taken = session (revoke_grant (text "bob") 0 role_reviewer holding)

run_takes : revoke_grant (text "bob") 0 role_reviewer holding ≡ done tt taken
unfolding revoke_grant grant Text-discrete ℕ_discrete
run_takes = refl

-- The embedder is down.
abbrev down : Text → Option (List ℕ)
down s = none

abbrev filled : Session
filled = session (backfill_embeddings down calm)

abbrev nothing_embedded : BackfillResult
nothing_embedded = record { scanned = 1; embedded = 0; failed = 1 }

run_fills : backfill_embeddings down calm ≡ done nothing_embedded filled
unfolding backfill_embeddings Status-discrete
run_fills = refl

-- Fact 1 is revoked, and its history is read.
abbrev gone : Session
gone = session (revoke 1 (pos 1) (text "ann") calm)

abbrev read : Session
read = session (history 1 gone)

run_reads : history 1 gone ≡ done (revoked_event (text "ann") 1 ∷ []) read
unfolding history revoke Status-discrete ℕ_discrete
run_reads = refl

history_complete_example :
    (rows : List Row) × (revoked_event (text "ann") 1 ∷ [] ≡ map event_of rows)
    × Perm rows (filter (λ r. r.subject_id == 1) gone.db.audit_events)
    × Sorted at_leb rows
    × (read.db ≡ gone.db)
history_complete_example =
    history_complete 1 gone read (revoked_event (text "ann") 1 ∷ []) run_reads
