-- ===== src/Facts/Service/Revoke.antt =====
-- internal/facts/service.go and `RevokeWithVersion` of internal/facts/repo.go: a revocation under
-- optimistic concurrency.
use baseline.Facts.Repo.Writes.{update-hit}
use baseline.Prelude.{pos, ℕ, ◌≡◌, Bool, true, false, some, arith, refl, [], ◌∷◌, ◌++◌, Text, ℤ}
use baseline.Audit.Writer.{write, write-done}
use baseline.Audit.{row}
use baseline.Facts.Repo
use baseline.Facts.Repo.{
  fact_key, admits, write_row, update_row, is_current, revoke_with_version, stamp, update,
  revoked_or_diagnose,
}
use baseline.Facts.Service.{revoke, revoked_event}
use baseline.Facts.{Fact, active, revoked}
use baseline.Store.Table.{find, modify, In-find}
use baseline.Store.Transactions.{begin, in_tx-done, and_then-done}
use baseline.Store.{Session, Db, Outcome, done, fail, exec, fact_not_found, ◌>>◌}

diagnose-fails : (o : Outcome Fact) (t : Session) → Repo.diagnose o ≡ done tt t → ⊥
diagnose-fails (done f s) t h = ground arith
diagnose-fails (fail fact_not_found s) t h = ground arith
diagnose-fails (fail _ s) t h = ground arith

revoked_or_diagnose-done :
    (id : ℕ) (hit : Bool) (s t : Session)
    → revoked_or_diagnose id hit s ≡ done tt t
    → (hit ≡ true) × (t ≡ s)
revoked_or_diagnose-done id true s t h = (refl, ground arith)
revoked_or_diagnose-done id false s t h = absurd (diagnose-fails (Repo.get id s) t h)

revoke_with_version-done :
    (id : ℕ) (expected_version : ℤ) (s t : Session)
    → revoke_with_version id expected_version s ≡ done tt t
    → (f : Fact) × (find fact_key id s.db.facts ≡ some f)
      × (f.status ≡ active)
      × (expected_version ≡ pos f.version)
      × (t.now ≡ s.now)
      × (t.db ≡ record s.db { facts = modify fact_key f.id (stamp revoked s.now) s.db.facts })
unfolding revoke_with_version
revoke_with_version-done id expected_version s t h =
    let (hit, u, e, e') =
      and_then-done (exec (update id (is_current expected_version) (stamp revoked)) s)
        (revoked_or_diagnose id) tt t h in
    let (hits, same) = revoked_or_diagnose-done id hit u t e' in
    let (f, found, current, _, q) =
      update-hit id (is_current expected_version) (stamp revoked) s u (cc (e, hits)) in
    (f, found, ground arith, ground arith, ground arith, ground arith)

-- What the database is after fact `f` has been revoked by `principal`.
abbrev pub revoked_in : Db → ℕ → Fact → Text → Db
revoked_in db now f principal = record db {
  facts = modify fact_key f.id (stamp revoked now) db.facts;
  audit_events = db.audit_events ++ row now (revoked_event principal f.id) ∷ [];
}

-- A revocation that succeeds found the fact active and at the expected version, and the database
-- afterwards differs in that fact alone, which is revoked with the next version, and in the one
-- audit event of the revocation.
pub revoke-done :
    (id : ℕ) (expected_version : ℤ) (principal : Text) (s t : Session)
    → revoke id expected_version principal s ≡ done tt t
    → (f : Fact) × (find fact_key id s.db.facts ≡ some f)
      × (f.status ≡ active)
      × (expected_version ≡ pos f.version)
      × (t.db ≡ revoked_in s.db s.now f principal)
unfolding revoke
revoke-done id expected_version principal s t h =
    let (u, body, _, q) =
      in_tx-done (do revoke_with_version id expected_version; write (revoked_event principal id)) s
        h in
    let (_, v, updates, logs) =
      and_then-done (revoke_with_version id expected_version (begin s))
        (λ _. write (revoked_event principal id)) tt u body in
    let (f, found, is, current, same_time, q') =
      revoke_with_version-done id expected_version (begin s) v updates in
    let w = write-done (revoked_event principal id) v u logs in
    let (_, keyed) = In-find fact_key f id s.db.facts found in (f, found, is, current, ground arith)
