-- ===== src/Facts/Service/Answers.antt =====
-- internal/facts/service.go and `RevokeWithVersion` of internal/facts/repo.go: what a revocation answers
-- where the connection holds.
use baseline.Audit.Writer.{write}
use baseline.Audit.{Event}
use baseline.Store.Transactions.{begin}
use baseline.Facts.Repo.{
  fact_key, admits, references, has_width, update, get, stamp, revoke_with_version,
}
use baseline.Facts.Service.{revoke, revoked_event}
use baseline.Facts.{Fact, revoked, status_eq, is_active}
use baseline.Prelude.{
  ℕ, suc, ◌≡◌, refl, Bool, true, false, ◌&&◌, Option, none, some, List, arith, Text, In, inl, inr,
  Bool-cases, nat_eq, if◌then◌else◌, is_int, ℤ,
}
use baseline.Store.Table.{find, modify, In-find}
use baseline.Store.{
  Db, conclude, and_then, Session, Outcome, done, fail, Error, exec, in_tx, fact_not_found,
  version_conflict, cannot_revoke,
}

abbrev pub error_of : {A : Type 0} → Outcome A → Option Error
error_of (done a s) = none
error_of (fail e s) = some e

-- The foreign keys of a row and the width of its vector.
abbrev pub columns_hold : List Fact → Fact → Bool
columns_hold fs f =
    references fs f.supersedes_id && references fs f.superseded_by_id && has_width f.embedding

-- The error that the fact with the ID, if there is one, calls for.
abbrev pub refusal : ℤ → Option Fact → Option Error
refusal expected_version none = some fact_not_found
refusal expected_version (some f) =
    if is_active f
    then if is_int f.version expected_version then none else some version_conflict
    else some (cannot_revoke f.status)

-- Either the body succeeds, and leaves a transaction that can go on, or it fails as it should.
abbrev Ends : Session → Outcome (Unit {0}) → Option Error → Type 0
Ends s o none = (t : Session) × (o ≡ done tt t) × (t.aborted ≡ false) × (t.faults ≡ s.faults)
Ends s o (some e) = (t : Session) × (o ≡ fail e t)

revoke_with_version-Ends :
    (id : ℕ) (expected_version : ℤ) (s : Session) (o : Option Fact)
    → find fact_key id s.db.facts ≡ o
    → s.aborted ≡ false
    → s.faults s.sent ≡ false
    → s.faults (suc s.sent) ≡ false
    → ((f : Fact) → o ≡ some f → columns_hold s.db.facts f ≡ true)
    → Ends s (revoke_with_version id expected_version s) (refusal expected_version o)
unfolding revoke_with_version update get exec admits
revoke_with_version-Ends id expected_version s none found a calm calm' sound =
    (record s { sent = suc (suc s.sent) }, ground (arith, found, a, calm, calm'))
revoke_with_version-Ends id expected_version s (some f) found a calm calm' sound =
    let c = sound f refl in
    elim (Bool-cases (is_active f)) [
      | inl is ↦ elim (Bool-cases (is_int f.version expected_version)) [
        | inl current ↦
            rw (is, current)
              (
                record s {
                  sent = suc s.sent;
                  db = record s.db {
                    facts = modify fact_key f.id (stamp revoked s.now) s.db.facts;
                  };
                },
                ground (arith, found, a, calm, c),
                a,
                refl,
              )
        | inr stale ↦
            rw (is, stale)
              (record s { sent = suc (suc s.sent) }, ground (arith, found, a, calm, calm'))
      ]
      | inr over ↦
          rw over (record s { sent = suc (suc s.sent) }, ground (arith, found, a, calm, calm'))
    ]

-- A statement that appends an event, and the commit.
logs_and_commits :
    (e : Event) (before : Db) (s : Session) (o : Outcome (Unit {0})) (r : Option Error)
    → ((n : ℕ) → s.faults n ≡ false)
    → Ends s o r
    → error_of (conclude before (and_then o (λ _. write e))) ≡ r
unfolding write exec
logs_and_commits e before s o none calm (t, ends, a, same) =
    ground (arith, ends, a, same, calm t.sent, calm (suc t.sent))
logs_and_commits e before s o (some err) calm (t, ends) = ground (arith, ends)

-- Over a connection that does not fail, where the foreign keys of the facts and the widths of their
-- vectors hold, a revocation of an ID without a fact answers that there is none, of a fact that is
-- not active that its status cannot be revoked, and of an active one of another version that there
-- is a conflict; every other revocation succeeds.
pub revoke-answers :
    (id : ℕ) (expected_version : ℤ) (principal : Text) (s : Session)
    → ((n : ℕ) → s.faults n ≡ false)
    → ((f : Fact) → In f s.db.facts → columns_hold s.db.facts f ≡ true)
    → error_of (revoke id expected_version principal s)
      ≡ refusal expected_version (find fact_key id s.db.facts)
unfolding revoke in_tx
revoke-answers id expected_version principal s calm sound =
    let o = find fact_key id s.db.facts in
    let body =
      revoke_with_version-Ends id expected_version (begin s) o refl refl (calm (suc s.sent))
        (calm (suc (suc s.sent)))
        (λ f found. sound f ((In-find fact_key f id s.db.facts found).0)) in
    let r =
      logs_and_commits (revoked_event principal id) s.db (begin s)
        (revoke_with_version id expected_version (begin s)) (refusal expected_version o) calm
        body in
    rw (calm s.sent) r
