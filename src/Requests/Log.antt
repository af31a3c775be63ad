-- ===== src/Requests/Log.antt =====
-- The audit log (internal/audit/audit.go) under any sequence of calls.
use baseline.Promotions.Repo.{insert_promotion}
use baseline.Audit.{Row, row}
use baseline.Facts.Repo
use baseline.Invariant.Laws.{Laws}
use baseline.Namespaces.Repo as Registrar
use baseline.Prelude.{ℕ, ◌≡◌, some, List, [], ◌∷◌, ◌++◌, arith, ◌∙◌, ap, sym}
use baseline.Promotions.Repo as Requests
use baseline.Promotions.Workflow.{Service}
use baseline.Requests.Kept.{serve-Keeps}
use baseline.Requests.{serve, Request}
use baseline.Store.Keeps.{Sound}
use baseline.Store.{Db, Statement}
use mathlib.Core.List.{append_assoc, append-nil}

module _ (old : List Row) where
  abbrev Extends : Db → Type 0
  Extends db = (rows : List Row) × (db.audit_events ≡ old ++ rows)

  -- A statement on another table.
  leaves_log :
      {A : Type 0} (q : Statement A)
      → ((now : ℕ) (db : Db) (a : A) (db' : Db)
          → q now db ≡ some (a, db')
          → db'.audit_events ≡ db.audit_events)
      → Sound Extends q
  leaves_log q same = record {
    at = λ now db v h. let (rows, e) = v in (rows, same now db _ _ h ∙ e);
  }

  Extends-Laws : Laws Extends
  unfolding Repo.update Repo.insert_row Requests.update Requests.insert_row
      Registrar.insert_namespace
  Extends-Laws = record {
    append_event = λ e. record {
      at = λ now db {a} {db'} v h.
          let (rows, q) = v in
          let added : db'.audit_events ≡ db.audit_events ++ row now e ∷ [] = ground arith in
          (
            rows ++ row now e ∷ [],
            added ∙ ap (λ l. l ++ row now e ∷ []) q ∙ append_assoc old rows (row now e ∷ []),
          );
    };
    update_fact = λ id where_ set k e. leaves_log _ (λ now db a db' h. ground arith);
    insert_fact = λ f. leaves_log _ (λ now db a db' h. ground arith);
    update_promotion = λ id set k. leaves_log _ (λ now db a db' h. ground arith);
    insert_promotion = λ p k. leaves_log _ (λ now db a db' h. ground arith);
    insert_namespace = λ n. leaves_log _ (λ now db a db' h. ground arith);
    set_namespaces = λ hit ns. leaves_log _ (λ now db a db' h. ground arith);
  }

-- Whatever the requests and their faults, the audit log afterwards is the one before, with rows
-- added behind it.
pub serve-audit_events :
    (svc : Service) (db : Db) (rs : List Request)
    → (rows : List Row) × ((serve svc db rs).audit_events ≡ db.audit_events ++ rows)
serve-audit_events svc db rs =
    serve-Keeps (Extends db.audit_events) (Extends-Laws db.audit_events) svc db rs
      ([], sym (append-nil db.audit_events))
