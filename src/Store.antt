-- ===== src/Store.antt =====
-- The database that the packages share (internal/store/migrations/00001_init.sql) and how they reach it:
-- statements, and the transactions of `inTx` (internal/promotions/service.go,
-- internal/reaper/reaper.go). A statement fails where the schema refuses the write, where the
-- connection fails, and, inside a transaction, after any statement that failed before it.
pub mod Table
pub mod Transactions
pub mod Keeps
pub mod Atomic
use baseline.Prelude.{
  ℕ, suc, Bool, true, false, ◌||◌, Option, none, some, List, if◌then◌else◌, Text,
}
use baseline.Audit.{Row}
use baseline.Facts.{Fact, Status}
use baseline.Namespaces.{Namespace}
use baseline.Promotions.{PromotionRequest}
use baseline.Rbac.{Role}

pub record Membership : Type 0 where
  pub principal : Text
  pub namespace_id : ℕ
  pub role : Role

pub record Db : Type 0 where
  pub namespaces : List Namespace
  pub facts : List Fact
  pub promotions : List PromotionRequest
  pub memberships : List Membership
  pub audit_events : List Row
  pub next_id : ℕ  -- gen_random_uuid() never repeats

-- `faults n` says whether the connection fails at the n-th statement; `aborted` is the state of the
-- open transaction, and `latencies` what the latency recorder was told.
pub record Session : Type 0 where
  pub db : Db
  pub now : ℕ
  pub faults : ℕ → Bool
  pub sent : ℕ
  pub aborted : Bool
  pub latencies : List ℕ

pub data Error : Type 0 where
  sql_error fact_not_found promotion_not_found namespace_not_found : Error
  not_proposer invalid_state self_approval invalid_subject : Error
  version_conflict invalid_role : Error
  cannot_revoke : Status → Error

pub data Outcome (A : Type 0) : Type 0 where
  done : A → Session → Outcome A
  fail : Error → Session → Outcome A

abbrev pub Tx : Type 0 → Type 0
Tx A = Session → Outcome A

-- `if err != nil { return err }` after each step.
infixl 5 ◌>>=◌ ◌>>◌
abbrev pub and_then : {A B : Type 0} → Outcome A → (A → Tx B) → Outcome B
and_then (done a s) f = f a s
and_then (fail e s) f = fail e s

abbrev pub ◌>>=◌ : {A B : Type 0} → Tx A → (A → Tx B) → Tx B
◌>>=◌ m f s = and_then (m s) f

abbrev pub ◌>>◌ : {A B : Type 0} → Tx A → Tx B → Tx B
◌>>◌ m k s = and_then (m s) (λ _. k)

abbrev pub pure : {A : Type 0} → A → Tx A
pure a s = done a s

abbrev pub raise : {A : Type 0} → Error → Tx A
raise e s = fail e s

abbrev pub guard : Bool → Error → Tx (Unit {0})
guard true e s = done tt s
guard false e s = fail e s

-- `_ = stmt`: the error is dropped, and the session goes on from where the statement left it.
abbrev pub ignore_outcome : {A : Type 0} → Outcome A → Outcome (Unit {0})
ignore_outcome (done a s) = done tt s
ignore_outcome (fail e s) = done tt s

abbrev pub ignore : {A : Type 0} → Tx A → Tx (Unit {0})
ignore m s = ignore_outcome (m s)

-- A statement sees the transaction's time; `none` is a violated constraint.
abbrev pub Statement : Type 0 → Type 0
Statement A = ℕ → Db → Option (A × Db)

abbrev pub answer : {A : Type 0} → Option (A × Db) → Session → Outcome A
answer none s = fail sql_error (record s { sent = suc s.sent; aborted = true })
answer (some (a, db)) s = done a (record s { sent = suc s.sent; db = db })

unfoldable pub exec : {A : Type 0} → Statement A → Tx A
exec q s =
    if s.aborted || s.faults s.sent
    then fail sql_error (record s { sent = suc s.sent; aborted = true })
    else answer (q s.now s.db) s

-- A statement on the pool is a transaction of its own.
abbrev pub settle : {A : Type 0} → Outcome A → Outcome A
settle (done a s) = done a (record s { aborted = false })
settle (fail e s) = fail e (record s { aborted = false })

unfoldable pub on_pool : {A : Type 0} → Tx A → Tx A
on_pool m s = settle (m (record s { aborted = false }))

-- The deferred `Rollback`, and `Commit`, which rolls an aborted transaction back and says so.
abbrev pub conclude : {A : Type 0} → Db → Outcome A → Outcome A
conclude before (fail e s) = fail e (record s { db = before; aborted = false })
conclude before (done a s) =
    if s.aborted || s.faults s.sent
    then fail sql_error (record s { db = before; aborted = false; sent = suc s.sent })
    else done a (record s { sent = suc s.sent })

unfoldable pub in_tx : {A : Type 0} → Tx A → Tx A
in_tx body s =
    if s.faults s.sent
    then fail sql_error (record s { sent = suc s.sent })
    else conclude s.db (body (record s { sent = suc s.sent; aborted = false }))
