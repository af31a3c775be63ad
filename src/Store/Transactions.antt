-- ===== src/Store/Transactions.antt =====
-- What statements and transactions guarantee, whatever the connection does (internal/store,
-- `inTx` of internal/promotions/service.go).
use baseline.Prelude.{suc, ◌≡◌, true, false, some, arith, refl, Bool}
use baseline.Store.{
  Session, Outcome, Tx, Statement, exec, in_tx, Error, sql_error, done, fail, conclude, Db,
  and_then, guard,
}

-- The session that the body of a transaction starts from.
abbrev pub begin : Session → Session
begin s = record s { sent = suc s.sent; aborted = false }

pub exec-done :
    {A : Type 0} (q : Statement A) (s : Session) {a : A} {t : Session}
    → exec q s ≡ done a t
    → (s.aborted ≡ false)
      × (q s.now s.db ≡ some (a, t.db))
      × (t ≡ record s { sent = suc s.sent; db = t.db })
unfolding exec
exec-done q s h = ground arith

-- A statement that fails changes nothing, and leaves the transaction aborted.
pub exec-fail :
    {A : Type 0} (q : Statement A) (s : Session) {e : Error} {t : Session}
    → exec q s ≡ fail e t
    → (e ≡ sql_error) × (t ≡ record s { sent = suc s.sent; aborted = true })
unfolding exec
exec-fail q s h = ground arith

pub and_then-done :
    {A B : Type 0} (o : Outcome A) (f : A → Tx B) (b : B) (t : Session)
    → and_then o f ≡ done b t
    → (a : A) × (u : Session) × (o ≡ done a u) × (f a u ≡ done b t)
and_then-done (done a u) f b t h = (a, u, refl, h)
and_then-done (fail e u) f b t h = absurd (ground arith)

conclude-done :
    {A : Type 0} (before : Db) (o : Outcome A) {a : A} {t : Session}
    → conclude before o ≡ done a t
    → (u : Session) × (o ≡ done a u) × (u.aborted ≡ false) × (t ≡ record u { sent = suc u.sent })
conclude-done before (done b u) h = (u, ground arith, ground arith, ground arith)
conclude-done before (fail e u) h = cc

pub in_tx-done :
    {A : Type 0} (body : Tx A) (s : Session) {a : A} {t : Session}
    → in_tx body s ≡ done a t
    → (u : Session) × (body (begin s) ≡ done a u)
      × (u.aborted ≡ false)
      × (t ≡ record u { sent = suc u.sent })
unfolding in_tx
in_tx-done body s h = conclude-done s.db (body (begin s)) (ground arith)

-- A transaction that fails leaves the database as it was.
pub in_tx-fail :
    {A : Type 0} (body : Tx A) (s : Session) {e : Error} {t : Session}
    → in_tx body s ≡ fail e t
    → t.db ≡ s.db
unfolding in_tx
in_tx-fail body s h = ground arith

pub guard-done :
    (b : Bool) (e : Error) (s t : Session) → guard b e s ≡ done tt t → (b ≡ true) × (t ≡ s)
guard-done true e s t h = (refl, ground arith)
guard-done false e s t h = absurd (ground arith)
