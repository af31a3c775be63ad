-- ===== src/Store/Keeps.antt =====
-- Programs that keep a property of the database, whatever their outcome (`inTx` and the statements
-- of internal/facts, internal/promotions and internal/reaper).
use baseline.Prelude.{
  ℕ, ◌≡◌, refl, inl, inr, Bool, true, false, ◌||◌, Option, none, some, arith, Bool-cases,
  if◌then◌else◌, subst,
}
use baseline.Store.{
  Session, Outcome, Tx, Statement, Db, done, fail, and_then, ◌>>=◌, ◌>>◌, pure, raise, guard,
  ignore_outcome, ignore, answer, exec, settle, on_pool, conclude, in_tx, Error,
}

abbrev pub session : {A : Type 0} → Outcome A → Session
session (done a s) = s
session (fail e s) = s

pub record Keeps {A : Type 0} (P : Db → Type 0) (m : Tx A) : Type 0 where
  pub at : (s : Session) → P s.db → P (session (m s)).db

-- A statement keeps a property if every row change that the schema admits does.
pub record Sound {A : Type 0} (P : Db → Type 0) (q : Statement A) : Type 0 where
  pub at : (now : ℕ) (db : Db) {a : A} {db' : Db} → P db → q now db ≡ some (a, db') → P db'

module _ (P : Db → Type 0) where
  answer-keeps :
      {A : Type 0} (o : Option (A × Db)) (s : Session)
      → P s.db
      → ((a : A) (db' : Db) → o ≡ some (a, db') → P db')
      → P (session (answer o s)).db
  answer-keeps none s h k = h
  answer-keeps (some (a, db)) s h k = k a db refl

  pub Keeps-exec : {A : Type 0} {q : Statement A} → Sound P q → Keeps P (exec q)
  unfolding exec
  Keeps-exec {q} k = record {
    at = λ s h. elim (Bool-cases (s.aborted || s.faults s.sent)) [
      | inl e ↦ rw e h
      | inr e ↦ rw e (answer-keeps (q s.now s.db) s h (λ a db' e'. k.at s.now s.db h e'))
    ];
  }

  and_then-keeps :
      {A B : Type 0} (o : Outcome A) {f : A → Tx B}
      → P (session o).db
      → ((a : A) → Keeps P (f a))
      → P (session (and_then o f)).db
  and_then-keeps (done a s) h k = (k a).at s h
  and_then-keeps (fail e s) h k = h

  pub Keeps->>= :
      {A B : Type 0} {m : Tx A} {f : A → Tx B}
      → Keeps P m
      → ((a : A) → Keeps P (f a))
      → Keeps P (m >>= f)
  Keeps->>= {m} k l = record { at = λ s h. and_then-keeps (m s) (k.at s h) l }

  pub Keeps->> : {A B : Type 0} {m : Tx A} {f : Tx B} → Keeps P m → Keeps P f → Keeps P (m >> f)
  Keeps->> {m} k l = record { at = λ s h. and_then-keeps (m s) (k.at s h) (λ _. l) }

  pub Keeps-pure : {A : Type 0} {a : A} → Keeps P (pure a)
  Keeps-pure = record { at = λ s h. h }

  pub Keeps-raise : {A : Type 0} {e : Error} → Keeps P (raise {A = A} e)
  Keeps-raise = record { at = λ s h. h }

  pub Keeps-guard : (b : Bool) (e : Error) → Keeps P (guard b e)
  Keeps-guard true e = record { at = λ s h. h }
  Keeps-guard false e = record { at = λ s h. h }

  pub Keeps-if :
      {A : Type 0} (b : Bool) {m n : Tx A} → Keeps P m → Keeps P n → Keeps P (if b then m else n)
  Keeps-if true k l = k
  Keeps-if false k l = l

  ignore-keeps : {A : Type 0} (o : Outcome A) → P (session o).db → P (session (ignore_outcome o)).db
  ignore-keeps (done a s) h = h
  ignore-keeps (fail e s) h = h

  pub Keeps-ignore : {A : Type 0} {m : Tx A} → Keeps P m → Keeps P (ignore m)
  Keeps-ignore {m} k = record { at = λ s h. ignore-keeps (m s) (k.at s h) }

  settle-keeps : {A : Type 0} (o : Outcome A) → P (session o).db → P (session (settle o)).db
  settle-keeps (done a s) h = h
  settle-keeps (fail e s) h = h

  pub Keeps-on_pool : {A : Type 0} {m : Tx A} → Keeps P m → Keeps P (on_pool m)
  unfolding on_pool
  Keeps-on_pool {m} k = record { at = λ s h. settle-keeps (m _) (k.at _ h) }

  conclude-keeps :
      {A : Type 0} (before : Db) (o : Outcome A)
      → P before
      → P (session o).db
      → P (session (conclude before o)).db
  conclude-keeps before (fail e s) b h = b
  conclude-keeps before (done a s) b h = ground arith

  pub Keeps-in_tx : {A : Type 0} {body : Tx A} → Keeps P body → Keeps P (in_tx body)
  unfolding in_tx
  Keeps-in_tx {body} k = record {
    at = λ s h. elim (Bool-cases (s.faults s.sent)) [
      | inl e ↦ rw e h
      | inr e ↦ rw e (conclude-keeps s.db (body _) h (k.at _ h))
    ];
  }

  -- A query changes nothing.
  pub Sound-select : {A : Type 0} (q : ℕ → Db → A) → Sound P (λ now db. some (q now db, db))
  Sound-select q = record { at = λ now db v h. subst P (ground arith) v }
