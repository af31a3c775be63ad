-- ===== src/Store/Atomic.antt =====
-- What becomes of the database where a call fails: the deferred `Rollback` of `inTx`, and single
-- statements on the pool (internal/promotions/service.go, internal/namespaces/repo.go).
use baseline.Store.Transactions.{exec-fail, in_tx-fail, exec-done}
use baseline.Store.{
  Tx, and_then, ◌>>=◌, ◌>>◌, pure, guard, Statement, exec, settle, on_pool, in_tx, Db, Session,
  Error, Outcome, done, fail, raise,
}
use baseline.Prelude.{◌≡◌, refl, ◌∙◌, Bool, true, false, arith, ℕ, some}

-- Where it fails, it has changed nothing.
pub record Atomic {A : Type 0} (m : Tx A) : Type 0 where
  pub at : (s : Session) (e : Error) (t : Session) → m s ≡ fail e t → t.db ≡ s.db

-- Where it succeeds, it has changed nothing.
pub record Reads {A : Type 0} (m : Tx A) : Type 0 where
  pub at : (s : Session) (a : A) (t : Session) → m s ≡ done a t → t.db ≡ s.db

pub Atomic-in_tx : {A : Type 0} (body : Tx A) → Atomic (in_tx body)
Atomic-in_tx body = record { at = λ s e t h. in_tx-fail body s h }

pub Atomic-pure : {A : Type 0} (a : A) → Atomic (pure a)
Atomic-pure a = record { at = λ s e t h. ground arith }

pub Atomic-guard : (b : Bool) (e : Error) → Atomic (guard b e)
Atomic-guard true e = record { at = λ s e' t h. ground arith }
Atomic-guard false e = record { at = λ s e' t h. ground arith }

pub Reads-guard : (b : Bool) (e : Error) → Reads (guard b e)
Reads-guard true e = record { at = λ s e' t h. ground arith }
Reads-guard false e = record { at = λ s e' t h. ground arith }

pub Atomic-exec : {A : Type 0} (q : Statement A) → Atomic (exec q)
Atomic-exec q = record { at = λ s e t h. let (_, q') = exec-fail q s h in ground arith }

and_then-fails :
    {A B : Type 0} (d : Db) (o : Outcome A) (f : A → Tx B) (e : Error) (t : Session)
    → ((e' : Error) (u : Session) → o ≡ fail e' u → u.db ≡ d)
    → ((a : A) (u : Session) → o ≡ done a u → u.db ≡ d)
    → ((a : A) → Atomic (f a))
    → and_then o f ≡ fail e t
    → t.db ≡ d
and_then-fails d (done a u) f e t k l m h = (m a).at u e t h ∙ l a u refl
and_then-fails d (fail e' u) f e t k l m h = k e t (ground arith)

pub Atomic->>= :
    {A B : Type 0} (m : Tx A) (f : A → Tx B)
    → Atomic m
    → Reads m
    → ((a : A) → Atomic (f a))
    → Atomic (m >>= f)
Atomic->>= m f k l n = record {
  at = λ s e t h. and_then-fails s.db (m s) f e t (k.at s) (l.at s) n h;
}

and_then-total :
    {A B : Type 0} (d : Db) (o : Outcome A) (f : A → Tx B) (e : Error) (t : Session)
    → ((e' : Error) (u : Session) → o ≡ fail e' u → u.db ≡ d)
    → ((a : A) (u v : Session) (e' : Error) → f a u ≡ fail e' v → ⊥)
    → and_then o f ≡ fail e t
    → t.db ≡ d
and_then-total d (done a u) f e t k l h = absurd (l a u t e h)
and_then-total d (fail e' u) f e t k l h = k e t (ground arith)

-- Nothing that follows `m` can fail.
pub Atomic-total :
    {A B : Type 0} (m : Tx A) (f : A → Tx B)
    → Atomic m
    → ((a : A) (u v : Session) (e : Error) → f a u ≡ fail e v → ⊥)
    → Atomic (m >>= f)
Atomic-total m f k l = record { at = λ s e t h. and_then-total s.db (m s) f e t (k.at s) l h }

pub Atomic-dismiss : {A : Type 0} (m : Tx A) → Atomic m → Atomic (m >> pure tt)
Atomic-dismiss m k = Atomic-total m (λ _. pure tt) k (λ a u v e h. ground arith)

settle-fail :
    {A : Type 0} (o : Outcome A) (e : Error) (t : Session)
    → settle o ≡ fail e t
    → (u : Session) × (o ≡ fail e u) × (t.db ≡ u.db)
settle-fail (done a u) e t h = absurd (ground arith)
settle-fail (fail e' u) e t h = (u, ground arith, ground arith)

pub settle-done :
    {A : Type 0} (o : Outcome A) (a : A) (t : Session)
    → settle o ≡ done a t
    → (u : Session) × (o ≡ done a u) × (t.db ≡ u.db)
settle-done (done a' u) a t h = (u, ground arith, ground arith)
settle-done (fail e' u) a t h = absurd (ground arith)

pub Atomic-on_pool : {A : Type 0} (m : Tx A) → Atomic m → Atomic (on_pool m)
unfolding on_pool
Atomic-on_pool m k = record {
  at = λ s e t h.
      let (u, q, q') = settle-fail (m (record s { aborted = false })) e t h in
      q' ∙ k.at (record s { aborted = false }) e u q;
}

pub Reads-on_pool : {A : Type 0} (m : Tx A) → Reads m → Reads (on_pool m)
unfolding on_pool
Reads-on_pool m k = record {
  at = λ s a t h.
      let (u, q, q') = settle-done (m (record s { aborted = false })) a t h in
      q' ∙ k.at (record s { aborted = false }) a u q;
}

pub Reads-select : {A : Type 0} (q : ℕ → Db → A) → Reads (exec (λ now db. some (q now db, db)))
Reads-select q = record {
  at = λ s a t h. let (_, q', _) = exec-done (λ now db. some (q now db, db)) s h in ground arith;
}

pub Reads-raise : {A : Type 0} (e : Error) → Reads {A = A} (raise e)
Reads-raise e = record { at = λ s a t h. absurd (ground arith) }

pub Atomic-raise : {A : Type 0} (e : Error) → Atomic {A = A} (raise e)
Atomic-raise e = record { at = λ s e' t h. ground arith }

pub Reads-pure : {A : Type 0} (a : A) → Reads (pure a)
Reads-pure a = record { at = λ s b t h. ground arith }

and_then-Reads :
    {A B : Type 0} (d : Db) (o : Outcome A) (f : A → Tx B) (b : B) (t : Session)
    → ((a : A) (u : Session) → o ≡ done a u → u.db ≡ d)
    → ((a : A) → Reads (f a))
    → and_then o f ≡ done b t
    → t.db ≡ d
and_then-Reads d (done a u) f b t l m h = (m a).at u b t h ∙ l a u refl
and_then-Reads d (fail e u) f b t l m h = absurd (ground arith)

pub Reads->>= :
    {A B : Type 0} (m : Tx A) (f : A → Tx B) → Reads m → ((a : A) → Reads (f a)) → Reads (m >>= f)
Reads->>= m f k l = record { at = λ s b t h. and_then-Reads s.db (m s) f b t (k.at s) l h }
