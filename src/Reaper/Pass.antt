-- ===== src/Reaper/Pass.antt =====
-- `Reap` of internal/reaper/reaper.go: which facts one pass expires.
use baseline.Audit.Writer.{write, logged, write-done}
use baseline.Store.Transactions.{and_then-done, begin, exec-done, in_tx-done}
use baseline.Store.Table.{find, IsTable}
use baseline.Store.{◌>>=◌, ◌>>◌, exec, Session, done}
use baseline.Reaper.{
  reap, expire_all, select_stale, count_expiring, is_stale, expired_event, Result, is_expiring,
}
use baseline.Facts.Repo
use baseline.Facts.Repo.{fact_key, stamp}
use baseline.Facts.Repo.Writes.{Moves, Moves-update, on_key}
use baseline.Facts.{Fact, expired, status_eq}
use baseline.Audit.{Row, row}
use baseline.Prelude.{
  ap, sym, map, filter, ℕ, ◌≡◌, refl, ◌∙◌, Option, none, some, List, [], ◌∷◌, ◌++◌, arith,
  if◌then◌else◌, text_eq,
}
use mathlib.Core.List.{append-nil, append_assoc}
use baseline.Prelude.{true, false, Bool-cases, inl, inr, nat_eq, ◌==◌}
use baseline.Store.{Db}
use baseline.Prelude.{length, suc}
use baseline.Store.{Tx, pure}

-- What the loop does to the fact under ID `j`.
abbrev expiring : List ℕ → ℕ → ℕ → Option Fact → Option Fact
expiring [] now j o = o
expiring (id ∷ ids) now j o = expiring ids now j (on_key id (stamp expired now) j o)

abbrev pub expired_row : ℕ → ℕ → Row
expired_row now id = row now (expired_event id)

record Expires (s t : Session) (ids : List ℕ) : Type 0 where
  same_time : t.now ≡ s.now
  looked : (j : ℕ) → find fact_key j t.db.facts ≡ expiring ids s.now j (find fact_key j s.db.facts)
  logs : t.db.audit_events ≡ s.db.audit_events ++ map (expired_row s.now) ids

step-Expires :
    (id : ℕ) (ids : List ℕ) (s u v t : Session)
    → Moves s u (on_key id (stamp expired s.now))
    → v ≡ logged u (expired_event id)
    → Expires v t ids
    → Expires s t (id ∷ ids)
step-Expires id ids s u v t m v_is x =
    let v_now : v.now ≡ s.now = ap (λ (w : Session). w.now) v_is ∙ m.same_time in
    let logged_once : v.db.audit_events ≡ s.db.audit_events ++ expired_row s.now id ∷ [] =
      ap (λ (w : Session). w.db.audit_events) v_is
      ∙ ap (λ (d : Db). d.audit_events ++ expired_row u.now id ∷ []) m.frame
      ∙ ap (λ n. s.db.audit_events ++ expired_row n id ∷ []) m.same_time in
    record {
      same_time = x.same_time ∙ v_now;
      looked = λ j.
          x.looked j
          ∙ ap (λ n. expiring ids n j (find fact_key j v.db.facts)) v_now
          ∙ ap (expiring ids s.now j)
              (ap (λ (w : Session). find fact_key j w.db.facts) v_is ∙ m.looked j);
      logs =
          x.logs
          ∙ ap (λ n. v.db.audit_events ++ map (expired_row n) ids) v_now
          ∙ ap (λ rows. rows ++ map (expired_row s.now) ids) logged_once
          ∙ append_assoc s.db.audit_events (expired_row s.now id ∷ [])
              (map (expired_row s.now) ids);
    }

expire_all-done : (ids : List ℕ) (s t : Session) → expire_all ids s ≡ done tt t → Expires s t ids
unfolding expire_all
expire_all-done [] s t h = record {
  same_time = ground arith;
  looked = λ j. ground arith;
  logs = ground (arith, append-nil s.db.audit_events);
}
expire_all-done (id ∷ ids) s t h =
    let (hit, u, e, e1) =
      and_then-done (exec (Repo.update id Repo.any_row (stamp expired)) s)
        (λ _. do write (expired_event id); expire_all ids) tt t h in
    let (_, v, e2, e3) = and_then-done (write (expired_event id) u) (λ _. expire_all ids) tt t e1 in
    step-Expires id ids s u v t (Moves-update id (stamp expired) s hit u (λ n f. refl) e)
      (write-done (expired_event id) u v e2) (expire_all-done ids v t e3)

abbrev pub stale_ids : ℕ → List Fact → List ℕ
stale_ids now fs = map (λ f. f.id) (filter (is_stale now) fs)

stale_ids-stale :
    (now : ℕ) (f : Fact) (fs : List Fact)
    → is_stale now f ≡ true
    → stale_ids now (f ∷ fs) ≡ f.id ∷ stale_ids now fs
unfolding filter
stale_ids-stale now f fs h =
    ap
      (λ b.
        map (λ (x : Fact). x.id)
          (if b then f ∷ filter (is_stale now) fs else filter (is_stale now) fs))
      h

stale_ids-fresh :
    (now : ℕ) (f : Fact) (fs : List Fact)
    → is_stale now f ≡ false
    → stale_ids now (f ∷ fs) ≡ stale_ids now fs
unfolding filter
stale_ids-fresh now f fs h =
    ap
      (λ b.
        map (λ (x : Fact). x.id)
          (if b then f ∷ filter (is_stale now) fs else filter (is_stale now) fs))
      h

-- One more fact in front of the stale ones.
expiring-cons :
    (now j : ℕ) (f : Fact) (fs : List Fact) (o : Option Fact)
    → expiring (stale_ids now (f ∷ fs)) now j o
      ≡ expiring
          (stale_ids now fs)
          now
          j
          (if is_stale now f then on_key f.id (stamp expired now) j o else o)
expiring-cons now j f fs o = elim (Bool-cases (is_stale now f)) [
  | inl stale ↦
      ap (λ ids. expiring ids now j o) (stale_ids-stale now f fs stale)
      ∙ ap
          (λ b.
            expiring (stale_ids now fs) now j
              (if b then on_key f.id (stamp expired now) j o else o))
          (sym stale)
  | inr fresh ↦
      ap (λ ids. expiring ids now j o) (stale_ids-fresh now f fs fresh)
      ∙ ap
          (λ b.
            expiring (stale_ids now fs) now j
              (if b then on_key f.id (stamp expired now) j o else o))
          (sym fresh)
]

expiring-absent :
    (now j : ℕ) (fs : List Fact) (o : Option Fact)
    → find fact_key j fs ≡ none
    → expiring (stale_ids now fs) now j o ≡ o
unfolding find filter
expiring-absent now j [] o h = refl
expiring-absent now j (f ∷ fs) o h =
    let untouched : (if is_stale now f then on_key f.id (stamp expired now) j o else o) ≡ o =
      ground arith in
    expiring-cons now j f fs o
    ∙ ap (expiring (stale_ids now fs) now j) untouched
    ∙ expiring-absent now j fs o (ground arith)

abbrev pub expired_if_stale : ℕ → Fact → Fact
expired_if_stale now f = if is_stale now f then stamp expired now f else f

expiring-found :
    (n now j : ℕ) (fs : List Fact) (f : Fact)
    → IsTable fact_key n fs
    → find fact_key j fs ≡ some f
    → expiring (stale_ids now fs) now j (some f) ≡ some (expired_if_stale now f)
unfolding find filter
expiring-found n now j [] f t h = absurd (ground arith)
expiring-found n now j (g ∷ fs) f (_, new, t) h = elim (Bool-cases (g.id == j)) [
  | inl first ↦
      let stamped : (if is_stale now g then on_key g.id (stamp expired now) j (some f) else some f)
          ≡ some (expired_if_stale now f) =
        ground arith in
      expiring-cons now j g fs (some f)
      ∙ ap (expiring (stale_ids now fs) now j) stamped
      ∙ expiring-absent now j fs (some (expired_if_stale now f)) (ground arith)
  | inr later ↦
      let untouched : (if is_stale now g
            then on_key g.id (stamp expired now) j (some f)
            else some f)
          ≡ some f =
        ground arith in
      expiring-cons now j g fs (some f)
      ∙ ap (expiring (stale_ids now fs) now j) untouched
      ∙ expiring-found n now j fs f t (ground arith)
]

-- What a pass has done: one transaction that selects, expires and counts.
record Passed (s t : Session) (r : Result) : Type 0 where
  looked :
      (j : ℕ)
      → find fact_key j t.db.facts
        ≡ expiring (stale_ids s.now s.db.facts) s.now j (find fact_key j s.db.facts)
  logs :
      t.db.audit_events ≡ s.db.audit_events ++ map (expired_row s.now) (stale_ids s.now s.db.facts)
  counted : r.expired ≡ length (stale_ids s.now s.db.facts)

select_stale-done :
    (s : Session) (ids : List ℕ) (t : Session)
    → select_stale s ≡ done ids t
    → (ids ≡ stale_ids s.now s.db.facts) × (t ≡ record s { sent = suc s.sent })
unfolding select_stale
select_stale-done s ids t h =
    let (_, q, q') = exec-done (λ now db. some (stale_ids now db.facts, db)) s h in
    (ground arith, ground arith)

count_expiring-done :
    (s : Session) (n : ℕ) (t : Session) → count_expiring s ≡ done n t → t.db ≡ s.db
unfolding count_expiring
count_expiring-done s n t h =
    let (_, q, _) =
      exec-done (λ now db. some (length (filter (is_expiring now) db.facts), db)) s h in
    ground arith

abbrev tallied : List ℕ → ℕ → Tx Result
tallied ids soon = pure (record { expired = length ids; expiring_soon = soon })

reap-Passed : (s : Session) (r : Result) (t : Session) → reap s ≡ done r t → Passed s t r
unfolding reap
reap-Passed s r t h =
    let (u, e, _, t_is) =
      in_tx-done (do ids ← select_stale; expire_all ids; soon ← count_expiring; tallied ids soon) s
        h in
    let (ids, v, e1, e2) =
      and_then-done (select_stale (begin s))
        (λ ids. do expire_all ids; soon ← count_expiring; tallied ids soon) r u e in
    let (_, w, e3, e4) =
      and_then-done (expire_all ids v) (λ _. do soon ← count_expiring; tallied ids soon) r u e2 in
    let (soon, x, e5, e6) = and_then-done (count_expiring w) (tallied ids) r u e4 in
    let (ids_are, v_is) = select_stale-done (begin s) ids v e1 in
    let m = expire_all-done ids v w e3 in
    let same = count_expiring-done w soon x e5 in
    let ending : t.db ≡ w.db = ground arith in
    let v_now : v.now ≡ s.now = ap (λ (y : Session). y.now) v_is in
    let v_db : v.db ≡ s.db = ap (λ (y : Session). y.db) v_is in
    record {
      looked = λ j.
          ap (λ (d : Db). find fact_key j d.facts) ending
          ∙ m.looked j
          ∙ ap (λ n. expiring ids n j (find fact_key j v.db.facts)) v_now
          ∙ ap (λ (d : Db). expiring ids s.now j (find fact_key j d.facts)) v_db
          ∙ ap (λ xs. expiring xs s.now j (find fact_key j s.db.facts)) ids_are;
      logs =
          ap (λ (d : Db). d.audit_events) ending
          ∙ m.logs
          ∙ ap (λ n. v.db.audit_events ++ map (expired_row n) ids) v_now
          ∙ ap (λ (d : Db). d.audit_events ++ map (expired_row s.now) ids) v_db
          ∙ ap (λ xs. s.db.audit_events ++ map (expired_row s.now) xs) ids_are;
      counted = ground (arith, ap length ids_are);
    }

reap-expires :
    (n j : ℕ) (f : Fact) (s : Session) (r : Result) (t : Session)
    → IsTable fact_key n s.db.facts
    → find fact_key j s.db.facts ≡ some f
    → reap s ≡ done r t
    → find fact_key j t.db.facts ≡ some (expired_if_stale s.now f)
reap-expires n j f s r t table found ok =
    (reap-Passed s r t ok).looked j
    ∙ ap (expiring (stale_ids s.now s.db.facts) s.now j) found
    ∙ expiring-found n s.now j s.db.facts f table found

-- After a pass that succeeds, on a table of facts with distinct IDs, a fact is expired, in its next
-- version, if it was active and its validity had ended, and unchanged if not; the pass has appended
-- to the audit log one event for each fact that was active and past the end of its validity, in the
-- order of the table, and it answers how many these are.
pub reap-done :
    (n j : ℕ) (f : Fact) (s : Session) (r : Result) (t : Session)
    → IsTable fact_key n s.db.facts
    → find fact_key j s.db.facts ≡ some f
    → reap s ≡ done r t
    → (find fact_key j t.db.facts ≡ some (expired_if_stale s.now f))
      × (t.db.audit_events
          ≡ s.db.audit_events ++ map (expired_row s.now) (stale_ids s.now s.db.facts))
      × (r.expired ≡ length (stale_ids s.now s.db.facts))
reap-done n j f s r t table found ok =
    let p = reap-Passed s r t ok in (reap-expires n j f s r t table found ok, p.logs, p.counted)
