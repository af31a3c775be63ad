-- ===== src/Facts/Repo/Writes.antt =====
-- The UPDATE statements of internal/facts/repo.go: what a statement that succeeds has done.
use baseline.Facts.Repo.{any_row, activate, activated, supersede, linked_to, superseded_with}
use baseline.Store.{guard, pure, fact_not_found, ◌>>◌}
use baseline.Store.Transactions.{and_then-done, guard-done}
use baseline.Prelude.{
  ap, sym, subst, ℕ, ◌≡◌, ◌⊎◌, inl, inr, refl, Bool, true, false, Option, none, some, arith,
  Bool-cases, suc, if◌then◌else◌, ◌==◌, nat_eq, text_eq, ◌∙◌, List, Text, is_some,
}
use mathlib.Core.Option
use baseline.Facts.Repo.{fact_key, admits, update_row, update}
use baseline.Facts.{Fact, status_eq}
use baseline.Store.Table.{find, modify, In-find, find-modify}
use baseline.Store.Transactions.{exec-done}
use baseline.Store.{Session, Db, done, exec}

-- What an UPDATE does to one row.
abbrev pub applied : (Fact → Bool) → (Fact → Fact) → Fact → Fact
applied where_ set f = if where_ f then set f else f

-- The row that the update touched, if it touched one.
pub update-done :
    (where_ : Fact → Bool) (set : Fact → Fact) (db : Db) (o : Option Fact) (hit : Bool) (db' : Db)
    → update_row where_ set o db ≡ some (hit, db')
    → ((hit ≡ false) × (db' ≡ db) × (Option.map (applied where_ set) o ≡ o))
      ⊎ ((f : Fact) × (o ≡ some f)
          × (where_ f ≡ true)
          × (hit ≡ true)
          × (admits db.facts (set f) ≡ true)
          × (db' ≡ record db { facts = modify fact_key f.id set db.facts }))
update-done where_ set db none hit db' h = inl (ground arith, ground arith, ground arith)
update-done where_ set db (some f) hit db' h = elim (Bool-cases (where_ f)) [
  | inl hits ↦ elim (Bool-cases (admits db.facts (set f))) [
    | inl admitted ↦ inr (f, refl, hits, ground arith, admitted, ground arith)
    | inr misses ↦ absurd (ground arith)
  ]
  | inr misses ↦ inl (ground arith, ground arith, ground arith)
]

-- What an UPDATE with an affected row leaves.
abbrev pub modified : Session → Fact → (Fact → Fact) → Session
modified s f set = record s {
  sent = suc s.sent;
  db = record s.db { facts = modify fact_key f.id set s.db.facts };
}

pub update-hit :
    (id : ℕ) (where_ : Fact → Bool) (set : ℕ → Fact → Fact) (s t : Session)
    → exec (update id where_ set) s ≡ done true t
    → (f : Fact) × (find fact_key id s.db.facts ≡ some f)
      × (where_ f ≡ true)
      × (admits s.db.facts (set s.now f) ≡ true)
      × (t ≡ modified s f (set s.now))
unfolding update
update-hit id where_ set s t h =
    let (_, e, e') = exec-done (update id where_ set) s h in
    elim (update-done where_ (set s.now) s.db (find fact_key id s.db.facts) true t.db e) [
      | inl (bad, _, _) ↦ absurd (ground arith)
      | inr (f, found, hits, _, ok, q) ↦ (f, found, hits, ok, ground arith)
    ]

module _ (id : ℕ) (where_ : Fact → Bool) (set : ℕ → Fact → Fact)
    (keeps : (n : ℕ) (f : Fact) → (set n f).id ≡ f.id) (s : Session) (hit : Bool) (t : Session)
    (h : exec (update id where_ set) s ≡ done hit t) where
  -- Only the table of facts has changed.
  pub update-frame : t ≡ record s { sent = suc s.sent; db = record s.db { facts = t.db.facts } }
  unfolding update
  update-frame =
      let (_, e, e') = exec-done (update id where_ set) s h in
      elim (update-done where_ (set s.now) s.db (find fact_key id s.db.facts) hit t.db e) [
        | inl (_, q, _) ↦ ground arith
        | inr (f, _, _, _, _, q) ↦ ground arith
      ]

  -- What is found under any ID afterwards.
  pub update-find :
      (j : ℕ)
      → find fact_key j t.db.facts ≡ (
          if j == id
          then Option.map (applied where_ (set s.now)) (find fact_key j s.db.facts)
          else find fact_key j s.db.facts)
  unfolding update
  update-find j =
      let (_, e, e') = exec-done (update id where_ set) s h in
      elim (update-done where_ (set s.now) s.db (find fact_key id s.db.facts) hit t.db e) [
        | inl (miss, q, fixed) ↦ elim (Bool-cases (j == id)) [
          | inl eq ↦ ground arith
          | inr neq ↦ ground arith
        ]
        | inr (f, found, hits, _, _, q) ↦
            let (_, keyed) = In-find fact_key f id s.db.facts found in
            let looked = find-modify fact_key (set s.now) (keeps s.now) j f.id s.db.facts in
            ground arith
      ]

-- What a step does to the fact with ID `id`, of all those that are looked up.
abbrev pub on_key : ℕ → (Fact → Fact) → ℕ → Option Fact → Option Fact
on_key id f j o = if j == id then Option.map f o else o

-- A step that changes the table of facts alone, as `change` says.
pub record Moves (s t : Session) (change : ℕ → Option Fact → Option Fact) : Type 0 where
  pub same_time : t.now ≡ s.now
  pub frame : t.db ≡ record s.db { facts = t.db.facts }
  pub looked : (j : ℕ) → find fact_key j t.db.facts ≡ change j (find fact_key j s.db.facts)

pub Moves-trans :
    (s t u : Session) (c d : ℕ → Option Fact → Option Fact)
    → Moves s t c
    → Moves t u d
    → Moves s u (λ j o. d j (c j o))
Moves-trans s t u c d m n = record {
  same_time = n.same_time ∙ m.same_time;
  frame = ground (arith, m.frame, n.frame);
  looked = λ j. n.looked j ∙ ap (d j) (m.looked j);
}

pub Moves-update :
    (id : ℕ) (set : ℕ → Fact → Fact) (s : Session) (hit : Bool) (t : Session)
    → ((n : ℕ) (f : Fact) → (set n f).id ≡ f.id)
    → exec (update id any_row set) s ≡ done hit t
    → Moves s t (on_key id (set s.now))
Moves-update id set s hit t keeps h =
    let fr = update-frame id any_row set keeps s hit t h in
    record {
      same_time = ground arith;
      frame = ground arith;
      looked = λ j. update-find id any_row set keeps s hit t h j;
    }

pub activate-done :
    (id : ℕ) (by : List Text) (s t : Session)
    → activate id by s ≡ done tt t
    → Moves s t (on_key id (activated by s.now)) × is_some (find fact_key id s.db.facts) ≡ true
unfolding activate
activate-done id by s t h =
    let (hit, u, e, e') =
      and_then-done (exec (update id any_row (activated by)) s) (λ hit. guard hit fact_not_found) tt
        t h in
    let (hits, same) = guard-done hit fact_not_found u t e' in
    let m = Moves-update id (activated by) s hit u (λ n f. refl) e in
    let (f, found, _, _, _) = update-hit id any_row (activated by) s u (cc (e, hits)) in
    (subst (λ v. Moves s v (on_key id (activated by s.now))) (sym same) m, ground arith)

-- Both ends of the lineage link.
abbrev pub relinked : ℕ → ℕ → ℕ → ℕ → Option Fact → Option Fact
relinked old_id new_id now j o =
    on_key new_id (linked_to old_id now) j (on_key old_id (superseded_with new_id now) j o)

pub supersede-done :
    (old_id new_id : ℕ) (s t : Session)
    → supersede old_id new_id s ≡ done tt t
    → Moves s t (relinked old_id new_id s.now)
unfolding supersede
supersede-done old_id new_id s t h =
    let (hit, u, e, e') =
      and_then-done (exec (update old_id any_row (superseded_with new_id)) s)
        (λ _. exec (update new_id any_row (linked_to old_id)) >> pure tt) tt t h in
    let (hit', v, e'', last) =
      and_then-done (exec (update new_id any_row (linked_to old_id)) u) (λ _. pure tt) tt t e' in
    let m = Moves-update old_id (superseded_with new_id) s hit u (λ n f. refl) e in
    let n = Moves-update new_id (linked_to old_id) u hit' v (λ n f. refl) e'' in
    let n' = subst (λ x. Moves u v (on_key new_id (linked_to old_id x))) m.same_time n in
    let v_is : v ≡ t = ground arith in
    subst (λ w. Moves s w (relinked old_id new_id s.now)) v_is
      (Moves-trans s u v (on_key old_id (superseded_with new_id s.now))
        (on_key new_id (linked_to old_id s.now)) m n')
