-- ===== src/Requests/Recorded.antt =====
-- What is recorded of a fact (internal/facts/repo.go) under any sequence of calls.
use baseline.Promotions.Repo.{insert_promotion}
use baseline.Facts.Repo
use baseline.Facts.Repo.{fact_key}
use baseline.Facts.Repo.Writes.{update-done}
use baseline.Facts.{Fact, status_eq}
use baseline.Invariant.Laws.{Laws, Evolves, recorded}
use baseline.Namespaces.Repo as Registrar
use baseline.Prelude.{
  ℕ, ◌≡◌, ◌≤◌, refl, some, List, [], ◌∷◌, ◌++◌, arith, subst, ◌∙◌, sym, inl, inr, In,
  In-append_left, ◌==◌, nat_eq, Bool-cases, text_eq,
}
use baseline.Promotions.Repo as Requests
use baseline.Promotions.Workflow.{Service}
use baseline.Requests.Kept.{serve-Keeps}
use baseline.Requests.{serve, Request}
use baseline.Store.Keeps.{Sound}
use baseline.Store.Table.{modify, find}
use baseline.Store.{Db, Statement}

Evolves-refl : (f : Fact) → Evolves f f
Evolves-refl f = (refl, omega arith)

Evolves-trans : (f g h : Fact) → Evolves f g → Evolves g h → Evolves f h
Evolves-trans f g h (e, m) (e', m') = (e' ∙ e, omega (arith, m, m'))

-- Some row is what has become of the fact.
abbrev Survives : Fact → List Fact → Type 0
Survives f fs = (g : Fact) × In g fs × Evolves f g

module _ (set : Fact → Fact) (evolves : (f : Fact) → Evolves f (set f)) where
  modify-Survives :
      (f : Fact) (k : ℕ) (fs : List Fact) → In f fs → Survives f (modify fact_key k set fs)
  unfolding modify
  modify-Survives f k [] i = elim i [ ]
  modify-Survives f k (x ∷ fs) (inl e) = elim (Bool-cases (fact_key x == k)) [
    | inl hit ↦ (set x, inl (ground (arith, hit)), subst (λ y. Evolves y (set x)) e (evolves x))
    | inr miss ↦ (x, inl (ground (arith, miss)), subst (λ y. Evolves y x) e (Evolves-refl x))
  ]
  modify-Survives f k (x ∷ fs) (inr i) = let (g, j, e) = modify-Survives f k fs i in (g, inr j, e)

module _ (f : Fact) where
  abbrev Kept : Db → Type 0
  Kept db = Survives f db.facts

  -- A statement that leaves every fact there, as it was or evolved.
  leaves_facts :
      {A : Type 0} (q : Statement A)
      → ((now : ℕ) (db : Db) (a : A) (db' : Db)
          → q now db ≡ some (a, db')
          → (g : Fact) → In g db.facts
          → Survives g db'.facts)
      → Sound Kept q
  leaves_facts q stay = record {
    at = λ now db {a} {db'} v h.
        let (g, i, e) = v in
        let (g', i', e') = stay now db a db' h g i in (g', i', Evolves-trans f g g' e e');
  }

  -- A statement on another table.
  leaves_alone :
      {A : Type 0} (q : Statement A)
      → ((now : ℕ) (db : Db) (a : A) (db' : Db) → q now db ≡ some (a, db') → db'.facts ≡ db.facts)
      → Sound Kept q
  leaves_alone q same = record {
    at = λ now db {a} {db'} v h. subst (Survives f) (sym (same now db a db' h)) v;
  }

  Kept-Laws : Laws Kept
  unfolding Repo.update Repo.insert_row Requests.update Requests.insert_row
      Registrar.insert_namespace
  Kept-Laws = record {
    append_event = λ e. leaves_alone _ (λ now db a db' h. ground arith);
    update_fact = λ id where_ set k e. leaves_facts _ λ now db a db' h g i.
        elim (update-done where_ (set now) db (find fact_key id db.facts) a db' h) [
          | inl (_, same, _) ↦ subst (λ d. Survives g d.facts) (sym same) (g, i, Evolves-refl g)
          | inr (x, _, _, _, _, made) ↦
              subst (λ d. Survives g d.facts) (sym made)
                (modify-Survives (set now) (e now) g x.id db.facts i)
        ];
    insert_fact = λ new. leaves_facts _ λ now db a db' h g i.
        let added : db'.facts ≡ db.facts ++ a ∷ [] = ground arith in
        subst (Survives g) (sym added) (g, In-append_left g db.facts (a ∷ []) i, Evolves-refl g);
    update_promotion = λ id set k. leaves_alone _ (λ now db a db' h. ground arith);
    insert_promotion = λ p k. leaves_alone _ (λ now db a db' h. ground arith);
    insert_namespace = λ n. leaves_alone _ (λ now db a db' h. ground arith);
    set_namespaces = λ hit ns. leaves_alone _ (λ now db a db' h. ground arith);
  }

-- Whatever the requests and their faults, a fact that is in the table is there afterwards, with the
-- same namespace, statement, subject, provenance and creator, and with a version that is no less.
pub serve-facts :
    (svc : Service) (db : Db) (rs : List Request) (f : Fact)
    → In f db.facts
    → (g : Fact) × In g (serve svc db rs).facts
      × (recorded g ≡ recorded f)
      × (f.version ≤ g.version)
serve-facts svc db rs f i =
    let (g, j, e) = serve-Keeps (Kept f) (Kept-Laws f) svc db rs (f, i, Evolves-refl f) in
    (g, j, e.0, e.1)
