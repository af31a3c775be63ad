-- ===== src/Invariant/Statements.antt =====
-- The statements of internal/facts/repo.go and internal/promotions/repo.go keep the invariant.
use baseline.Audit.{Row}
use baseline.Prelude.{
  ℕ, ◌≡◌, ◌≢◌, ◌⊎◌, true, some, List, [], ◌∷◌, In, refl, inl, inr, Bool, ◌&&◌, not, arith,
  ℕ_discrete, In-any, ◌==◌, nat_eq, text_eq, subst, Option, none, Bool-cases,
}
use baseline.Facts.Repo
use baseline.Facts.Repo.{fact_key, same_slot, clashes, admits, update_row, write_row}
use baseline.Facts.{Fact, is_active, status_eq}
use baseline.Facts.Key.{canonical_key}
use baseline.Invariant.{Inv, ActiveUnique}
use baseline.Promotions.{state_eq, decision_eq}
use baseline.Store.Keeps.{Sound}
use baseline.Store.Table.{IsTable, find, modify, IsTable-modify, In-find, find-In}
use baseline.Store.{Db}

-- An update that changes no column by which a fact is known.
abbrev pub KeepsSlot : (Fact → Fact) → Type 0
KeepsSlot set =
    (f : Fact)
    → ((set f).id ≡ f.id)
      × ((set f).namespace_id ≡ f.namespace_id)
      × ((set f).canonical_key ≡ f.canonical_key)
      × ((set f).subject ≡ f.subject)

module _ {A : Type 0} (key : A → ℕ) (set : A → A) where
  pub In-modify :
      (x : A) (k : ℕ) (xs : List A)
      → In x (modify key k set xs)
      → (In x xs × (key x ≢ k)) ⊎ ((y : A) × In y xs × (key y ≡ k) × (x ≡ set y))
  unfolding modify
  In-modify x k [] i = elim i [ ]
  In-modify x k (z ∷ xs) (inl e) = elim (ℕ_discrete (key z) k) [
    | yes q ↦ inr (z, inl refl, q, ground arith)
    | no q ↦ inl (inl (ground arith), ground arith)
  ]
  In-modify x k (z ∷ xs) (inr i) = elim (In-modify x k xs i) [
    | inl (j, q) ↦ inl (inr j, q)
    | inr (y, j, q, e) ↦ inr (y, inr j, q, e)
  ]

pub clash_absurd :
    (f g : Fact) (fs : List Fact)
    → admits fs f ≡ true
    → In g fs
    → is_active f ≡ true
    → is_active g ≡ true
    → same_slot f g ≡ true
    → f.id ≡ g.id
unfolding admits clashes
clash_absurd f g fs a i hf hg s =
    ground (arith, In-any (λ (h : Fact). not (h.id == f.id) && is_active h && same_slot f h) g fs i)

module _ (set : Fact → Fact) (f : Fact) (n : ℕ) (fs : List Fact) (keyed : IsTable fact_key n fs)
    (keeps : KeepsSlot set) (found : find fact_key f.id fs ≡ some f)
    (admitted : admits fs (set f) ≡ true) (unique : ActiveUnique fs) where
  -- A row of the updated table is an old row with another ID, or the updated one.
  abbrev Origin : Fact → Type 0
  Origin x = (In x fs × (x.id ≢ f.id)) ⊎ (x ≡ set f)

  origin : (x : Fact) → In x (modify fact_key f.id set fs) → Origin x
  origin x i = elim (In-modify fact_key set x f.id fs i) [
    | inl old ↦ inl old
    | inr (y, j, q, e) ↦ inr (ground (arith, find-In fact_key n y fs keyed j))
  ]

  Origin-unique :
      (x y : Fact)
      → Origin x
      → Origin y
      → is_active x ≡ true
      → is_active y ≡ true
      → same_slot x y ≡ true
      → x.id ≡ y.id
  Origin-unique x y (inl (i, _)) (inl (j, _)) hx hy s = unique x y i j hx hy s
  Origin-unique x y (inl (i, _)) (inr e) hx hy s =
      ground (arith, clash_absurd (set f) x fs admitted i)
  Origin-unique x y (inr e) (inl (j, _)) hx hy s =
      ground (arith, clash_absurd (set f) y fs admitted j)
  Origin-unique x y (inr e) (inr e') hx hy s = ground arith

  ActiveUnique-modify : ActiveUnique (modify fact_key f.id set fs)
  ActiveUnique-modify x y ix iy hx hy s = Origin-unique x y (origin x ix) (origin y iy) hx hy s

module _ (set : Fact → Fact) (keeps : KeepsSlot set) where
  key_derived-modify :
      (k : ℕ) (fs : List Fact)
      → ((f : Fact) → In f fs → f.canonical_key ≡ canonical_key f.subject)
      → (f : Fact) → In f (modify fact_key k set fs)
      → f.canonical_key ≡ canonical_key f.subject
  key_derived-modify k fs d f i = elim (In-modify fact_key set f k fs i) [
    | inl (j, _) ↦ d f j
    | inr (g, j, _, e) ↦ cc (d g j, e, (keeps g).2, (keeps g).3)
  ]

  facts_modify-Inv :
      (f : Fact) (db : Db)
      → find fact_key f.id db.facts ≡ some f
      → admits db.facts (set f) ≡ true
      → Inv db
      → Inv (record db { facts = modify fact_key f.id set db.facts })
  facts_modify-Inv f db e a v = record {
    facts_keyed =
        IsTable-modify fact_key set (λ g. (keeps g).0) db.next_id f.id db.facts v.facts_keyed;
    promotions_keyed = v.promotions_keyed;
    active_unique =
        ActiveUnique-modify set f db.next_id db.facts v.facts_keyed keeps e a v.active_unique;
    key_derived = key_derived-modify f.id db.facts v.key_derived;
    approval_required = v.approval_required;
  }

  write_row-Inv :
      (f : Fact) (db : Db) (hit : Bool) (db' : Db)
      → find fact_key f.id db.facts ≡ some f
      → Inv db
      → write_row set f db ≡ some (hit, db')
      → Inv db'
  write_row-Inv f db hit db' e v h = elim (Bool-cases (admits db.facts (set f))) [
    | inl a ↦ subst Inv (ground arith) (facts_modify-Inv f db e a v)
    | inr a ↦ absurd (ground arith)
  ]

  update_row-Inv :
      (id : ℕ) (where_ : Fact → Bool) (o : Option Fact) (db : Db) (hit : Bool) (db' : Db)
      → find fact_key id db.facts ≡ o
      → Inv db
      → update_row where_ set o db ≡ some (hit, db')
      → Inv db'
  update_row-Inv id where_ none db hit db' e v h = subst Inv (ground arith) v
  update_row-Inv id where_ (some f) db hit db' e v h = elim (Bool-cases (where_ f)) [
    | inl w ↦
        write_row-Inv f db hit db' (ground (arith, In-find fact_key f id db.facts)) v (ground arith)
    | inr w ↦ subst Inv (ground arith) v
  ]

pub update-Inv :
    (id : ℕ) (where_ : Fact → Bool) (set : ℕ → Fact → Fact)
    → ((now : ℕ) → KeepsSlot (set now))
    → Sound Inv (Repo.update id where_ set)
unfolding Repo.update
update-Inv id where_ set keeps = record {
  at = λ now db v h. update_row-Inv (set now) (keeps now) id where_ _ db _ _ refl v h;
}

-- A statement that only reads.
audit-Inv : (db : Db) (rows : List Row) → Inv db → Inv (record db { audit_events = rows })
audit-Inv db rows v = record {
  facts_keyed = v.facts_keyed;
  promotions_keyed = v.promotions_keyed;
  active_unique = v.active_unique;
  key_derived = v.key_derived;
  approval_required = v.approval_required;
}

pub set_audit-Inv :
    (q : ℕ → Db → List Row) → Sound Inv (λ now db. some (tt, record db { audit_events = q now db }))
set_audit-Inv q = record { at = λ now db v h. subst Inv (ground arith) (audit-Inv db (q now db) v) }
