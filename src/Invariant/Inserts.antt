-- ===== src/Invariant/Inserts.antt =====
-- The statements that insert rows, and those on the other tables (internal/facts/repo.go,
-- internal/promotions/repo.go, internal/namespaces/repo.go), keep the invariant.
use baseline.Prelude.{
  ℕ, suc, ◌≡◌, sym, ◌⊎◌, inl, inr, true, List, [], ◌∷◌, ◌++◌, arith, In, ◌≤◌, refl, subst, ◌&&◌,
  some, Bool-cases, Option-cases,
}
use baseline.Facts.Repo
use baseline.Facts.Repo.{fact_key, admits, new_row}
use baseline.Facts.{Fact, is_active}
use baseline.Facts.Key.{canonical_key}
use baseline.Invariant.Statements.{clash_absurd, In-modify}
use baseline.Invariant.{Inv, ActiveUnique}
use baseline.Namespaces.{Namespace}
use baseline.Promotions.Repo as Requests
use baseline.Promotions.Repo.{promotion_key}
use baseline.Promotions.{PromotionRequest}
use baseline.Store.Keeps.{Sound}
use baseline.Store.Table.{IsTable, find, modify, IsTable-modify, IsTable-mono, find-append}
use baseline.Store.{Db}

module _ {A : Type 0} (key : A → ℕ) where
  IsTable-snoc :
      (n : ℕ) (x : A) (xs : List A)
      → IsTable key n xs
      → key x ≡ n
      → IsTable key (suc n) (xs ++ x ∷ [])
  unfolding find
  IsTable-snoc n x [] t e = ground arith
  IsTable-snoc n x (y ∷ xs) t e =
      ground (arith, IsTable-snoc n x xs, find-append key (key y) xs (x ∷ []))

In-snoc : {A : Type 0} (x y : A) (xs : List A) → In x (xs ++ y ∷ []) → In x xs ⊎ (x ≡ y)
In-snoc x y [] (inl e) = inr (sym e)
In-snoc x y [] (inr h) = elim h [ ]
In-snoc x y (z ∷ xs) (inl e) = inl (inl e)
In-snoc x y (z ∷ xs) (inr i) = elim (In-snoc x y xs i) [ inl j ↦ inl (inr j) | inr e ↦ inr e ]

module _ (r : Fact) (fs : List Fact) (admitted : admits fs r ≡ true)
    (unique : ActiveUnique fs) where
  Origin-unique :
      (x y : Fact)
      → In x fs ⊎ (x ≡ r)
      → In y fs ⊎ (y ≡ r)
      → is_active x ≡ true
      → is_active y ≡ true
      → Repo.same_slot x y ≡ true
      → x.id ≡ y.id
  Origin-unique x y (inl i) (inl j) hx hy s = unique x y i j hx hy s
  Origin-unique x y (inl i) (inr e) hx hy s = ground (arith, clash_absurd r x fs admitted i)
  Origin-unique x y (inr e) (inl j) hx hy s = ground (arith, clash_absurd r y fs admitted j)
  Origin-unique x y (inr e) (inr e') hx hy s = ground arith

  ActiveUnique-snoc : ActiveUnique (fs ++ r ∷ [])
  ActiveUnique-snoc x y i j = Origin-unique x y (In-snoc x r fs i) (In-snoc y r fs j)

insert_fact-Inv :
    (r : Fact) (db : Db)
    → r.id ≡ db.next_id
    → r.canonical_key ≡ canonical_key r.subject
    → admits db.facts r ≡ true
    → Inv db
    → Inv (record db { facts = db.facts ++ r ∷ []; next_id = suc db.next_id })
insert_fact-Inv r db e k a v = record {
  facts_keyed = IsTable-snoc fact_key db.next_id r db.facts v.facts_keyed e;
  promotions_keyed = IsTable-mono promotion_key _ _ db.promotions (omega arith) v.promotions_keyed;
  active_unique = ActiveUnique-snoc r db.facts a v.active_unique;
  key_derived =
      λ f i. elim (In-snoc f r db.facts i) [ inl j ↦ v.key_derived f j | inr q ↦ cc (q, k) ];
  approval_required = v.approval_required;
}

module _ (f : Fact) (derived : f.canonical_key ≡ canonical_key f.subject) where
  insert_row-some :
      (now : ℕ) (db : Db) (a : Fact) (db' : Db)
      → Inv db
      → Repo.insert_row f now db ≡ some (a, db')
      → Inv db'
  unfolding Repo.insert_row
  insert_row-some now db a db' v h =
      elim (Bool-cases
        (Repo.has_namespace db f.namespace_id && admits db.facts (new_row db.next_id now f))) [
          | inl e ↦
              subst Inv (ground arith)
                (insert_fact-Inv (new_row db.next_id now f) db refl derived (ground arith) v)
          | inr e ↦ absurd (ground arith)
        ]

-- A fact comes in with the key of its subject, whatever key the caller asked for.
pub insert_row-Inv :
    (f : Fact) → Sound Inv (Repo.insert_row (record f { canonical_key = canonical_key f.subject }))
insert_row-Inv f = record {
  at = λ now db v h.
      insert_row-some (record f { canonical_key = canonical_key f.subject }) refl now db _ _ v h;
}

insert_request-Inv :
    (r : PromotionRequest) (db : Db)
    → r.id ≡ db.next_id
    → 1 ≤ r.required_approvals
    → Inv db
    → Inv (record db { promotions = db.promotions ++ r ∷ []; next_id = suc db.next_id })
insert_request-Inv r db e k v = record {
  facts_keyed = IsTable-mono fact_key _ _ db.facts (omega arith) v.facts_keyed;
  promotions_keyed = IsTable-snoc promotion_key db.next_id r db.promotions v.promotions_keyed e;
  active_unique = v.active_unique;
  key_derived = v.key_derived;
  approval_required = λ p i. elim (In-snoc p r db.promotions i) [
    | inl j ↦ v.approval_required p j
    | inr q ↦ ground arith
  ];
}

module _ (p : PromotionRequest) (required : 1 ≤ p.required_approvals) where
  insert_request-some :
      (now : ℕ) (db : Db) (a : PromotionRequest) (db' : Db)
      → Inv db
      → Requests.insert_row p now db ≡ some (a, db')
      → Inv db'
  unfolding Requests.insert_row
  insert_request-some now db a db' v h = elim (Option-cases (Requests.insert_row p now db)) [
    | inl e ↦ absurd (ground arith)
    | inr ((r, db''), e) ↦ subst Inv (ground arith) (
        insert_request-Inv (record p { id = db.next_id; created_at = now; updated_at = now }) db
          refl required v)
  ]

  pub insert_promotion-Inv : Sound Inv (Requests.insert_row p)
  insert_promotion-Inv = record { at = λ now db v h. insert_request-some now db _ _ v h }

-- An update that changes neither the ID nor the number of approvals.
abbrev pub KeepsRequired : (PromotionRequest → PromotionRequest) → Type 0
KeepsRequired set =
    (p : PromotionRequest)
    → ((set p).id ≡ p.id) × ((set p).required_approvals ≡ p.required_approvals)

module _ (set : PromotionRequest → PromotionRequest) (keeps : KeepsRequired set) where
  approval_required-modify :
      (k : ℕ) (ps : List PromotionRequest)
      → ((p : PromotionRequest) → In p ps → 1 ≤ p.required_approvals)
      → (p : PromotionRequest) → In p (modify promotion_key k set ps)
      → 1 ≤ p.required_approvals
  approval_required-modify k ps d p i = elim (In-modify promotion_key set p k ps i) [
    | inl (j, _) ↦ d p j
    | inr (q, j, _, e) ↦ ground (arith, d q j, keeps q)
  ]

  promotions_modify-Inv :
      (k : ℕ) (db : Db)
      → Inv db
      → Inv (record db { promotions = modify promotion_key k set db.promotions })
  promotions_modify-Inv k db v = record {
    facts_keyed = v.facts_keyed;
    promotions_keyed =
        IsTable-modify promotion_key set (λ p. (keeps p).0) db.next_id k db.promotions
          v.promotions_keyed;
    active_unique = v.active_unique;
    key_derived = v.key_derived;
    approval_required = approval_required-modify k db.promotions v.approval_required;
  }

pub update_promotion-Inv :
    (k : ℕ) (set : ℕ → PromotionRequest → PromotionRequest)
    → ((now : ℕ) → KeepsRequired (set now))
    → Sound Inv (Requests.update k set)
unfolding Requests.update
update_promotion-Inv k set keeps = record {
  at = λ now db v h. subst Inv (ground arith) (promotions_modify-Inv (set now) (keeps now) k db v);
}

pub namespaces-Inv :
    (db : Db) (ns : List Namespace) (n : ℕ)
    → db.next_id ≤ n
    → Inv db
    → Inv (record db { namespaces = ns; next_id = n })
namespaces-Inv db ns n h v = record {
  facts_keyed = IsTable-mono fact_key _ _ db.facts h v.facts_keyed;
  promotions_keyed = IsTable-mono promotion_key _ _ db.promotions h v.promotions_keyed;
  active_unique = v.active_unique;
  key_derived = v.key_derived;
  approval_required = v.approval_required;
}
