-- ===== src/ContextSvc/Rows.antt =====
-- internal/contextsvc/contextsvc.go: the rows of the query for the facts that a caller is shown.
use baseline.Namespaces.Repo.{namespace_key}
use baseline.Store.Table.{find}
use baseline.Facts.{Fact}
use baseline.ContextSvc.{visible, fact_cand, candidates, Query, Cand}
use baseline.Namespaces.{Namespace}
use baseline.Prelude.{
  ap, subst, sym, inl, inr, ℕ, ◌≡◌, refl, ◌∙◌, ◌⊎◌, true, some, List, [], ◌∷◌, arith, In,
  Bool-cases, Option-cases,
}

-- The row of fact `f` in the query.
pub record RowOf (q : Query) (now : ℕ) (ns : List Namespace) (f : Fact) (c : Cand) : Type 0 where
  pub shown : visible q now f ≡ true
  pub namespace : Namespace
  pub joins : find namespace_key f.namespace_id ns ≡ some namespace
  pub is : c ≡ fact_cand f namespace

joined-cons :
    (q : Query) (now : ℕ) (ns : List Namespace) (f : Fact) (n : Namespace) (fs : List Fact)
    → visible q now f ≡ true
    → find namespace_key f.namespace_id ns ≡ some n
    → candidates q now ns (f ∷ fs) ≡ fact_cand f n ∷ candidates q now ns fs
unfolding candidates
joined-cons q now ns f n fs shown joins = ground (arith, shown, joins)

candidates-cases :
    (q : Query) (now : ℕ) (ns : List Namespace) (f : Fact) (fs : List Fact)
    → (candidates q now ns (f ∷ fs) ≡ candidates q now ns fs)
      ⊎ ((n : Namespace) × (visible q now f ≡ true)
          × (find namespace_key f.namespace_id ns ≡ some n)
          × (candidates q now ns (f ∷ fs) ≡ fact_cand f n ∷ candidates q now ns fs))
unfolding candidates
candidates-cases q now ns f fs = elim (Bool-cases (visible q now f)) [
  | inl shown ↦ elim (Option-cases (find namespace_key f.namespace_id ns)) [
    | inl missing ↦ inl (ground (arith, shown, missing))
    | inr (n, joins) ↦ inr (n, shown, joins, joined-cons q now ns f n fs shown joins)
  ]
  | inr hidden ↦ inl (ground (arith, hidden))
]

pub In-candidates :
    (q : Query) (now : ℕ) (ns : List Namespace) (c : Cand) (fs : List Fact)
    → In c (candidates q now ns fs)
    → (f : Fact) × In f fs × RowOf q now ns f c
unfolding candidates
In-candidates q now ns c [] i = elim i [ ]
In-candidates q now ns c (f ∷ fs) i = elim (candidates-cases q now ns f fs) [
  | inl e ↦ let (g, j, r) = In-candidates q now ns c fs (subst (In c) e i) in (g, inr j, r)
  | inr (n, shown, joins, e) ↦ elim (subst (In c) e i) [
    | inl here ↦
        (f, inl refl, record { shown = shown; namespace = n; joins = joins; is = sym here })
    | inr later ↦ let (g, j, r) = In-candidates q now ns c fs later in (g, inr j, r)
  ]
]

pub candidates-In :
    (q : Query) (now : ℕ) (ns : List Namespace) (f : Fact) (n : Namespace) (fs : List Fact)
    → In f fs
    → visible q now f ≡ true
    → find namespace_key f.namespace_id ns ≡ some n
    → In (fact_cand f n) (candidates q now ns fs)
candidates-In q now ns f n [] i shown joins = elim i [ ]
candidates-In q now ns f n (g ∷ fs) (inl e) shown joins =
    subst (In (fact_cand f n))
      (sym (
        joined-cons q now ns g n fs (ap (visible q now) e ∙ shown)
          (ap (λ (x : Fact). find namespace_key x.namespace_id ns) e ∙ joins)))
      (inl (ap (λ x. fact_cand x n) e))
candidates-In q now ns f n (g ∷ fs) (inr i) shown joins =
    let rest = candidates-In q now ns f n fs i shown joins in
    elim (candidates-cases q now ns g fs) [
      | inl e ↦ subst (In (fact_cand f n)) (sym e) rest
      | inr (_, _, _, e) ↦ subst (In (fact_cand f n)) (sym e) (inr rest)
    ]
