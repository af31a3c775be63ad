-- ===== src/ContextSvc/Precedence.antt =====
-- internal/contextsvc/contextsvc.go: the candidate that is held under each canonical key.
use baseline.ContextSvc.{Cand, beats, best, cand_key, keep, kind_rank, outranks}
use baseline.Facts.{status_eq}
use baseline.Namespaces.{Kind}
use baseline.Prelude.{
  ap, sym, subst, ℕ, ◌+◌, ◌≤◌, ◌<◌, ◌≡◌, refl, inl, inr, List, [], ◌∷◌, arith, In, ltb,
  if◌then◌else◌, ◌⊎◌, ◌==◌, nat_eq, text_eq, Bool-cases, eq_of_==, ◌∙◌,
}

-- The order of precedence as a number.
abbrev pub score : Cand → ℕ
score c = if c.authoritative then 4 + kind_rank c.kind else kind_rank c.kind

kind_rank-bound : (k : Kind) → kind_rank k < 4
unfolding kind_rank
kind_rank-bound Kind.user = ground arith
kind_rank-bound Kind.project = ground arith
kind_rank-bound Kind.team = ground arith
kind_rank-bound Kind.org = ground arith

pub beats-score : (c d : Cand) → beats c d ≡ ltb (score d) (score c)
unfolding outranks
beats-score c d = ground (arith, kind_rank-bound c.kind, kind_rank-bound d.kind)

-- A candidate is held under the key of `c`, and `c` does not beat it.
abbrev pub Covered : List Cand → Cand → Type 0
Covered held c = (w : Cand) × In w held × (cand_key w ≡ cand_key c) × (score c ≤ score w)

Covered-tail : (d : Cand) (held : List Cand) (c : Cand) → Covered held c → Covered (d ∷ held) c
Covered-tail d held c (w, i, k, s) = (w, inr i, k, s)

-- The three ways that a candidate enters a list that is not empty.
keep-cases :
    (c d : Cand) (ds : List Cand)
    → ((cand_key d ≡ cand_key c) × (score d < score c) × (keep c (d ∷ ds) ≡ c ∷ ds))
      ⊎ ((cand_key d ≡ cand_key c) × (score c ≤ score d) × (keep c (d ∷ ds) ≡ d ∷ ds))
      ⊎ (keep c (d ∷ ds) ≡ d ∷ keep c ds)
unfolding keep
keep-cases c d ds = elim (Bool-cases (cand_key d == cand_key c)) [
  | inl same ↦ elim (Bool-cases (beats c d)) [
    | inl wins ↦
        let by_score = beats-score c d in
        inl (eq_of_== (cand_key d) (cand_key c) same, ground arith, ground arith)
    | inr loses ↦
        let by_score = beats-score c d in
        inr (inl (eq_of_== (cand_key d) (cand_key c) same, ground arith, ground arith))
  ]
  | inr differs ↦ inr (inr (ground arith))
]

Covered-keep_new : (c : Cand) (held : List Cand) → Covered (keep c held) c
unfolding keep
Covered-keep_new c [] = (c, inl refl, refl, ground arith)
Covered-keep_new c (d ∷ ds) = elim (keep-cases c d ds) [
  | inl (_, _, e) ↦ subst (λ xs. Covered xs c) (sym e) (c, inl refl, refl, ground arith)
  | inr (inl (k, higher, e)) ↦ subst (λ xs. Covered xs c) (sym e) (d, inl refl, k, higher)
  | inr (inr e) ↦
      subst (λ xs. Covered xs c) (sym e) (Covered-tail d (keep c ds) c (Covered-keep_new c ds))
]

Covered-keep : (c x : Cand) (held : List Cand) → Covered held x → Covered (keep c held) x
unfolding keep
Covered-keep c x [] (w, i, k, s) = elim i [ ]
Covered-keep c x (d ∷ ds) (w, i, k, s) = elim (keep-cases c d ds) [
  | inl (same, higher, e) ↦
      subst (λ xs. Covered xs x) (sym e)
        (elim i [
          | inl here ↦ (c, inl refl, sym same ∙ ap cand_key here ∙ k, ground (arith, ap score here))
          | inr later ↦ (w, inr later, k, s)
        ])
  | inr (inl (_, _, e)) ↦ subst (λ xs. Covered xs x) (sym e) (w, i, k, s)
  | inr (inr e) ↦
      subst (λ xs. Covered xs x) (sym e)
        (elim i [
          | inl here ↦ (w, inl here, k, s)
          | inr later ↦ Covered-tail d (keep c ds) x (Covered-keep c x ds (w, later, k, s))
        ])
]

Covered-best : (held cs : List Cand) (x : Cand) → Covered held x → Covered (best held cs) x
unfolding best
Covered-best held [] x v = v
Covered-best held (c ∷ cs) x v = Covered-best (keep c held) cs x (Covered-keep c x held v)

pub Covered-best_of : (held cs : List Cand) (x : Cand) → In x cs → Covered (best held cs) x
unfolding best
Covered-best_of held [] x i = elim i [ ]
Covered-best_of held (c ∷ cs) x (inl e) =
    subst (λ y. Covered (best (keep c held) cs) y) e
      (Covered-best (keep c held) cs c (Covered-keep_new c held))
Covered-best_of held (c ∷ cs) x (inr i) = Covered-best_of (keep c held) cs x i

In-keep : (w c : Cand) (held : List Cand) → In w (keep c held) → (c ≡ w) ⊎ In w held
unfolding keep
In-keep w c [] (inl e) = inl e
In-keep w c [] (inr i) = elim i [ ]
In-keep w c (d ∷ ds) i = elim (keep-cases c d ds) [
  | inl (_, _, e) ↦ elim (subst (In w) e i) [ inl here ↦ inl here | inr later ↦ inr (inr later) ]
  | inr (inl (_, _, e)) ↦ inr (subst (In w) e i)
  | inr (inr e) ↦ elim (subst (In w) e i) [
    | inl here ↦ inr (inl here)
    | inr later ↦ elim (In-keep w c ds later) [ inl new ↦ inl new | inr old ↦ inr (inr old) ]
  ]
]

pub In-best : (w : Cand) (held cs : List Cand) → In w (best held cs) → In w held ⊎ In w cs
unfolding best
In-best w held [] i = inl i
In-best w held (c ∷ cs) i = elim (In-best w (keep c held) cs i) [
  | inl kept ↦ elim (In-keep w c held kept) [ inl new ↦ inr (inl new) | inr old ↦ inl old ]
  | inr later ↦ inr (inr later)
]
