-- ===== src/Metrics/Depths.antt =====
-- internal/metrics/metrics.go: what the queue depth of a namespace counts.
use baseline.Metrics.{bump, group_open, is_waiting}
use baseline.Prelude.{
  ℕ, suc, zero, ◌≡◌, refl, ◌∙◌, ap, ◌&&◌, Option, none, some, List, [], ◌∷◌, filter, length,
  if◌then◌else◌, ◌==◌, nat_eq, arith, Bool-cases, inl, inr,
}
use baseline.Promotions.{PromotionRequest}

-- The number of the group, if the namespace has one.
abbrev pub depth_in : ℕ → List (ℕ × ℕ) → Option ℕ
depth_in ns [] = none
depth_in ns ((k, n) ∷ groups) = if k == ns then some n else depth_in ns groups

abbrev pub waiting : ℕ → List PromotionRequest → ℕ
waiting ns ps = length (filter (λ p. is_waiting p && p.target_namespace_id == ns) ps)

abbrev pub unless_zero : ℕ → Option ℕ
unless_zero zero = none
unless_zero (suc n) = some (suc n)

abbrev one_more : Option ℕ → Option ℕ
one_more none = some 1
one_more (some n) = some (suc n)

depth_in-bump :
    (ns k : ℕ) (groups : List (ℕ × ℕ))
    → depth_in ns (bump k groups)
      ≡ (if k == ns then one_more (depth_in ns groups) else depth_in ns groups)
unfolding bump
depth_in-bump ns k [] = ground arith
depth_in-bump ns k ((l, n) ∷ groups) = ground (arith, depth_in-bump ns k groups)

one_more-unless_zero : (n : ℕ) → one_more (unless_zero n) ≡ some (suc n)
one_more-unless_zero zero = refl
one_more-unless_zero (suc n) = refl

-- The depth that is observed for a namespace is the number of its requests that are pending or in
-- review; a namespace with none is not observed.
pub group_open-depth :
    (ns : ℕ) (ps : List PromotionRequest)
    → depth_in ns (group_open ps) ≡ unless_zero (waiting ns ps)
unfolding group_open filter
group_open-depth ns [] = refl
group_open-depth ns (p ∷ ps) = elim (Bool-cases (is_waiting p)) [
  | inl open_one ↦ elim (Bool-cases (p.target_namespace_id == ns)) [
    | inl here ↦
        rw (open_one, here)
          (depth_in-bump ns p.target_namespace_id (group_open ps)
            ∙ rw here (ap one_more (group_open-depth ns ps) ∙ one_more-unless_zero (waiting ns ps)))
    | inr elsewhere ↦
        rw (open_one, elsewhere)
          (depth_in-bump ns p.target_namespace_id (group_open ps)
            ∙ rw elsewhere (group_open-depth ns ps))
  ]
  | inr closed ↦ rw closed (group_open-depth ns ps)
]
