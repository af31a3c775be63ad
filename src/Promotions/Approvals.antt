-- ===== src/Promotions/Approvals.antt =====
-- internal/promotions/promotion.go: whom the approval count counts.
use baseline.Prelude.{
  ◌≡◌, subst, Bool, true, false, ◌&&◌, ◌||◌, not, List, [], ◌∷◌, ◌++◌, arith, any, In, any-In,
  In-any, contains, ◌==◌, nat_eq, Text, text_eq, eq_of_==, ==_self, sym, ◌∙◌, ◌≢◌, ◌↔◌,
}
use baseline.Promotions.{
  PromotionRequest, Review, state_eq, decision_eq, add_key, distinct_approvers_from, approve,
  collect, distinct_approvers,
}

pub contains-In : (k : Text) (ks : List Text) → contains k ks ≡ true → In k ks
unfolding contains
contains-In k ks h = let (a, i, e) = any-In _ ks h in subst (λ x. In x ks) (eq_of_== a k e) i

pub In-contains : (k : Text) (ks : List Text) → In k ks → contains k ks ≡ true
unfolding contains
In-contains k ks i = In-any _ k ks i (==_self k)

abbrev pub Distinct : List Text → Type 0
Distinct [] = Unit {0}
Distinct (k ∷ ks) = (contains k ks ≡ false) × Distinct ks

contains-snoc :
    (x k : Text) (ks : List Text) → contains x (ks ++ k ∷ []) ≡ (contains x ks || k == x)
unfolding contains any
contains-snoc x k [] = ground arith
contains-snoc x k (y ∷ ks) = ground (arith, contains-snoc x k ks)

Distinct-snoc :
    (k : Text) (ks : List Text) → contains k ks ≡ false → Distinct ks → Distinct (ks ++ k ∷ [])
unfolding contains any
Distinct-snoc k [] h d = ground arith
Distinct-snoc k (y ∷ ks) h d = ground (arith, contains-snoc y k ks, Distinct-snoc k ks)

contains-add_key :
    (x k : Text) (ks : List Text) → contains x (add_key k ks) ≡ (contains x ks || k == x)
unfolding add_key
contains-add_key x k ks = ground (arith, contains-snoc x k ks)

Distinct-add_key : (k : Text) (ks : List Text) → Distinct ks → Distinct (add_key k ks)
unfolding add_key
Distinct-add_key k ks d = ground (arith, Distinct-snoc k ks)

module _ (proposer : Text) where
  -- The review is an approval by `x`, who is not the proposer.
  abbrev pub counts_for : Text → Review → Bool
  counts_for x r = r.decision == approve && not (r.reviewer == proposer) && r.reviewer == x

  contains-collect :
      (x : Text) (out : List Text) (r : Review)
      → contains x (collect proposer out r) ≡ (contains x out || counts_for x r)
  unfolding collect
  contains-collect x out r = ground (arith, contains-add_key x r.reviewer out)

  contains-distinct_approvers_from :
      (x : Text) (out : List Text) (rs : List Review)
      → contains x (distinct_approvers_from proposer out rs)
        ≡ (contains x out || any (counts_for x) rs)
  unfolding distinct_approvers_from any
  contains-distinct_approvers_from x out [] = ground arith
  contains-distinct_approvers_from x out (r ∷ rs) = ground (
    arith,
    contains-collect x out r,
    contains-distinct_approvers_from x (collect proposer out r) rs,
  )

  Distinct-collect :
      (out : List Text) (r : Review) → Distinct out → Distinct (collect proposer out r)
  unfolding collect
  Distinct-collect out r d = ground (arith, Distinct-add_key r.reviewer out)

  Distinct-distinct_approvers_from :
      (out : List Text) (rs : List Review)
      → Distinct out
      → Distinct (distinct_approvers_from proposer out rs)
  unfolding distinct_approvers_from
  Distinct-distinct_approvers_from out [] d = d
  Distinct-distinct_approvers_from out (r ∷ rs) d =
      Distinct-distinct_approvers_from (collect proposer out r) rs (Distinct-collect out r d)

pub contains-distinct_approvers :
    (p : PromotionRequest) (x : Text)
    → contains x (distinct_approvers p) ≡ any (counts_for p.proposer x) p.reviews
unfolding distinct_approvers contains any
contains-distinct_approvers p x = contains-distinct_approvers_from p.proposer x [] p.reviews

-- `x` approved, and is not the proposer.
abbrev pub Approved : PromotionRequest → Text → Type 0
Approved p x =
    (x ≢ p.proposer) × ((r : Review) × In r p.reviews × (r.reviewer ≡ x) × (r.decision ≡ approve))

pub Distinct-distinct_approvers : (p : PromotionRequest) → Distinct (distinct_approvers p)
unfolding distinct_approvers
Distinct-distinct_approvers p = Distinct-distinct_approvers_from p.proposer [] p.reviews tt

pub counted-Approved :
    (p : PromotionRequest) (x : Text) → In x (distinct_approvers p) → Approved p x
counted-Approved p x i =
    let e = sym (contains-distinct_approvers p x) ∙ In-contains x _ i in
    let (r, i', h) = any-In (counts_for p.proposer x) p.reviews e in
    (ground arith, (r, i', ground arith, ground arith))

Approved-counted : (p : PromotionRequest) (x : Text) → Approved p x → In x (distinct_approvers p)
Approved-counted p x (ne, (r, i, e, d)) = contains-In x _ (
    contains-distinct_approvers p x ∙ In-any (counts_for p.proposer x) r p.reviews i (ground arith))

-- The approvers that are counted are distinct, and they are exactly the reviewers other than the
-- proposer that have an approval in the review log.
pub distinct_approvers_lem :
    (p : PromotionRequest) (x : Text)
    → Distinct (distinct_approvers p) × (In x (distinct_approvers p) ↔ Approved p x)
distinct_approvers_lem p x =
    (Distinct-distinct_approvers p, (counted-Approved p x, Approved-counted p x))
