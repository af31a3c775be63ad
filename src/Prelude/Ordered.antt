-- ===== src/Prelude/Ordered.antt =====
-- What `ORDER BY` promises: the same rows, each before those that the test puts behind it.
use baseline.Prelude.Equality.{Bool-cases}
use baseline.Prelude.Lists.{In}
use baseline.Prelude.Sort.{insert, sort}
use baseline.Prelude.Members.{In-insert}
use mathlib.Core.Bool.{Bool, true}
use mathlib.Core.List.{List, [], ◌∷◌, Perm}
use mathlib.Core.List.Perm
use mathlib.Core.Logic.{◌⊎◌, inl, inr}
use mathlib.Core.Path.{◌≡◌, subst}
use native.Mathlib.Omega.{arith}

module _ {A : Type 0} (leb : A → A → Bool) where
  abbrev pub Sorted : List A → Type 0
  Sorted [] = Unit
  Sorted (x ∷ xs) = ((y : A) → In y xs → leb x y ≡ true) × Sorted xs

  insert-Perm : (x : A) (xs : List A) → Perm (insert leb x xs) (x ∷ xs)
  unfolding insert
  insert-Perm x [] = Perm.refl (x ∷ [])
  insert-Perm x (y ∷ ys) = elim (Bool-cases (leb x y)) [
    | inl before ↦ rw before (Perm.refl (x ∷ y ∷ ys))
    | inr behind ↦ rw behind (Perm.trans (Perm.cons y (insert-Perm x ys)) (Perm.swap x y ys))
  ]

  pub sort-Perm : (xs : List A) → Perm (sort leb xs) xs
  unfolding sort
  sort-Perm [] = Perm.refl []
  sort-Perm (x ∷ xs) = Perm.trans (insert-Perm x (sort leb xs)) (Perm.cons x (sort-Perm xs))

  module _ (total : (a b : A) → (leb a b ≡ true) ⊎ (leb b a ≡ true))
      (transitive : (a b c : A) → leb a b ≡ true → leb b c ≡ true → leb a c ≡ true) where
    insert-Sorted : (x : A) (xs : List A) → Sorted xs → Sorted (insert leb x xs)
    unfolding insert
    insert-Sorted x [] h = (λ y i. elim i [ ], tt)
    insert-Sorted x (y ∷ ys) (least, h) = elim (Bool-cases (leb x y)) [
      | inl before ↦ rw before (
        λ z i. elim i [
          | inl head ↦ subst (λ w. leb x w ≡ true) head before
          | inr later ↦ transitive x y z before (least z later)
        ],
        (least, h),
      )
      | inr behind ↦ rw behind (
        λ z i. elim ((In-insert leb z x ys).1 i) [
          | inl new ↦ subst (λ w. leb y w ≡ true) new (ground (arith, total x y))
          | inr old ↦ least z old
        ],
        insert-Sorted x ys h,
      )
    ]

    pub sort-Sorted : (xs : List A) → Sorted (sort leb xs)
    unfolding sort
    sort-Sorted [] = tt
    sort-Sorted (x ∷ xs) = insert-Sorted x (sort leb xs) (sort-Sorted xs)
