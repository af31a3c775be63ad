-- ===== src/Prelude/Sort.antt =====
-- `sort.Strings` and `sort.Slice`: a list put in order by a Boolean test, and the order of Go strings.
use mathlib.Core.Bool.{Bool, true, false}
use mathlib.Core.List.{List, [], ◌∷◌, Perm, Permᴰ}
use mathlib.Core.Logic.{◌⊎◌, ∥∥₁_elim}
use mathlib.Core.HLevel.{hedberg}
use mathlib.Core.Path.{◌≡◌, refl, ◌∙◌}
use native.Mathlib.Omega.{arith}
use baseline.Prelude.Equality.{Text, ltb, if◌then◌else◌}

module _ {ℓ} {A : Type ℓ} (leb : A → A → Bool) where
  unfoldable pub insert : A → List A → List A
  insert x [] = x ∷ []
  insert x (y ∷ ys) = if leb x y then x ∷ y ∷ ys else y ∷ insert x ys

  unfoldable pub sort : List A → List A
  unfolding insert
  sort [] = []
  sort (x ∷ xs) = insert x (sort xs)

-- The order that makes the sorted list unique.
pub record IsOrder {ℓ} {A : Type ℓ} (leb : A → A → Bool) : Type ℓ where
  pub total : (a b : A) → (leb a b ≡ true) ⊎ (leb b a ≡ true)
  pub antisym : (a b : A) → leb a b ≡ true → leb b a ≡ true → a ≡ b
  pub trans : (a b c : A) → leb a b ≡ true → leb b c ≡ true → leb a c ≡ true

module _ {ℓ} {A : Type ℓ} (leb : A → A → Bool) (o : IsOrder leb) where
  insert_comm :
      (x y : A) (zs : List A) → insert leb x (insert leb y zs) ≡ insert leb y (insert leb x zs)
  unfolding insert
  insert_comm x y [] = ground (arith, o.total x y, o.antisym x y)
  insert_comm x y (z ∷ zs) = ground (
    arith,
    o.total x y,
    o.antisym x y,
    o.total x z,
    o.total y z,
    o.trans x y z,
    o.trans y x z,
    o.trans x z y,
    o.trans y z x,
    insert_comm x y zs,
  )

  sort-permᴰ : {xs ys : List A} → Permᴰ xs ys → sort leb xs ≡ sort leb ys
  unfolding sort
  sort-permᴰ Permᴰ.nil = refl
  sort-permᴰ (Permᴰ.cons e p) = cc (e, sort-permᴰ p)
  sort-permᴰ (Permᴰ.swap {a} {b} {l} e f) = insert_comm a b (sort leb l) ∙ cc (e, f)
  sort-permᴰ (Permᴰ.trans p q) = sort-permᴰ p ∙ sort-permᴰ q

  pub sort-perm : Discrete A → {xs ys : List A} → Perm xs ys → sort leb xs ≡ sort leb ys
  sort-perm d {xs} {ys} p = ∥∥₁_elim p (hlevel (hedberg d)) sort-permᴰ

unfoldable pub text_leb : Text → Text → Bool
text_leb [] ys = true
text_leb (x ∷ xs) [] = false
text_leb (x ∷ xs) (y ∷ ys) = if ltb x y then true else if ltb y x then false else text_leb xs ys

text_leb-total : (a b : Text) → (text_leb a b ≡ true) ⊎ (text_leb b a ≡ true)
unfolding text_leb
text_leb-total [] b = ground arith
text_leb-total (x ∷ xs) [] = ground arith
text_leb-total (x ∷ xs) (y ∷ ys) = ground (arith, text_leb-total xs ys)

text_leb_antisym : (a b : Text) → text_leb a b ≡ true → text_leb b a ≡ true → a ≡ b
unfolding text_leb
text_leb_antisym [] [] h k = refl
text_leb_antisym [] (y ∷ ys) h k = cc
text_leb_antisym (x ∷ xs) [] h k = cc
text_leb_antisym (x ∷ xs) (y ∷ ys) h k = ground (arith, text_leb_antisym xs ys)

text_leb_trans : (a b c : Text) → text_leb a b ≡ true → text_leb b c ≡ true → text_leb a c ≡ true
unfolding text_leb
text_leb_trans [] b c h k = refl
text_leb_trans (x ∷ xs) [] c h k = cc
text_leb_trans (x ∷ xs) (y ∷ ys) [] h k = cc
text_leb_trans (x ∷ xs) (y ∷ ys) (z ∷ zs) h k = ground (arith, text_leb_trans xs ys zs)

pub text_leb-IsOrder : IsOrder text_leb
text_leb-IsOrder = record {
  total = text_leb-total;
  antisym = text_leb_antisym;
  trans = text_leb_trans;
}
