-- ===== src/Prelude/Members.antt =====
-- Membership in lists that are put in order, mapped or cut (`sort.Slice`, `ORDER BY`, `LIMIT`).
use baseline.Prelude.Equality.{Bool-cases}
use baseline.Prelude.Lists.{In, All, take}
use baseline.Prelude.Sort.{insert, sort}
use mathlib.Core.Bool.{Bool}
use mathlib.Core.List.{List, [], ◌∷◌, map}
use mathlib.Core.Logic.{inl, inr, ◌↔◌}
use mathlib.Core.Path.{◌≡◌, refl, ap}
use Prim.Native.Nat.{ℕ, zero, suc}

pub In-insert :
    {A : Type 0} (leb : A → A → Bool) (a x : A) (xs : List A)
    → In a (x ∷ xs) ↔ In a (insert leb x xs)
unfolding insert
In-insert leb a x [] = (λ i. i, λ i. i)
In-insert leb a x (y ∷ ys) = elim (Bool-cases (leb x y)) [
  | inl before ↦ rw before (λ i. i, λ i. i)
  | inr behind ↦
      let (to, from) = In-insert leb a x ys in
      rw behind (
        λ i. elim i [
          | inl here ↦ inr (to (inl here))
          | inr later ↦ elim later [ inl second ↦ inl second | inr rest ↦ inr (to (inr rest)) ]
        ],
        λ i. elim i [
          | inl here ↦ inr (inl here)
          | inr later ↦ elim (from later) [ inl head ↦ inl head | inr rest ↦ inr (inr rest) ]
        ],
      )
]

pub In-sort : {A : Type 0} (leb : A → A → Bool) (a : A) (xs : List A) → In a xs ↔ In a (sort leb xs)
unfolding sort
In-sort leb a [] = (λ i. i, λ i. i)
In-sort leb a (x ∷ xs) =
    let (to, from) = In-sort leb a xs in
    let (into, out) = In-insert leb a x (sort leb xs) in
    (
      λ i. elim i [ inl here ↦ into (inl here) | inr later ↦ into (inr (to later)) ],
      λ i. elim (out i) [ inl here ↦ inl here | inr later ↦ inr (from later) ],
    )

pub map-In : {A B : Type 0} (f : A → B) (a : A) (xs : List A) → In a xs → In (f a) (map f xs)
map-In f a [] i = elim i [ ]
map-In f a (x ∷ xs) (inl e) = inl (ap f e)
map-In f a (x ∷ xs) (inr i) = inr (map-In f a xs i)

pub In-map :
    {A B : Type 0} (f : A → B) (b : B) (xs : List A)
    → In b (map f xs)
    → (a : A) × In a xs × (f a ≡ b)
In-map f b [] i = elim i [ ]
In-map f b (x ∷ xs) (inl e) = (x, inl refl, e)
In-map f b (x ∷ xs) (inr i) = let (a, j, e) = In-map f b xs i in (a, inr j, e)

pub In-take : {A : Type 0} (a : A) (n : ℕ) (xs : List A) → In a (take n xs) → In a xs
In-take a zero xs i = elim i [ ]
In-take a (suc n) [] i = elim i [ ]
In-take a (suc n) (x ∷ xs) (inl e) = inl e
In-take a (suc n) (x ∷ xs) (inr i) = inr (In-take a n xs i)

module _ {A : Type 0} (P : A → Type 0) (leb : A → A → Bool) where
  All-insert : (x : A) (xs : List A) → P x → All P xs → All P (insert leb x xs)
  unfolding insert
  All-insert x [] h hs = (h, tt)
  All-insert x (y ∷ ys) h (k, ks) = elim (Bool-cases (leb x y)) [
    | inl before ↦ rw before (h, (k, ks))
    | inr behind ↦ rw behind (k, All-insert x ys h ks)
  ]

  pub All-sort : (xs : List A) → All P xs → All P (sort leb xs)
  unfolding sort
  All-sort [] h = tt
  All-sort (x ∷ xs) (h, hs) = All-insert x (sort leb xs) h (All-sort xs hs)

module _ {A : Type 0} (P : A → Type 0) where
  pub All-In : (xs : List A) → ((x : A) → In x xs → P x) → All P xs
  All-In [] h = tt
  All-In (x ∷ xs) h = (h x (inl refl), All-In xs (λ y i. h y (inr i)))

  pub All-map : (Q : A → Type 0) → ((x : A) → P x → Q x) → (xs : List A) → All P xs → All Q xs
  All-map Q k [] h = tt
  All-map Q k (x ∷ xs) (h, hs) = (k x h, All-map Q k xs hs)
