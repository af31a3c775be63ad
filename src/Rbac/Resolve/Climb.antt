-- ===== src/Rbac/Resolve/Climb.antt =====
-- internal/rbac/repo.go: the rounds of the recursive query of `Resolve` come to an end.
use baseline.Namespaces.{Namespace}
use baseline.Prelude.{
  ℕ, zero, suc, ◌≤◌, ◌<◌, ◌≡◌, refl, sym, subst, ◌⊎◌, inl, inr, Bool, true, false, not, some, List,
  [], ◌∷◌, ◌++◌, any, filter, length, arith, In, In-filter, In-any, ◌==◌, nat_eq, ==_self,
  length-filter-le, Text, text_eq,
}
use baseline.Rbac.Resolve.{points_to, has_id, is_member, granted, is_fresh, fresh, climb, ancestors}
use baseline.Store.{Membership}

-- The rows that the rounds have not reached.
abbrev unseen : List Namespace → List Namespace → List Namespace
unseen ns seen = filter (λ n. not (has_id n.id seen)) ns

pub List-cases : {A : Type 0} (xs : List A) → (xs ≡ []) ⊎ ((x : A) × (ys : List A) × (xs ≡ x ∷ ys))
List-cases [] = inl refl
List-cases (x ∷ xs) = inr (x, xs, refl)

pub any-append_left :
    {A : Type 0} (p : A → Bool) (xs ys : List A) → any p xs ≡ true → any p (xs ++ ys) ≡ true
unfolding any
any-append_left p [] ys h = cc
any-append_left p (x ∷ xs) ys h = ground (arith, any-append_left p xs ys)

pub any-append_right :
    {A : Type 0} (p : A → Bool) (xs ys : List A) → any p ys ≡ true → any p (xs ++ ys) ≡ true
unfolding any
any-append_right p [] ys h = h
any-append_right p (x ∷ xs) ys h = ground (arith, any-append_right p xs ys)

module _ {A : Type 0} (p q : A → Bool) (sub : (x : A) → q x ≡ true → p x ≡ true) where
  -- A stronger test keeps fewer, and strictly fewer where it drops one that the other keeps.
  filter-le : (xs : List A) → length (filter q xs) ≤ length (filter p xs)
  unfolding filter
  filter-le [] = omega arith
  filter-le (x ∷ xs) = ground (arith, sub x, filter-le xs)

  filter-lt :
      (a : A) (xs : List A)
      → In a xs
      → p a ≡ true
      → q a ≡ false
      → length (filter q xs) < length (filter p xs)
  unfolding filter
  filter-lt a [] i h k = elim i [ ]
  filter-lt a (x ∷ xs) (inl e) h k = ground (arith, e, filter-le xs)
  filter-lt a (x ∷ xs) (inr i) h k = ground (arith, sub x, filter-lt a xs i h k)

length-filter-lt :
    {A : Type 0} (q : A → Bool) (a : A) (xs : List A)
    → In a xs
    → q a ≡ false
    → length (filter q xs) < length xs
unfolding filter
length-filter-lt q a [] i k = elim i [ ]
length-filter-lt q a (x ∷ xs) (inl e) k = ground (arith, e, length-filter-le {0} q xs)
length-filter-lt q a (x ∷ xs) (inr i) k = ground (arith, length-filter-lt q a xs i k)

pub has_id_self : (n : Namespace) (ns : List Namespace) → In n ns → has_id n.id ns ≡ true
has_id_self n ns i = In-any (λ m. m.id == n.id) n ns i (==_self n.id)

module _ (ns seen working : List Namespace) (m : Namespace) (i : In m (fresh ns seen working)) where
  pub fresh-In :
      In m ns × (any (λ a. points_to a.parent_id m.id) working ≡ true) × (has_id m.id seen ≡ false)
  unfolding fresh
  fresh-In =
      let (j, h) = In-filter (is_fresh seen working) m ns i in (j, ground arith, ground arith)

  unseen_shrinks : length (unseen ns (seen ++ fresh ns seen working)) < length (unseen ns seen)
  unseen_shrinks =
      let next = fresh ns seen working in
      let (j, _, new) = fresh-In in
      filter-lt (λ n. not (has_id n.id seen)) (λ n. not (has_id n.id (seen ++ next)))
        (λ n h. ground (arith, any-append_left (λ (k : Namespace). k.id == n.id) seen next)) m ns j
        (ground arith)
        (ground (
          arith,
          any-append_right (λ (k : Namespace). k.id == m.id) seen next (has_id_self m next i),
        ))

climb_nothing : (fuel : ℕ) (ns seen : List Namespace) → climb fuel ns seen [] ≡ some seen
unfolding climb
climb_nothing zero ns seen = refl
climb_nothing (suc fuel) ns seen = refl

climb_total :
    (fuel : ℕ) (ns seen working : List Namespace)
    → length (unseen ns seen) < fuel
    → (r : List Namespace) × (climb fuel ns seen working ≡ some r)
unfolding climb
climb_total zero ns seen working h = absurd (omega arith)
climb_total (suc fuel) ns seen [] h = (seen, refl)
climb_total (suc fuel) ns seen (w ∷ working) h =
    let next = fresh ns seen (w ∷ working) in
    elim (List-cases next) [
      | inl last ↦ (
        seen ++ next,
        subst (λ x. climb fuel ns (seen ++ next) x ≡ some (seen ++ next)) (sym last)
            (climb_nothing fuel ns (seen ++ next)),
      )
      | inr (m, rest, e) ↦ climb_total fuel ns (seen ++ next) next (
          let lt = unseen_shrinks ns seen (w ∷ working) m (subst (In m) (sym e) (inl refl)) in
          omega arith)
    ]

-- As many rounds as there are namespaces are enough, whatever the parents are.
pub ancestors_total :
    (principal : Text) (ms : List Membership) (ns : List Namespace)
    → (r : List Namespace) × (ancestors principal ms ns ≡ some r)
unfolding ancestors granted
ancestors_total principal ms ns =
    let seed = granted principal ms ns in
    elim (List-cases seed) [
      | inl nothing ↦ (
        seed,
        subst (λ x. climb (length ns) ns seed x ≡ some seed) (sym nothing)
            (climb_nothing (length ns) ns seed),
      )
      | inr (m, rest, e) ↦
          let i : In m seed = subst (In m) (sym e) (inl refl) in
          let (j, _) = In-filter (λ n. any (is_member principal n.id) ms) m ns i in
          climb_total (length ns) ns seed seed (
            length-filter-lt (λ n. not (has_id n.id seed)) m ns j
              (ground (arith, has_id_self m seed i)))
    ]

-- The namespaces that the parent chain makes readable: those with a grant to the principal, and the
-- parent of each that is readable.
pub data Readable (principal : Text) (ms : List Membership) (ns : List Namespace)
    : Namespace → Type 0 where
  held :
      {n : Namespace}
      → In n ns
      → any (is_member principal n.id) ms ≡ true
      → Readable principal ms ns n
  parent :
      {n m : Namespace}
      → Readable principal ms ns n
      → In m ns
      → points_to n.parent_id m.id ≡ true
      → Readable principal ms ns m
