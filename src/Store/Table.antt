-- ===== src/Store/Table.antt =====
-- Rows looked up and updated by primary key.
use mathlib.Core.Option
use baseline.Prelude.{
  ℕ, ◌≤◌, ◌<◌, ◌≡◌, refl, Option, none, some, List, [], ◌∷◌, ◌++◌, arith, In, if◌then◌else◌, ◌==◌,
  nat_eq, text_eq,
}

module _ {A : Type 0} (key : A → ℕ) where
  unfoldable pub find : ℕ → List A → Option A
  find k [] = none
  find k (x ∷ xs) = if key x == k then some x else find k xs

  unfoldable pub modify : ℕ → (A → A) → List A → List A
  modify k f [] = []
  modify k f (x ∷ xs) = (if key x == k then f x else x) ∷ modify k f xs

  -- Every key is below `n`, and none occurs twice.
  abbrev pub IsTable : ℕ → List A → Type 0
  IsTable n [] = Unit {0}
  IsTable n (x ∷ xs) = (key x < n) × (find (key x) xs ≡ none) × IsTable n xs

  pub In-find : (x : A) (k : ℕ) (xs : List A) → find k xs ≡ some x → In x xs × (key x ≡ k)
  unfolding find
  In-find x k [] h = cc
  In-find x k (y ∷ xs) h = ground (arith, In-find x k xs)

  pub find-In : (n : ℕ) (x : A) (xs : List A) → IsTable n xs → In x xs → find (key x) xs ≡ some x
  unfolding find
  find-In n x [] t i = elim i [ ]
  find-In n x (y ∷ xs) t i = ground (arith, find-In n x xs)

  pub find_above : (n k : ℕ) (xs : List A) → IsTable n xs → n ≤ k → find k xs ≡ none
  unfolding find
  find_above n k [] t h = refl
  find_above n k (y ∷ xs) t h = ground (arith, find_above n k xs)

  pub IsTable-mono : (m n : ℕ) (xs : List A) → m ≤ n → IsTable m xs → IsTable n xs
  IsTable-mono m n [] h t = tt
  IsTable-mono m n (x ∷ xs) h t = ground (arith, IsTable-mono m n xs)

  pub find-append : (k : ℕ) (xs ys : List A) → find k xs ≡ none → find k (xs ++ ys) ≡ find k ys
  unfolding find
  find-append k [] ys h = refl
  find-append k (x ∷ xs) ys h = ground (arith, find-append k xs ys)

  pub find-append_some :
      (k : ℕ) (x : A) (xs ys : List A) → find k xs ≡ some x → find k (xs ++ ys) ≡ some x
  unfolding find
  find-append_some k x [] ys h = cc
  find-append_some k x (y ∷ xs) ys h = ground (arith, find-append_some k x xs ys)

  pub modify-absent : (k : ℕ) (f : A → A) (xs : List A) → find k xs ≡ none → modify k f xs ≡ xs
  unfolding find modify
  modify-absent k f [] h = refl
  modify-absent k f (x ∷ xs) h = ground (arith, modify-absent k f xs)

  module _ (f : A → A) (keeps : (x : A) → key (f x) ≡ key x) where
    pub find-modify :
        (j k : ℕ) (xs : List A)
        → find j (modify k f xs) ≡ (if j == k then Option.map f (find j xs) else find j xs)
    unfolding find modify
    find-modify j k [] = ground arith
    find-modify j k (x ∷ xs) = ground (arith, keeps x, find-modify j k xs)

    pub IsTable-modify : (n k : ℕ) (xs : List A) → IsTable n xs → IsTable n (modify k f xs)
    unfolding modify
    IsTable-modify n k [] t = tt
    IsTable-modify n k (x ∷ xs) t =
        ground (arith, keeps x, find-modify (key x) k xs, IsTable-modify n k xs)
