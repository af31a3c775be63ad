-- ===== src/Server/Respond/Splits.antt =====
-- `strings.Split` and parseCSV of internal/server/respond.go, on what `strings.Join` writes.
use baseline.Facts.Key.{join}
use baseline.Prelude.{
  ℕ, ◌≡◌, refl, ◌∙◌, ap, false, List, [], ◌∷◌, ◌++◌, ◌==◌, nat_eq, Text, text_eq, All, arith,
}
use baseline.Server.Respond.{split}
use mathlib.Core.List.{append_assoc}

-- The separator does not occur.
abbrev pub Without : ℕ → Text → Type 0
Without sep = All (λ c. (c == sep) ≡ false)

pub split-part : (sep : ℕ) (x : Text) → Without sep x → split sep x ≡ x ∷ []
unfolding split
split-part sep [] h = refl
split-part sep (c ∷ x) (h, hs) = rw (h, split-part sep x hs) refl

pub split-behind :
    (sep : ℕ) (x rest : Text) → Without sep x → split sep (x ++ sep ∷ rest) ≡ x ∷ split sep rest
unfolding split
split-behind sep [] rest h = ground arith
split-behind sep (c ∷ x) rest (h, hs) = rw (h, split-behind sep x rest hs) refl

join-cons :
    (sep : ℕ) (x y : Text) (ys : List Text)
    → join (sep ∷ []) (x ∷ y ∷ ys) ≡ x ++ sep ∷ join (sep ∷ []) (y ∷ ys)
unfolding join
join-cons sep x y ys = append_assoc x (sep ∷ []) (join (sep ∷ []) (y ∷ ys))

-- What is joined by a character that no part holds is split into the parts again.
pub split-join :
    (sep : ℕ) (x : Text) (xs : List Text)
    → Without sep x
    → All (Without sep) xs
    → split sep (join (sep ∷ []) (x ∷ xs)) ≡ x ∷ xs
unfolding join
split-join sep x [] h hs = split-part sep x h
split-join sep x (y ∷ ys) h (k, ks) =
    ap (split sep) (join-cons sep x y ys)
    ∙ split-behind sep x (join (sep ∷ []) (y ∷ ys)) h
    ∙ ap (λ r. x ∷ r) (split-join sep y ys k ks)
