-- ===== src/Facts/Key/Laws.antt =====
-- internal/facts/subject.go: what the canonical key does not depend on.
use baseline.Prelude.{
  ℕ, ◌≡◌, refl, sym, ap, subst, ◌∙◌, inl, inr, false, List, [], ◌∷◌, ◌++◌, map, arith, sort-perm,
  text_leb, text_leb-IsOrder, Text-discrete, if◌then◌else◌, Text, Bool-cases,
}
use mathlib.Core.List.{reverse, Perm, reverse-append, reverse-reverse, reverse-cons}
use mathlib.Core.List.Perm
use baseline.Facts.Key.{qualifier, is_space, trim_left, trim_space, lower, to_lower, canonical_key}
use baseline.Facts.{Subject}

-- The order in which a loop over the map of qualifiers meets them does not reach the key.
pub canonical_key-perm :
    (s : Subject) (qs : List (Text × Text))
    → Perm s.qualifiers qs
    → canonical_key (record s { qualifiers = qs }) ≡ canonical_key s
unfolding canonical_key
canonical_key-perm s qs p =
    rw (sort-perm text_leb text_leb-IsOrder Text-discrete (Perm.map qualifier p))

-- A text that begins with no space, or is empty.
abbrev pub IsSolid : Text → Type 0
IsSolid [] = Unit {0}
IsSolid (c ∷ s) = is_space c ≡ false

pub trim_left-IsSolid : (s : Text) → IsSolid (trim_left s)
unfolding trim_left
trim_left-IsSolid [] = tt
trim_left-IsSolid (c ∷ s) = elim (Bool-cases (is_space c)) [
  | inl e ↦ rw (e, trim_left) (trim_left-IsSolid s)
  | inr e ↦ rw (e, trim_left) e
]

pub trim_left_solid : (s : Text) → IsSolid s → trim_left s ≡ s
unfolding trim_left
trim_left_solid [] h = refl
trim_left_solid (c ∷ s) h = rw h

-- What `trim_left` cuts off.
spaces : Text → Text
spaces [] = []
spaces (c ∷ s) = if is_space c then c ∷ spaces s else []

spaces-append : (s : Text) → spaces s ++ trim_left s ≡ s
unfolding spaces trim_left
spaces-append [] = refl
spaces-append (c ∷ s) = ground (arith, spaces-append s)

IsSolid-prefix : (a b : Text) → IsSolid (a ++ b) → IsSolid a
IsSolid-prefix [] b h = tt
IsSolid-prefix (c ∷ a) b h = h

pub trim_right-IsSolid : (s : Text) → IsSolid s → IsSolid (reverse (trim_left (reverse s)))
trim_right-IsSolid s h = IsSolid-prefix _ (reverse (spaces (reverse s))) (subst IsSolid split h)
  where
    split : s ≡ reverse (trim_left (reverse s)) ++ reverse (spaces (reverse s))
    split =
        sym (reverse-reverse s)
        ∙ ap reverse (sym (spaces-append (reverse s)))
        ∙ reverse-append (spaces (reverse s)) (trim_left (reverse s))

pub trim_space_idem : (s : Text) → trim_space (trim_space s) ≡ trim_space s
unfolding trim_space
trim_space_idem s = rw (
  trim_left_solid _ (trim_right-IsSolid (trim_left s) (trim_left-IsSolid s)),
  reverse-reverse,
  trim_left_solid _ (trim_left-IsSolid (reverse (trim_left s))),
)

is_space-lower : (c : ℕ) → is_space (lower c) ≡ is_space c
unfolding is_space lower
is_space-lower c = ground arith

trim_left-to_lower : (s : Text) → trim_left (to_lower s) ≡ to_lower (trim_left s)
unfolding trim_left to_lower
trim_left-to_lower [] = refl
trim_left-to_lower (c ∷ s) = ground (arith, is_space-lower c, trim_left-to_lower s)

to_lower_idem : (s : Text) → to_lower (to_lower s) ≡ to_lower s
unfolding to_lower
to_lower_idem [] = refl
to_lower_idem (c ∷ s) = ground (arith, to_lower_idem s)

to_lower-append : (s t : Text) → to_lower (s ++ t) ≡ to_lower s ++ to_lower t
unfolding to_lower
to_lower-append [] t = refl
to_lower-append (c ∷ s) t = ap (◌∷◌ (lower c)) (to_lower-append s t)

to_lower-reverse : (s : Text) → to_lower (reverse s) ≡ reverse (to_lower s)
unfolding to_lower
to_lower-reverse [] = refl
to_lower-reverse (c ∷ s) =
    rw (reverse-cons, reverse-cons, to_lower-append (reverse s) (c ∷ []), to_lower-reverse s)

trim_space-to_lower : (s : Text) → trim_space (to_lower s) ≡ to_lower (trim_space s)
unfolding trim_space
trim_space-to_lower s = rw (
  trim_left-to_lower s,
  ← to_lower-reverse (trim_left s),
  trim_left-to_lower (reverse (trim_left s)),
  ← to_lower-reverse,
)

normal_form : (s : Text) → to_lower (trim_space (to_lower (trim_space s))) ≡ to_lower (trim_space s)
normal_form s = rw (trim_space-to_lower, trim_space_idem, to_lower_idem)

abbrev pub normalize_qualifier : Text × Text → Text × Text
normalize_qualifier (k, v) = (to_lower (trim_space k), trim_space v)

-- The subject with case and outer spaces taken out of every part that the key folds.
abbrev pub normalize : Subject → Subject
normalize s = record {
  type = to_lower (trim_space s.type);
  scope = to_lower (trim_space s.scope);
  qualifiers = map normalize_qualifier s.qualifiers;
}

map-qualifier-normalize :
    (qs : List (Text × Text)) → map qualifier (map normalize_qualifier qs) ≡ map qualifier qs
unfolding qualifier
map-qualifier-normalize [] = refl
map-qualifier-normalize ((k, v) ∷ qs) =
    rw (normal_form k, trim_space_idem v, map-qualifier-normalize qs)

-- A subject and its normal form have one key: letter case and outer spaces of the type, the scope
-- and the names of the qualifiers do not matter, nor do the outer spaces of their values.
pub canonical_key-normalize : (s : Subject) → canonical_key (normalize s) ≡ canonical_key s
unfolding canonical_key
canonical_key-normalize s =
    cc (normal_form s.type, normal_form s.scope, map-qualifier-normalize s.qualifiers)
