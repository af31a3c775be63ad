-- ===== src/Url/Lookups.antt =====
-- net/url: the first value under a key, as `Get` finds it, in values that were set or put in order.
use baseline.Prelude.{
  ◌≡◌, refl, ◌∙◌, ap, inl, inr, true, [], ◌∷◌, ◌==◌, text_eq, Text, Bool-cases, arith, sort, insert,
  text_leb, text_leb-IsOrder, if◌then◌else◌,
}
use baseline.Server.Respond.{get_value}
use baseline.Url.{Values, set, key_leb}

text_leb_refl : (k : Text) → text_leb k k ≡ true
text_leb_refl k = ground (arith, text_leb-IsOrder.total k k)

get_value-insert :
    (key : Text) (p : Text × Text) (q : Values)
    → get_value key (insert key_leb p q) ≡ get_value key (p ∷ q)
unfolding get_value insert
get_value-insert key (k, v) [] = refl
get_value-insert key (k, v) ((l, w) ∷ q) = elim (Bool-cases (text_leb k l)) [
  | inl before ↦ rw before refl
  | inr behind ↦ rw behind (ground (arith, get_value-insert key (k, v) q, text_leb_refl k))
]

-- Putting the values in order leaves the first value of each key the first.
pub get_value-sort : (key : Text) (q : Values) → get_value key (sort key_leb q) ≡ get_value key q
unfolding get_value sort
get_value-sort key [] = refl
get_value-sort key ((k, v) ∷ q) =
    get_value-insert key (k, v) (sort key_leb q)
    ∙ ap (λ x. if k == key then v else x) (get_value-sort key q)

pub get_value-set :
    (key k v : Text) (q : Values)
    → get_value key (set k v q) ≡ (if k == key then v else get_value key q)
unfolding get_value set
get_value-set key k v [] = refl
get_value-set key k v ((l, w) ∷ q) = ground (arith, get_value-set key k v q)
