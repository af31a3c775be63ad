-- ===== src/Facts/Key.antt =====
-- internal/facts/subject.go and EmbedText of internal/facts/repo.go: the canonical key of a subject.
-- `strings.ToLower` and `strings.TrimSpace` act on ASCII text (and on the spaces U+0085 and U+00A0).
pub mod Laws
use baseline.Prelude.{
  ℕ, ◌+◌, Bool, true, false, ◌&&◌, ◌||◌, not, List, [], ◌∷◌, ◌++◌, map, sort, text_leb, leb,
  if◌then◌else◌, ◌==◌, Text, text, nat_eq, text_eq,
}
use mathlib.Core.List.{reverse}
use baseline.Facts.{Subject, Fact, status_eq}

unfoldable pub is_space : ℕ → Bool
is_space c = (leb 9 c && leb c 13) || c == 32 || c == 133 || c == 160

unfoldable pub trim_left : Text → Text
unfolding is_space
trim_left [] = []
trim_left (c ∷ s) = if is_space c then trim_left s else c ∷ s

unfoldable pub trim_space : Text → Text
unfolding trim_left
trim_space s = reverse (trim_left (reverse (trim_left s)))

unfoldable pub lower : ℕ → ℕ
lower c = if leb b'A' c && leb c b'Z' then c + 32 else c

unfoldable pub to_lower : Text → Text
unfolding lower
to_lower s = map lower s

unfoldable pub join : Text → List Text → Text
join sep [] = []
join sep (x ∷ []) = x
join sep (x ∷ y ∷ ys) = x ++ sep ++ join sep (y ∷ ys)

abbrev pub is_empty {ℓ} : {A : Type ℓ} → List A → Bool
is_empty [] = true
is_empty (_ ∷ _) = false

unfoldable pub qualifier : Text × Text → Text
unfolding to_lower trim_space
qualifier (k, v) = to_lower (trim_space k) ++ text "=" ++ trim_space v

unfoldable pub scope_or_global : Text → Text
scope_or_global scope = if is_empty scope then text "global" else scope

unfoldable pub canonical_key : Subject → Text
unfolding to_lower trim_space join qualifier scope_or_global sort text_leb
canonical_key s =
    let typ = to_lower (trim_space s.type) in
    let scope = scope_or_global (to_lower (trim_space s.scope)) in
    join (text ":") (typ ∷ scope ∷ sort text_leb (map qualifier s.qualifiers))

unfoldable pub valid : Subject → Bool
unfolding trim_space
valid s = not (is_empty (trim_space s.type))

plain_qualifier : Text × Text → Text
unfolding trim_space
plain_qualifier (k, v) = trim_space k ++ text "=" ++ trim_space v

unfoldable pub scope_part : Text → Text
scope_part sc = if is_empty sc then [] else text " " ++ sc

unfoldable pub qualifiers_part : List (Text × Text) → Text
unfolding join sort text_leb plain_qualifier
qualifiers_part [] = []
qualifiers_part (q ∷ qs) =
    text " " ++ join (text " ") (sort text_leb (map plain_qualifier (q ∷ qs)))

unfoldable pub embed_text : Fact → Text
unfolding trim_space scope_part qualifiers_part
embed_text f =
    trim_space f.subject.type
    ++ scope_part (trim_space f.subject.scope)
    ++ qualifiers_part f.subject.qualifiers
    ++ 10 ∷ f.statement
