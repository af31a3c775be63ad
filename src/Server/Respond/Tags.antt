-- ===== src/Server/Respond/Tags.antt =====
-- parseCSV of internal/server/respond.go: the tags of a query.
use baseline.Facts.Key.Laws.{IsSolid, trim_left_solid, trim_left-IsSolid, trim_right-IsSolid}
use baseline.Facts.Key.{trim_space, trim_left, is_space, join}
use baseline.Prelude.{
  ℕ, ◌≡◌, ◌≢◌, refl, ◌∙◌, ap, sym, subst, false, not, List, [], ◌∷◌, ◌++◌, map, filter, ◌==◌,
  nat_eq, Text, text_eq, All, arith, text, Text-discrete,
}
use baseline.Server.Respond.Splits.{split-join, Without}
use baseline.Server.Respond.{parse_csv}
use mathlib.Core.List.{reverse, reverse-reverse, reverse-cons}

-- A part that is not blank, has no space around it and no comma.
abbrev pub IsTag : Text → Type 0
IsTag p = (trim_space p ≡ p) × ((p == []) ≡ false) × Without b',' p

trim_left-last : (s : Text) (c : ℕ) → is_space c ≡ false → trim_left (s ++ c ∷ []) ≢ []
unfolding trim_left
trim_left-last [] c h = ground arith
trim_left-last (d ∷ s) c h = ground (arith, trim_left-last s c h)

trim_space-solid : (c : ℕ) (s : Text) → is_space c ≡ false → trim_space (c ∷ s) ≢ []
unfolding trim_space
trim_space-solid c s h e = trim_left-last (reverse s) c h (
    ap trim_left (sym (reverse-cons c s))
    ∙ ap (λ t. trim_left (reverse t)) (sym (trim_left_solid (c ∷ s) h))
    ∙ sym (reverse-reverse _)
    ∙ ap reverse e)

tag-IsSolid : (p : Text) → trim_space p ≡ p → IsSolid p
unfolding trim_space
tag-IsSolid p h = subst IsSolid h (trim_right-IsSolid (trim_left p) (trim_left-IsSolid p))

join-head :
    (c : ℕ) (p : Text) (ps : List Text) → (s : Text) × (join (text ",") ((c ∷ p) ∷ ps) ≡ c ∷ s)
unfolding join
join-head c p [] = (p, refl)
join-head c p (q ∷ ps) = (_, refl)

==-nonempty : (s : Text) → s ≢ [] → (s == []) ≡ false
==-nonempty [] h = absurd (h refl)
==-nonempty (c ∷ s) h = ground arith

blank-joined :
    (p : Text) (ps : List Text) → IsTag p → (trim_space (join (text ",") (p ∷ ps)) == []) ≡ false
blank-joined [] ps (t, h, w) = ground arith
blank-joined (c ∷ p) ps (t, h, w) =
    let (s, e) = join-head c p ps in
    ==-nonempty _
      (subst (λ x. trim_space x ≢ []) (sym e) (trim_space-solid c s (tag-IsSolid (c ∷ p) t)))

trimmed : (ps : List Text) → All IsTag ps → filter (λ p. not (p == [])) (map trim_space ps) ≡ ps
unfolding filter
trimmed [] h = refl
trimmed (p ∷ ps) ((t, n, w), hs) = rw (t, n, trimmed ps hs) refl

tags-Without : (ps : List Text) → All IsTag ps → All (Without b',') ps
tags-Without [] h = tt
tags-Without (p ∷ ps) ((t, n, w), hs) = (w, tags-Without ps hs)

-- Tags that are not blank, have no space around them and hold no comma are read back, in their order,
-- from the text in which commas join them.
pub parse_csv-join : (ps : List Text) → All IsTag ps → parse_csv (join (text ",") ps) ≡ ps
unfolding parse_csv join trim_space trim_left Text-discrete
parse_csv-join [] h = refl
parse_csv-join (p ∷ ps) (h, hs) =
    let (t, n, w) = h in
    rw (blank-joined p ps h, split-join b',' p ps w (tags-Without ps hs)) (trimmed (p ∷ ps) (h, hs))
