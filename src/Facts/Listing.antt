-- ===== src/Facts/Listing.antt =====
-- `List` of internal/facts/repo.go: the facts that a filter selects, and their order. The cosine
-- distance of pgvector is a parameter.
use baseline.Facts.Key.{lower, to_lower}
use baseline.Facts.{Fact, status_text, status_eq}
use baseline.Prelude.{
  ℕ, Bool, true, false, ◌&&◌, ◌||◌, Option, none, some, List, [], ◌∷◌, ◌++◌, any, contains, filter,
  sort, take, leb, ltb, if◌then◌else◌, ◌==◌, nat_eq, Text, text_eq, text, In, In-sort, In-take,
  In-filter, ◌≡◌, arith, subst, inl, inr, Bool-cases, is_some,
}
use baseline.Store.{Tx, exec}

-- Each criterion may be absent; `namespaces` is what the caller may read.
pub record ListFilter : Type 0 where
  pub namespaces : Option (List ℕ)
  pub status : Option Text
  pub canonical_key : Option Text
  pub tag : Option Text
  pub tags : List Text
  pub text : Option Text
  pub query_vec : Option (List ℕ)
  pub limit : ℕ

abbrev pub meets {ℓ} : {A : Type ℓ} → Option A → (A → Bool) → Bool
meets none p = true
meets (some a) p = p a

unfoldable pub meets_tags : List Text → List Text → Bool
unfolding any contains
meets_tags [] tags = true
meets_tags (w ∷ wanted) tags =
    any (λ t. contains t (w ∷ wanted)) tags
    || contains (text "authoritative:true") tags
    || contains (text "tier:always") tags

unfoldable pub suffixes : Text → List Text
suffixes [] = [] ∷ []
suffixes (c ∷ s) = (c ∷ s) ∷ suffixes s

abbrev pub starts : (ℕ → Bool) → (Text → Bool) → Text → Bool
starts p rest [] = false
starts p rest (c ∷ s) = p c && rest s

-- ILIKE: `%` is any text, `_` any character, and `\` takes the next one as it stands.
unfoldable pub ilike : Text → Text → Bool
unfolding to_lower any suffixes
ilike [] s = s == []
ilike (p ∷ []) s =
    if p == b'%'
    then true
    else if p == b'_'
    then starts (λ c. true) (λ t. t == []) s
    else starts (λ c. lower c == lower p) (λ t. t == []) s
ilike (p ∷ q ∷ ps) s =
    let rest = ilike (q ∷ ps) in
    let after = ilike ps in
    if p == b'%'
    then any rest (suffixes s)
    else if p == b'_'
    then starts (λ c. true) rest s
    else if p == b'\\'
    then starts (λ c. lower c == lower q) after s
    else starts (λ c. lower c == lower p) rest s

abbrev pub meets_text : ListFilter → Fact → Bool
meets_text flt f =
    if is_some flt.query_vec
    then true
    else meets flt.text (λ t. ilike (b'%' ∷ t ++ b'%' ∷ []) f.statement)

-- The WHERE clause. A text is compared only where there is no vector.
unfoldable pub selects : ListFilter → Fact → Bool
unfolding meets_tags ilike contains status_text
selects flt f =
    meets flt.namespaces (contains f.namespace_id)
    && meets flt.status (λ st. status_text f.status == st)
    && meets flt.canonical_key (λ k. f.canonical_key == k)
    && meets flt.tag (λ t. contains t f.tags)
    && meets_tags flt.tags f.tags
    && meets_text flt f

-- NULLS LAST.
abbrev pub nearer : (List ℕ → ℕ) → Option (List ℕ) → Option (List ℕ) → Bool
nearer distance a none = true
nearer distance none (some v) = false
nearer distance (some u) (some v) = leb (distance u) (distance v)

abbrev pub listed_before : (List ℕ → List ℕ → ℕ) → Option (List ℕ) → Fact → Fact → Bool
listed_before distance none f g = leb g.created_at f.created_at
listed_before distance (some v) f g = nearer (distance v) f.embedding g.embedding

abbrev pub limited : ℕ → List Fact → List Fact
limited n fs = if ltb 0 n then take n fs else fs

unfoldable pub listing : (List ℕ → List ℕ → ℕ) → ListFilter → List Fact → List Fact
unfolding filter selects sort
listing distance flt fs =
    limited flt.limit (sort (listed_before distance flt.query_vec) (filter (selects flt) fs))

unfoldable pub list_facts : (List ℕ → List ℕ → ℕ) → ListFilter → Tx (List Fact)
unfolding exec listing
list_facts distance flt = exec (λ now db. some (listing distance flt db.facts, db))

In-limited : (f : Fact) (n : ℕ) (fs : List Fact) → In f (limited n fs) → In f fs
In-limited f n fs i = elim (Bool-cases (ltb 0 n)) [
  | inl bounded ↦ In-take f n fs (subst (λ b. In f (if b then take n fs else fs)) bounded i)
  | inr unbounded ↦ subst (λ b. In f (if b then take n fs else fs)) unbounded i
]

-- Whatever the order and the limit, a listed fact is in the table, lies in the namespaces of the
-- filter where it names some, and has its status where it names one.
pub listing-scoped :
    (distance : List ℕ → List ℕ → ℕ) (flt : ListFilter) (fs : List Fact) (f : Fact)
    → In f (listing distance flt fs)
    → In f fs
      × (meets flt.namespaces (contains f.namespace_id) ≡ true)
      × (meets flt.status (λ st. status_text f.status == st) ≡ true)
      × (meets_tags flt.tags f.tags ≡ true)
unfolding listing selects
listing-scoped distance flt fs f i =
    let before = listed_before distance flt.query_vec in
    let (_, out) = In-sort before f (filter (selects flt) fs) in
    let (j, passed) =
      In-filter (selects flt) f fs
        (out (In-limited f flt.limit (sort before (filter (selects flt) fs)) i)) in
    (j, ground arith, ground arith, ground arith)
