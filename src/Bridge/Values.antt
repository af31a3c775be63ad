-- ===== src/Bridge/Values.antt =====
-- internal/mcpbridge/mcpbridge.go and the query of the tool `get_context`: the value under each key.
use baseline.Bridge.Tools.{GetContextIn, context_values, set_given, set_limit}
use baseline.Prelude.{
  ◌≤◌, ◌≡◌, refl, ◌∙◌, ap, inl, inr, Bool, true, false, [], ◌∷◌, ◌==◌, text_eq, nat_eq, Text, text,
  Bool-cases, arith, if◌then◌else◌, ltb, itoa, ℤ, pos_part, ℕ_discrete, Text-discrete,
}
use baseline.Server.Facts.{limit_of}
use baseline.Server.Respond.Numbers.{atoi-itoa}
use baseline.Server.Respond.{get_value, max_int, atoi}
use baseline.Url.Lookups.{get_value-set}
use baseline.Url.{Values, set}

set-skipped :
    (key k v : Text) (q : Values) → (k == key) ≡ false → get_value key (set k v q) ≡ get_value key q
set-skipped key k v q h = get_value-set key k v q ∙ rw h refl

given-skipped :
    (key k v : Text) (q : Values)
    → (k == key) ≡ false
    → get_value key (set_given k v q) ≡ get_value key q
unfolding set_given
given-skipped key k v q h = ground (arith, set-skipped key k v q)

given-found :
    (key v : Text) (q : Values) → get_value key q ≡ [] → get_value key (set_given key v q) ≡ v
unfolding set_given
given-found key v q h = ground (arith, get_value-set key key v q)

limit-skipped :
    (key : Text) (limit : ℤ) (q : Values)
    → (text "limit" == key) ≡ false
    → get_value key (set_limit limit q) ≡ get_value key q
limit-skipped key limit q h =
    ground (arith, set-skipped key (text "limit") (itoa (pos_part limit)) q)

limit_of-atoi : (v : Text) → limit_of v ≡ pos_part (atoi v).0
unfolding atoi
limit_of-atoi [] = ground arith
limit_of-atoi (c ∷ v) = ground arith

limit-found :
    (limit : ℤ) (q : Values)
    → get_value (text "limit") q ≡ []
    → pos_part limit ≤ max_int
    → limit_of (get_value (text "limit") (set_limit limit q)) ≡ pos_part limit
unfolding ℕ_discrete Text-discrete
limit-found limit q h b = elim (Bool-cases (ltb 0 (pos_part limit))) [
  | inl given ↦ rw given (
      ap limit_of (get_value-set (text "limit") (text "limit") (itoa (pos_part limit)) q)
      ∙ limit_of-atoi (itoa (pos_part limit))
      ∙ ap (λ x. pos_part x.0) (atoi-itoa (pos_part limit) b))
  | inr none_given ↦ rw (none_given, h) (ground arith)
]

-- The values before the tags.
abbrev pub set_memories : GetContextIn → Values → Values
set_memories i q = if i.include_memories then set (text "include_memories") (text "true") q else q

memories-skipped :
    (key : Text) (i : GetContextIn) (q : Values)
    → (text "include_memories" == key) ≡ false
    → get_value key (set_memories i q) ≡ get_value key q
memories-skipped key i q h =
    ground (arith, set-skipped key (text "include_memories") (text "true") q)

module _ (i : GetContextIn) where
  abbrev first : Values
  first = set_given (text "namespaces") i.namespaces (set_given (text "actor_id") i.actor_id [])

  abbrev tagged : Values
  tagged = set_given (text "tags") i.tags (set_memories i first)

  pub actor_id-read : get_value (text "actor_id") (context_values i) ≡ i.actor_id
  unfolding context_values get_value ℕ_discrete Text-discrete
  actor_id-read =
      limit-skipped (text "actor_id") i.limit tagged refl
      ∙ given-skipped (text "actor_id") (text "tags") i.tags (set_memories i first) refl
      ∙ memories-skipped (text "actor_id") i first refl
      ∙ given-skipped (text "actor_id") (text "namespaces") i.namespaces _ refl
      ∙ given-found (text "actor_id") i.actor_id [] refl

  pub namespaces-read : get_value (text "namespaces") (context_values i) ≡ i.namespaces
  unfolding context_values get_value set_given set ℕ_discrete Text-discrete
  namespaces-read =
      limit-skipped (text "namespaces") i.limit tagged refl
      ∙ given-skipped (text "namespaces") (text "tags") i.tags (set_memories i first) refl
      ∙ memories-skipped (text "namespaces") i first refl
      ∙ given-found (text "namespaces") i.namespaces _
          (given-skipped (text "namespaces") (text "actor_id") i.actor_id [] refl)

  -- The keys before those that follow.
  unset :
      (key : Text)
      → (text "namespaces" == key) ≡ false
      → (text "actor_id" == key) ≡ false
      → get_value key first ≡ []
  unfolding get_value
  unset key h k =
      given-skipped key (text "namespaces") i.namespaces _ h
      ∙ given-skipped key (text "actor_id") i.actor_id [] k

  pub memories-read :
      (get_value (text "include_memories") (context_values i) == text "true") ≡ i.include_memories
  unfolding context_values get_value ℕ_discrete Text-discrete
  memories-read =
      ap (λ v. v == text "true")
        (limit-skipped (text "include_memories") i.limit tagged refl
          ∙ given-skipped (text "include_memories") (text "tags") i.tags (set_memories i first)
              refl)
      ∙ memories-found i.include_memories refl
    where
      memories-found :
          (b : Bool)
          → i.include_memories ≡ b
          → (get_value (text "include_memories") (set_memories i first) == text "true")
            ≡ i.include_memories
      memories-found true h = rw h (
          ap (λ v. v == text "true")
            (get_value-set (text "include_memories") (text "include_memories") (text "true") first))
      memories-found false h =
          rw h (ap (λ v. v == text "true") (unset (text "include_memories") refl refl))

  pub tags-read : get_value (text "tags") (context_values i) ≡ i.tags
  unfolding context_values get_value ℕ_discrete Text-discrete
  tags-read =
      limit-skipped (text "tags") i.limit tagged refl
      ∙ given-found (text "tags") i.tags (set_memories i first)
          (memories-skipped (text "tags") i first refl ∙ unset (text "tags") refl refl)

  pub limit-read :
      pos_part i.limit ≤ max_int
      → limit_of (get_value (text "limit") (context_values i)) ≡ pos_part i.limit
  unfolding context_values get_value ℕ_discrete Text-discrete
  limit-read h =
      limit-found i.limit tagged
        (given-skipped (text "limit") (text "tags") i.tags (set_memories i first) refl
          ∙ memories-skipped (text "limit") i first refl
          ∙ unset (text "limit") refl refl)
        h
