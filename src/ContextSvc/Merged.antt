-- ===== src/ContextSvc/Merged.antt =====
-- internal/contextsvc/contextsvc.go: the merge of memories leaves the facts alone.
use baseline.ContextSvc.Shown.{resolve_facts-visible}
use baseline.ContextSvc.{
  Item, Query, fact, memory, apply_limit, maybe_merge_memories, memory_items, merged, resolve,
  resolve_facts, is_covered, declared_key, listed, item_key,
}
use baseline.Memory.{Memory, MemorySource}
use baseline.Prelude.{
  All-In, ℕ, zero, suc, ◌≤◌, ◌≡◌, refl, ◌∙◌, sym, ap, subst, inl, inr, Bool, true, false, ◌||◌,
  text_eq, Option, none, some, List, [], ◌∷◌, ◌++◌, map, length, take, filter, All, arith,
  Bool-cases, Text, length-append, ◌==◌, nat_eq,
}
use baseline.Store.{Outcome, Session, Db, done, fail, exec, on_pool, settle, and_then, pure}
use mathlib.Core.List.{append-nil}

abbrev pub is_fact : Item → Bool
is_fact i = elim i.source [ fact ↦ true | memory ↦ false ]

-- An outcome without the memories.
abbrev pub facts_of : Outcome (List Item) → Outcome (List Item)
facts_of (done items s) = done (filter is_fact items) s
facts_of (fail e s) = fail e s

memory_items-filter :
    (keys : List Text) (ms : List Memory) → filter is_fact (memory_items keys ms) ≡ []
unfolding memory_items filter
memory_items-filter keys [] = refl
memory_items-filter keys (m ∷ ms) = elim (Bool-cases (is_covered keys (declared_key m.metadata))) [
  | inl covered ↦ rw covered (memory_items-filter keys ms)
  | inr kept ↦ rw kept (memory_items-filter keys ms)
]

filter-take_nothing :
    (n : ℕ) (ms : List Item) → filter is_fact ms ≡ [] → filter is_fact (take n ms) ≡ []
unfolding filter
filter-take_nothing zero ms k = refl
filter-take_nothing (suc n) [] k = refl
filter-take_nothing (suc n) (m ∷ ms) k = ground (arith, filter-take_nothing n ms)

-- What is cut of facts followed by memories has the facts that are cut of the facts alone.
filter-take :
    (n : ℕ) (fs ms : List Item)
    → All (λ i. is_fact i ≡ true) fs
    → filter is_fact ms ≡ []
    → filter is_fact (take n (fs ++ ms)) ≡ take n fs
unfolding filter
filter-take zero fs ms h k = refl
filter-take (suc n) [] ms h k = filter-take_nothing (suc n) ms k
filter-take (suc n) (f ∷ fs) ms (h, hs) k = rw h (ap (λ r. f ∷ r) (filter-take n fs ms hs k))

filter-facts :
    (fs ms : List Item)
    → All (λ i. is_fact i ≡ true) fs
    → filter is_fact ms ≡ []
    → filter is_fact (fs ++ ms) ≡ fs
unfolding filter
filter-facts [] ms h k = k
filter-facts (f ∷ fs) ms (h, hs) k = rw h (ap (λ r. f ∷ r) (filter-facts fs ms hs k))

take-whole : (n : ℕ) (fs : List Item) → length fs ≤ n → take n fs ≡ fs
take-whole zero [] h = refl
take-whole zero (f ∷ fs) h = ground arith
take-whole (suc n) [] h = refl
take-whole (suc n) (f ∷ fs) h = ap (λ r. f ∷ r) (take-whole n fs (omega arith))

apply_limit-facts :
    (fs ms : List Item) (limit : ℕ)
    → All (λ i. is_fact i ≡ true) fs
    → filter is_fact ms ≡ []
    → filter is_fact (apply_limit (fs ++ ms) limit) ≡ apply_limit fs limit
unfolding apply_limit
apply_limit-facts fs ms limit h k = ground (
  arith,
  filter-take limit fs ms h k,
  filter-facts fs ms h k,
  take-whole limit fs,
  length-append fs ms,
)

merge-facts :
    (mem : Option MemorySource) (q : Query) (fs : List Item)
    → All (λ i. is_fact i ≡ true) fs
    → filter is_fact (maybe_merge_memories mem q fs) ≡ maybe_merge_memories none q fs
unfolding maybe_merge_memories filter
merge-facts mem q fs h = merged-facts (listed mem q)
  where
    merged-facts :
        (l : Option (List Memory))
        → filter is_fact (apply_limit (merged fs l) q.limit) ≡ apply_limit fs q.limit
    merged-facts none =
        ap (λ x. filter is_fact (apply_limit x q.limit)) (sym (append-nil fs))
        ∙ apply_limit-facts fs [] q.limit h refl
    merged-facts (some ms) =
        apply_limit-facts fs (memory_items (map item_key fs) ms) q.limit h
          (memory_items-filter _ ms)

resolve_facts-All :
    (q : Query) (now : ℕ) (db : Db) → All (λ i. is_fact i ≡ true) (resolve_facts q now db)
resolve_facts-All q now db =
    All-In (λ i. is_fact i ≡ true) (resolve_facts q now db)
      λ i j.
        let (f, k, e1, e2, e3, e4, is) = resolve_facts-visible q now db i j in
        subst (λ x. is_fact x ≡ true) (sym is) refl

-- The outcome of the query for the facts holds nothing else.
abbrev OnlyFacts : Outcome (List Item) → Type 0
OnlyFacts (done items t) = All (λ i. is_fact i ≡ true) items
OnlyFacts (fail e t) = Unit {0}

exec-OnlyFacts :
    (q : Query) (s : Session) → OnlyFacts (exec (λ now db. some (resolve_facts q now db, db)) s)
unfolding exec
exec-OnlyFacts q s = elim (Bool-cases (s.aborted || s.faults s.sent)) [
  | inl lost ↦ rw lost tt
  | inr sent ↦ rw sent (resolve_facts-All q s.now s.db)
]

outcome-facts :
    (mem : Option MemorySource) (q : Query) (o : Outcome (List Item))
    → OnlyFacts o
    → facts_of (settle (and_then o (λ fs. pure (maybe_merge_memories mem q fs))))
      ≡ settle (and_then o (λ fs. pure (maybe_merge_memories none q fs)))
outcome-facts mem q (done fs t) h =
    ap (λ x. done x (record t { aborted = false })) (merge-facts mem q fs h)
outcome-facts mem q (fail e t) h = refl

-- Whatever the memory source, and whatever it answers: the facts of a context are those, in the same
-- order, that it has with no memory source at all, up to the same limit, and it fails where that fails.
pub resolve-facts :
    (mem : Option MemorySource) (q : Query) (s : Session)
    → facts_of (resolve mem q s) ≡ resolve none q s
unfolding resolve on_pool
resolve-facts mem q s = elim (Bool-cases (q.namespaces == [])) [
  | inl nowhere ↦ rw nowhere (ap (λ x. done x s) (merge-facts mem q [] tt))
  | inr somewhere ↦ rw somewhere (
      outcome-facts mem q
        (exec (λ now db. some (resolve_facts q now db, db)) (record s { aborted = false }))
        (exec-OnlyFacts q (record s { aborted = false })))
]
