-- ===== src/ContextSvc/Placed.antt =====
-- internal/contextsvc/contextsvc.go: the namespaces of what a context shows.
use baseline.ContextSvc.Shown.{resolve_facts-visible}
use baseline.ContextSvc.{
  Item, Query, apply_limit, maybe_merge_memories, memory_items, merged, resolve, resolve_facts,
  is_covered, declared_key, listed, item_key,
}
use baseline.Memory.{Memory, MemorySource}
use baseline.Prelude.{
  ℕ, ◌≡◌, ap, subst, ◌⊎◌, inl, inr, true, false, ◌&&◌, ◌||◌, Option, none, some, List, [], ◌∷◌, map,
  length, take, In, In-take, In-append, contains, arith, ltb, if◌then◌else◌, Bool-cases, Text,
  nat_eq, text_eq, ◌==◌,
}
use baseline.Store.{Session, Db, Outcome, done, fail, settle, and_then, exec, on_pool, pure}

-- An item of no namespace, which is a memory, or of one that the query names.
abbrev pub Placed : Query → Item → Type 0
Placed q i =
    (i.namespace_id ≡ none)
    ⊎ ((ns : ℕ) × (i.namespace_id ≡ some ns) × (contains ns q.namespaces ≡ true))

abbrev AllPlaced : Query → List Item → Type 0
AllPlaced q is = (i : Item) → In i is → Placed q i

memory_items-none :
    (keys : List Text) (ms : List Memory) (i : Item)
    → In i (memory_items keys ms)
    → i.namespace_id ≡ none
unfolding memory_items
memory_items-none keys [] i j = elim j [ ]
memory_items-none keys (m ∷ ms) i j =
    elim (Bool-cases (is_covered keys (declared_key m.metadata))) [
      | inl covered ↦ memory_items-none keys ms i (ground arith)
      | inr kept ↦ ground (arith, memory_items-none keys ms i)
    ]

apply_limit-In : (is : List Item) (limit : ℕ) (i : Item) → In i (apply_limit is limit) → In i is
unfolding apply_limit
apply_limit-In is limit i j = elim (Bool-cases (ltb 0 limit && ltb limit (length is))) [
  | inl cut_off ↦ In-take i limit is (subst (λ b. In i (if b then take limit is else is)) cut_off j)
  | inr whole ↦ subst (λ b. In i (if b then take limit is else is)) whole j
]

merge-Placed :
    (mem : Option MemorySource) (q : Query) (fs : List Item)
    → AllPlaced q fs
    → AllPlaced q (maybe_merge_memories mem q fs)
unfolding maybe_merge_memories
merge-Placed mem q fs h i j =
    merged-Placed (listed mem q) (apply_limit-In (merged fs (listed mem q)) q.limit i j)
  where
    merged-Placed : (l : Option (List Memory)) → In i (merged fs l) → Placed q i
    merged-Placed none k = h i k
    merged-Placed (some ms) k = elim (In-append i fs (memory_items (map item_key fs) ms) k) [
      | inl of_facts ↦ h i of_facts
      | inr of_memories ↦ inl (memory_items-none (map item_key fs) ms i of_memories)
    ]

resolve_facts-Placed : (q : Query) (now : ℕ) (db : Db) → AllPlaced q (resolve_facts q now db)
resolve_facts-Placed q now db i j =
    let (f, k, e1, within, e3, e4, is) = resolve_facts-visible q now db i j in
    inr (f.namespace_id, ap (λ x. x.namespace_id) is, within)

-- Of an outcome: that what it holds is placed.
abbrev OutcomePlaced : Query → Outcome (List Item) → Type 0
OutcomePlaced q (done items t) = AllPlaced q items
OutcomePlaced q (fail e t) = Unit {0}

exec-Placed :
    (q : Query) (s : Session)
    → OutcomePlaced q (exec (λ now db. some (resolve_facts q now db, db)) s)
unfolding exec
exec-Placed q s = elim (Bool-cases (s.aborted || s.faults s.sent)) [
  | inl lost ↦ rw lost tt
  | inr sent ↦ rw sent (resolve_facts-Placed q s.now s.db)
]

outcome-Placed :
    (mem : Option MemorySource) (q : Query) (o : Outcome (List Item))
    → OutcomePlaced q o
    → OutcomePlaced q (settle (and_then o (λ fs. pure (maybe_merge_memories mem q fs))))
outcome-Placed mem q (done fs t) h = merge-Placed mem q fs h
outcome-Placed mem q (fail e t) h = tt

resolve-outcome :
    (mem : Option MemorySource) (q : Query) (s : Session) → OutcomePlaced q (resolve mem q s)
unfolding resolve on_pool
resolve-outcome mem q s = elim (Bool-cases (q.namespaces == [])) [
  | inl nowhere ↦ rw nowhere (merge-Placed mem q [] (λ i j. elim j [ ]))
  | inr somewhere ↦ rw somewhere (
      outcome-Placed mem q
        (exec (λ now db. some (resolve_facts q now db, db)) (record s { aborted = false }))
        (exec-Placed q (record s { aborted = false })))
]

-- Whatever the memory source: every item that is shown is a memory, or of a namespace of the query.
pub resolve-Placed :
    (mem : Option MemorySource) (q : Query) (s t : Session) (items : List Item) (i : Item)
    → resolve mem q s ≡ done items t
    → In i items
    → Placed q i
resolve-Placed mem q s t items i h j = subst (OutcomePlaced q) h (resolve-outcome mem q s) i j
