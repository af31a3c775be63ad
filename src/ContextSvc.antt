-- ===== src/ContextSvc.antt =====
-- internal/contextsvc/contextsvc.go: the facts that a caller is shown, one for each canonical key, and
-- the personal memories below them. The memory source is that of Memory.
pub mod Precedence
pub mod Rows
pub mod Shown
pub mod Merged
pub mod Placed
use baseline.Facts.{Fact, is_active, status_eq}
use baseline.Json.{Json, string}
use baseline.Memory.{Memory, MemoryError, MemorySource}
use baseline.Namespaces.Repo.{namespace_key}
use baseline.Namespaces.{Namespace, Kind, user, project, team, org}
use baseline.Prelude.{
  ◌⊎◌, inl, inr, ℕ, Bool, true, false, ◌&&◌, ◌||◌, not, Option, none, some, List, [], ◌∷◌, ◌++◌,
  map, length, take, any, contains, sort, text_leb, ltb, leb, if◌then◌else◌, ◌==◌, nat_eq, Text,
  text_eq, text,
}
use baseline.Store.Table.{find}
use baseline.Store.{Db, Tx, exec, on_pool, pure, ◌>>=◌, ◌>>◌}

pub data Source : Type 0 where
  fact memory : Source

pub record Item : Type 0 where
  pub source : Source
  pub statement : Text
  pub namespace_id : Option ℕ
  pub canonical_key : Text
  pub confidence : Option ℕ
  pub valid_to : Option ℕ
  pub tags : List Text
  pub metadata : List (Text × Json)

pub record Query : Type 0 where
  pub actor_id : Text
  pub namespaces : List ℕ
  pub include_memories : Bool
  pub limit : ℕ
  pub tags : List Text

unfoldable pub kind_rank : Kind → ℕ
kind_rank user = 3
kind_rank project = 2
kind_rank team = 1
kind_rank org = 0

unfoldable pub has_tag : List Text → Text → Bool
unfolding contains
has_tag tags want = contains want tags

abbrev pub in_force : Option ℕ → ℕ → Bool
in_force none now = true
in_force (some t) now = ltb now t

-- The tags overlap, or one of the markers that always pass is there.
unfoldable pub passes_tags : List Text → List Text → Bool
unfolding any contains
passes_tags [] tags = true
passes_tags (w ∷ wanted) tags =
    any (λ t. contains t (w ∷ wanted)) tags
    || contains (text "authoritative:true") tags
    || contains (text "tier:always") tags

-- The WHERE clause.
unfoldable pub visible : Query → ℕ → Fact → Bool
unfolding contains passes_tags
visible q now f =
    is_active f
    && contains f.namespace_id q.namespaces
    && in_force f.valid_to now
    && passes_tags q.tags f.tags

pub record Cand : Type 0 where
  pub item : Item
  pub kind : Kind
  pub authoritative : Bool

abbrev pub fact_item : Fact → Item
fact_item f = record {
  source = fact;
  statement = f.statement;
  namespace_id = some f.namespace_id;
  canonical_key = f.canonical_key;
  confidence = f.confidence;
  valid_to = f.valid_to;
  tags = f.tags;
  metadata = f.metadata;
}

unfoldable pub fact_cand : Fact → Namespace → Cand
unfolding has_tag
fact_cand f n = record {
  item = fact_item f;
  kind = n.kind;
  authoritative = has_tag f.tags (text "authoritative:true");
}

abbrev pub joined : Fact → Option Namespace → List Cand → List Cand
joined f none rest = rest
joined f (some n) rest = fact_cand f n ∷ rest

-- The rows of the query, in the order of the table; SQL leaves the order open.
unfoldable pub candidates : Query → ℕ → List Namespace → List Fact → List Cand
unfolding visible find fact_cand
candidates q now ns [] = []
candidates q now ns (f ∷ fs) =
    let rest = candidates q now ns fs in
    if visible q now f then joined f (find namespace_key f.namespace_id ns) rest else rest

unfoldable pub outranks : Bool → Kind → Bool → Kind → Bool
unfolding kind_rank
outranks a_auth a_kind b_auth b_kind =
    if a_auth && not b_auth || not a_auth && b_auth
    then a_auth
    else ltb (kind_rank b_kind) (kind_rank a_kind)

abbrev pub beats : Cand → Cand → Bool
beats c d = outranks c.authoritative c.kind d.authoritative d.kind

abbrev pub cand_key : Cand → Text
cand_key c = c.item.canonical_key

-- `best[key] = c` where nothing is held under the key or `c` outranks it.
unfoldable pub keep : Cand → List Cand → List Cand
unfolding outranks
keep c [] = c ∷ []
keep c (d ∷ ds) =
    let rest = keep c ds in
    if cand_key d == cand_key c then (if beats c d then c ∷ ds else d ∷ ds) else d ∷ rest

unfoldable pub best : List Cand → List Cand → List Cand
unfolding keep
best held [] = held
best held (c ∷ cs) = best (keep c held) cs

abbrev pub cand_item : Cand → Item
cand_item c = c.item

abbrev pub item_leb : Item → Item → Bool
item_leb i j = text_leb i.canonical_key j.canonical_key

unfoldable pub resolve_facts : Query → ℕ → Db → List Item
unfolding candidates best sort text_leb
resolve_facts q now db =
    sort item_leb (map cand_item (best [] (candidates q now db.namespaces db.facts)))

unfoldable pub apply_limit : List Item → ℕ → List Item
apply_limit items limit =
    if ltb 0 limit && ltb limit (length items) then take limit items else items

-- `m.Metadata["canonical_key"].(string)`.
abbrev pub text_of : Json → Option Text
text_of (string s) = some s
text_of _ = none

unfoldable pub declared_key : List (Text × Json) → Option Text
declared_key [] = none
declared_key ((k, v) ∷ rest) =
    let later = declared_key rest in if k == text "canonical_key" then text_of v else later

abbrev pub is_covered : List Text → Option Text → Bool
is_covered keys none = false
is_covered keys (some k) = contains k keys

abbrev pub memory_item : Memory → Item
memory_item m = record {
  source = memory;
  statement = m.content;
  namespace_id = none;
  canonical_key = [];
  confidence = none;
  valid_to = none;
  tags = [];
  metadata = m.metadata;
}

unfoldable pub memory_items : List Text → List Memory → List Item
unfolding declared_key contains
memory_items keys [] = []
memory_items keys (m ∷ ms) =
    let rest = memory_items keys ms in
    if is_covered keys (declared_key m.metadata) then rest else memory_item m ∷ rest

abbrev pub item_key : Item → Text
item_key i = i.canonical_key

abbrev pub merged : List Item → Option (List Memory) → List Item
merged facts none = facts
merged facts (some ms) = facts ++ memory_items (map item_key facts) ms

-- An error of the back end is logged, and the memories left out.
abbrev pub or_skipped : List Memory ⊎ MemoryError → Option (List Memory)
or_skipped (inl ms) = some ms
or_skipped (inr err) = none

abbrev pub listed : Option MemorySource → Query → Option (List Memory)
listed none q = none
listed (some mem) q = if q.include_memories then or_skipped (mem.list q.actor_id q.limit) else none

unfoldable pub maybe_merge_memories : Option MemorySource → Query → List Item → List Item
unfolding memory_items apply_limit
maybe_merge_memories mem q facts = apply_limit (merged facts (listed mem q)) q.limit

-- Without an entitlement no query is sent.
unfoldable pub resolve : Option MemorySource → Query → Tx (List Item)
unfolding exec on_pool resolve_facts maybe_merge_memories
resolve mem q =
    if q.namespaces == []
    then pure (maybe_merge_memories mem q [])
    else on_pool do
      facts ← exec (λ now db. some (resolve_facts q now db, db))
      pure (maybe_merge_memories mem q facts)
