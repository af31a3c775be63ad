-- ===== src/Examples/Reads.antt =====
-- The read paths of internal/contextsvc/contextsvc.go and internal/facts/repo.go at concrete inputs.
use baseline.Store.{Db}
use baseline.Facts.{active, Fact, status_eq, status_text}
use baseline.ContextSvc.Shown.{resolve_facts-visible}
use baseline.ContextSvc.{Query, resolve_facts, fact_item, in_force, passes_tags}
use baseline.Examples.Sample.{old_fact, db}
use baseline.Facts.Listing.{ListFilter, listing, listing-scoped, meets, meets_tags}
use baseline.Namespaces.{Namespace, Kind}
use baseline.Facts.{Status-discrete}
use baseline.Prelude.{
  Text-discrete, ℕ_discrete, inl, ℕ, ◌≡◌, refl, true, false, none, some, List, [], ◌∷◌, In,
  contains, ◌==◌, nat_eq, text_eq, text,
}

abbrev pub team : Namespace
team = record {
  id = 0;
  name = text "team";
  kind = Kind.team;
  parent_id = none;
  policy = record { required_approvals = 1; allowed_proposers = none; auto_promote = none };
  created_at = 0;
}

abbrev pub stored : Db
stored = record db { namespaces = team ∷ [] }

abbrev asked : Query
asked = record {
  actor_id = text "ann";
  namespaces = 0 ∷ [];
  include_memories = false;
  limit = 0;
  tags = [];
}

-- The old fact is in force at time 10.
old_is_listed : In (fact_item old_fact) (resolve_facts asked 10 stored)
unfolding resolve_facts Status-discrete ℕ_discrete
old_is_listed = inl refl

resolve_facts-visible_example :
    (f : Fact) × In f stored.facts
    × (f.status ≡ active)
    × (contains f.namespace_id asked.namespaces ≡ true)
    × (in_force f.valid_to 10 ≡ true)
    × (passes_tags asked.tags f.tags ≡ true)
    × (fact_item old_fact ≡ fact_item f)
resolve_facts-visible_example =
    resolve_facts-visible asked 10 stored (fact_item old_fact) old_is_listed

abbrev readable : ListFilter
readable = record {
  namespaces = some (0 ∷ []);
  status = some (text "active");
  canonical_key = none;
  tag = none;
  tags = [];
  text = none;
  query_vec = none;
  limit = 5;
}

abbrev no_distance : List ℕ → List ℕ → ℕ
no_distance u v = 0

old_is_selected : In old_fact (listing no_distance readable stored.facts)
unfolding listing Status-discrete ℕ_discrete Text-discrete
old_is_selected = inl refl

listing-scoped_example :
    In old_fact stored.facts
    × (meets readable.namespaces (contains old_fact.namespace_id) ≡ true)
    × (meets readable.status (λ st. status_text old_fact.status == st) ≡ true)
    × (meets_tags readable.tags old_fact.tags ≡ true)
listing-scoped_example = listing-scoped no_distance readable stored.facts old_fact old_is_selected
