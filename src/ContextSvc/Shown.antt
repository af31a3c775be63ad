-- ===== src/ContextSvc/Shown.antt =====
-- internal/contextsvc/contextsvc.go: which facts a resolved context shows.
use baseline.ContextSvc.Rows.{In-candidates}
use baseline.ContextSvc.Precedence.{In-best}
use baseline.Store.{Db}
use baseline.Facts.{active, Fact, status_eq}
use baseline.ContextSvc.{
  in_force, passes_tags, visible, fact_item, candidates, best, cand_item, item_leb, resolve_facts,
  Item, Query,
}
use baseline.Prelude.{
  ap, sym, inl, inr, ℕ, ◌≡◌, ◌∙◌, true, [], map, arith, In, contains, nat_eq, text_eq, In-sort,
  In-map,
}

-- Every item of the resolved facts is a fact of the table that is active, in a namespace of the
-- query, not past the end of its validity, and let through by the tags.
pub resolve_facts-visible :
    (q : Query) (now : ℕ) (db : Db) (i : Item)
    → In i (resolve_facts q now db)
    → (f : Fact) × In f db.facts
      × (f.status ≡ active)
      × (contains f.namespace_id q.namespaces ≡ true)
      × (in_force f.valid_to now ≡ true)
      × (passes_tags q.tags f.tags ≡ true)
      × (i ≡ fact_item f)
unfolding resolve_facts visible
resolve_facts-visible q now db i shown =
    let cs = candidates q now db.namespaces db.facts in
    let (_, out) = In-sort item_leb i (map cand_item (best [] cs)) in
    let (w, j, e) = In-map cand_item i (best [] cs) (out shown) in
    let (f, k, c) = In-candidates q now db.namespaces w db.facts (elim (In-best w [] cs j) [
      | inl none_held ↦ elim none_held [ ]
      | inr found_row ↦ found_row
    ]) in
    let passed : visible q now f ≡ true = c.shown in
    (f, k, ground arith, ground arith, ground arith, ground arith, sym e ∙ ap cand_item c.is)
