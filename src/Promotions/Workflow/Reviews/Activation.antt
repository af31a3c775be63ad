-- ===== src/Promotions/Workflow/Reviews/Activation.antt =====
-- `activate` of internal/promotions/service.go: what the tables hold once it has succeeded.
use baseline.Promotions.Workflow.{embed_after_activation, Service}
use baseline.Facts.{Fact}
use baseline.Audit.Writer.{write, write-done, logged}
use baseline.Facts.Repo.{fact_key}
use baseline.Store.Transactions.{and_then-done}
use baseline.Store.Table.{find}
use baseline.Store.{Session, done, ◌>>◌, pure}
use baseline.Facts.Repo
use baseline.Facts.Repo.Writes.{Moves, on_key, relinked, supersede-done}
use baseline.Facts.Repo.Writes
use mathlib.Core.List.{append-nil, append_assoc}
use baseline.Promotions.Workflow.Reviews
use baseline.Promotions.Workflow.Embedding.{
  without_vector, SameButVectors, embed_after_activation-SameButVectors,
}
use baseline.Prelude.{
  ap, ℕ, ◌≡◌, Option, none, some, arith, Text, refl, ◌∙◌, List, [], ◌∷◌, ◌++◌, subst,
}
use baseline.Audit.{Row, row}
use baseline.Promotions.{
  Review, distinct_approvers, distinct_approvers_from, collect, add_key, PromotionRequest,
}
use mathlib.Core.Option

-- The loop of `activate` and that of `distinctApprovers` do the same.
collect_approver-collect :
    (proposer : Text) (out : List Text) (r : Review)
    → Reviews.collect_approver proposer out r ≡ collect proposer out r
unfolding Reviews.collect_approver collect add_key
collect_approver-collect proposer out r = ground arith

collect_approvers-distinct_approvers_from :
    (proposer : Text) (out : List Text) (rs : List Review)
    → Reviews.collect_approvers proposer out rs ≡ distinct_approvers_from proposer out rs
unfolding Reviews.collect_approvers distinct_approvers_from
collect_approvers-distinct_approvers_from proposer out [] = refl
collect_approvers-distinct_approvers_from proposer out (r ∷ rs) =
    collect_approvers-distinct_approvers_from proposer (Reviews.collect_approver proposer out r) rs
    ∙ ap (λ x. distinct_approvers_from proposer x rs) (collect_approver-collect proposer out r)

collect_approvers-distinct_approvers :
    (p : PromotionRequest)
    → Reviews.collect_approvers p.proposer [] p.reviews ≡ distinct_approvers p
unfolding distinct_approvers
collect_approvers-distinct_approvers p =
    collect_approvers-distinct_approvers_from p.proposer [] p.reviews

-- What the supersession does to the fact under ID `j`.
abbrev pub superseding : Option ℕ → ℕ → ℕ → ℕ → Option Fact → Option Fact
superseding none id now j o = o
superseding (some old_id) id now j o = relinked old_id id now j o

abbrev pub superseded_rows : Text → Option ℕ → ℕ → ℕ → List Row
superseded_rows who none id now = []
superseded_rows who (some old_id) id now = row now (Reviews.superseded_event who old_id id) ∷ []

-- A step that changes facts as `change` says, up to vectors, and appends `rows` to the audit log.
pub record Changes (s t : Session) (change : ℕ → Option Fact → Option Fact) (rows : List Row)
    : Type 0 where
  pub same_time : t.now ≡ s.now
  pub frame : t.db ≡ record s.db { facts = t.db.facts; audit_events = s.db.audit_events ++ rows }
  pub looked :
      (j : ℕ)
      → Option.map without_vector (find fact_key j t.db.facts)
        ≡ Option.map without_vector (change j (find fact_key j s.db.facts))

supersede_conflict-done :
    (who : Text) (conflict : Option ℕ) (id : ℕ) (s t : Session)
    → Reviews.supersede_conflict who conflict id s ≡ done tt t
    → Changes s t (superseding conflict id s.now) (superseded_rows who conflict id s.now)
supersede_conflict-done who none id s t h = record {
  same_time = ground arith;
  frame = ground (arith, append-nil s.db.audit_events);
  looked =
      λ j. ap (λ (x : Session). Option.map without_vector (find fact_key j x.db.facts)) (same h);
}
  where
    same : pure tt s ≡ done tt t → t ≡ s
    same q = ground arith
supersede_conflict-done who (some old_id) id s t h =
    let (_, u, e, e') =
      and_then-done (Repo.supersede old_id id s)
        (λ _. write (Reviews.superseded_event who old_id id)) tt t h in
    let m = supersede-done old_id id s u e in
    let q = write-done (Reviews.superseded_event who old_id id) u t e' in
    record {
      same_time = ground (arith, m.same_time);
      frame = ground (arith, m.frame, m.same_time);
      looked = λ j.
          ap (λ (x : Session). Option.map without_vector (find fact_key j x.db.facts)) q
          ∙ ap (Option.map without_vector) (m.looked j);
    }

-- What activation does to the fact under ID `j`.
abbrev pub activating : PromotionRequest → ℕ → ℕ → Option Fact → Option Fact
activating p now j o =
    on_key p.fact_id (Repo.activated (distinct_approvers p) now) j
      (superseding p.conflict_with p.fact_id now j o)

abbrev pub activation_rows : Text → PromotionRequest → ℕ → List Row
activation_rows who p now =
    superseded_rows who p.conflict_with p.fact_id now
    ++ row now (Reviews.activated_event who p.fact_id) ∷ []

-- `set` does not look at the vector.
map-on_key :
    (id : ℕ) (set : Fact → Fact) (j : ℕ) (o o' : Option Fact)
    → ((f : Fact) → without_vector (set f) ≡ without_vector (set (without_vector f)))
    → Option.map without_vector o ≡ Option.map without_vector o'
    → Option.map without_vector (on_key id set j o) ≡ Option.map without_vector (on_key id set j o')
map-on_key id set j none none k h = ground arith
map-on_key id set j none (some g) k h = absurd (ground arith)
map-on_key id set j (some f) none k h = absurd (ground arith)
map-on_key id set j (some f) (some g) k h = ground (arith, k f, k g)

Moves-with_approvers :
    (id : ℕ) (u v : Session) (by by' : List Text) (now now' : ℕ)
    → by ≡ by'
    → now ≡ now'
    → Moves u v (on_key id (Repo.activated by now))
    → Moves u v (on_key id (Repo.activated by' now'))
Moves-with_approvers id u v by by' now now' e e' m =
    subst (λ n. Moves u v (on_key id (Repo.activated by' n))) e'
      (subst (λ b. Moves u v (on_key id (Repo.activated b now))) e m)

-- The four steps of `activate`, one after the other.
assembled :
    (who : Text) (p : PromotionRequest) (s u v w t : Session)
    → Changes s u
        (superseding p.conflict_with p.fact_id s.now)
        (superseded_rows who p.conflict_with p.fact_id s.now)
    → Moves u v (on_key p.fact_id (Repo.activated (distinct_approvers p) s.now))
    → SameButVectors v w
    → t ≡ logged w (Reviews.activated_event who p.fact_id)
    → Changes s t (activating p s.now) (activation_rows who p s.now)
assembled who p s u v w t c m n q =
    let now_is : w.now ≡ s.now = n.same_time ∙ m.same_time ∙ c.same_time in
    let assoc =
      append_assoc s.db.audit_events (superseded_rows who p.conflict_with p.fact_id s.now)
        (row s.now (Reviews.activated_event who p.fact_id) ∷ []) in
    record {
      same_time = ap (λ (x : Session). x.now) q ∙ now_is;
      frame = ground (arith, m.frame, n.frame, c.frame);
      looked = λ j.
          ap (λ (x : Session). Option.map without_vector (find fact_key j x.db.facts)) q
          ∙ n.looked j
          ∙ ap (Option.map without_vector) (m.looked j)
          ∙ map-on_key p.fact_id (Repo.activated (distinct_approvers p) s.now) j
              (find fact_key j u.db.facts)
              (superseding p.conflict_with p.fact_id s.now j (find fact_key j s.db.facts))
              (λ f. refl) (c.looked j);
    }

pub activate-done :
    (svc : Service) (p : PromotionRequest) (who : Text) (s t : Session)
    → Reviews.activate svc p who s ≡ done tt t
    → Changes s t (activating p s.now) (activation_rows who p s.now)
unfolding Reviews.activate
activate-done svc p who s t h =
    let by = Reviews.collect_approvers p.proposer [] p.reviews in
    let (_, u, e, e') =
      and_then-done (Reviews.supersede_conflict who p.conflict_with p.fact_id s)
        (λ _. do
          Repo.activate p.fact_id (Reviews.collect_approvers p.proposer [] p.reviews)
          embed_after_activation svc p.fact_id
          write (Reviews.activated_event who p.fact_id))
        tt t h in
    let (_, v, e1, e1') =
      and_then-done (Repo.activate p.fact_id (Reviews.collect_approvers p.proposer [] p.reviews) u)
        (λ _. do
          embed_after_activation svc p.fact_id
          write (Reviews.activated_event who p.fact_id))
        tt t e' in
    let (_, w, e2, e3) =
      and_then-done (embed_after_activation svc p.fact_id v)
        (λ _. write (Reviews.activated_event who p.fact_id)) tt t e1' in
    let c = supersede_conflict-done who p.conflict_with p.fact_id s u e in
    let (m, _) = Writes.activate-done p.fact_id by u v e1 in
    let n = embed_after_activation-SameButVectors svc p.fact_id v w e2 in
    let q = write-done (Reviews.activated_event who p.fact_id) w t e3 in
    let m' =
      Moves-with_approvers p.fact_id u v by (distinct_approvers p) u.now s.now
        (collect_approvers-distinct_approvers p) c.same_time m in
    assembled who p s u v w t c m' n q
