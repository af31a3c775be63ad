-- ===== src/Promotions/Workflow/Propose/Recorded.antt =====
-- `Propose` of internal/promotions/service.go: the rows that a proposal writes, and an engine that does
-- not promote it.
use baseline.Promotions.Workflow.{Service}
use baseline.Namespaces.{AutoPromote}
use baseline.AutoPromote.{Registry, evaluate, Decision, EngineError}
use baseline.Audit.Writer.{logged}
use baseline.Facts.Key.{canonical_key}
use baseline.Promotions.Workflow.Propose.{ProposeInput}
use baseline.Store.{Db, Session, done}
use baseline.Audit.{row, Event}
use baseline.Facts.{proposed, Fact}
use baseline.Promotions.{pending, PromotionRequest}
use baseline.Promotions.Workflow.Propose
use baseline.Promotions.Workflow.Propose.Steps.{active_under, id_of, fact_row, request_row}
use baseline.Prelude.{
  ap, sym, ℕ, suc, ◌≡◌, ◌∙◌, Option, [], ◌∷◌, ◌++◌, arith, refl, false, none, some, Text,
}

-- What stands in the tables after a proposal.
pub record Proposed (input : ProposeInput) (now : ℕ) (required : ℕ) (d d' : Db)
    (p : PromotionRequest) : Type 0 where
  pub fact : Fact
  pub facts : d'.facts ≡ d.facts ++ fact ∷ []
  pub promotions : d'.promotions ≡ d.promotions ++ p ∷ []
  pub status : fact.status ≡ proposed
  pub key : fact.canonical_key ≡ canonical_key input.subject
  pub of_fact : p.fact_id ≡ fact.id
  pub state : p.state ≡ pending
  pub reviews : p.reviews ≡ []
  pub proposer : p.proposer ≡ input.proposer
  pub required_approvals : p.required_approvals ≡ required
  pub conflict_with :
      p.conflict_with
      ≡ id_of (active_under input.target_namespace_id (canonical_key input.subject) d.facts)
  pub logs :
      d'.audit_events
      ≡ d.audit_events
        ++ row now
            (Propose.proposed_event input p fact.id (canonical_key input.subject) p.conflict_with)
          ∷ []

pub recorded :
    (input : ProposeInput) (required : ℕ) (c : Option ℕ) (s t u v : Session) (f : Fact)
    (p : PromotionRequest)
    → c ≡ id_of (active_under input.target_namespace_id (canonical_key input.subject) s.db.facts)
    → (f ≡ fact_row s (Propose.proposed_fact input))
      × (t.now ≡ s.now)
      × (t.db ≡ record s.db { facts = s.db.facts ++ f ∷ []; next_id = suc s.db.next_id })
    → (p ≡ request_row t (Propose.proposed_promotion input f.id required c))
      × (u.now ≡ t.now)
      × (u.db ≡ record t.db { promotions = t.db.promotions ++ p ∷ []; next_id = suc t.db.next_id })
    → v ≡ logged u (Propose.proposed_event input p f.id (canonical_key input.subject) c)
    → Proposed input s.now required s.db v.db p
recorded input required c s t u v f p c_is (f_is, t_now, t_db) (p_is, u_now, u_db) v_is = record {
  fact = f;
  facts = ground arith;
  promotions = ground arith;
  status = ap (λ (x : Fact). x.status) f_is;
  key = ap (λ (x : Fact). x.canonical_key) f_is;
  of_fact = ap (λ (x : PromotionRequest). x.fact_id) p_is;
  state = ap (λ (x : PromotionRequest). x.state) p_is;
  reviews = ap (λ (x : PromotionRequest). x.reviews) p_is;
  proposer = ap (λ (x : PromotionRequest). x.proposer) p_is;
  required_approvals = ap (λ (x : PromotionRequest). x.required_approvals) p_is;
  conflict_with = ap (λ (x : PromotionRequest). x.conflict_with) p_is ∙ c_is;
  logs =
      ap (λ (w : Session). w.db.audit_events) v_is
      ∙ ap (λ xs. xs ++ row u.now (event c) ∷ []) same_log
      ∙ ap (λ n. s.db.audit_events ++ row n (event c) ∷ []) (u_now ∙ t_now)
      ∙ ap (λ x. s.db.audit_events ++ row s.now (event x) ∷ [])
          (sym (ap (λ (x : PromotionRequest). x.conflict_with) p_is));
}
  where
    event : Option ℕ → Event
    event x = Propose.proposed_event input p f.id (canonical_key input.subject) x

    same_log : u.db.audit_events ≡ s.db.audit_events
    same_log = ap (λ (d : Db). d.audit_events) u_db ∙ ap (λ (d : Db). d.audit_events) t_db

-- The engine that the policy pins, if any, does not promote the candidate.
abbrev pub Declines : Option Registry → Option AutoPromote → ProposeInput → Type 0
Declines none ap input = Unit {0}
Declines (some engines) none input = Unit {0}
Declines (some engines) (some pinned) input =
    (evaluate engines pinned.engine (Propose.candidate input) pinned.rules).0.auto_promote ≡ false

follow-Declines :
    (svc : Service) (engine : Text) (p : PromotionRequest) (v : Decision × Option EngineError)
    (s : Session)
    → v.0.auto_promote ≡ false
    → Propose.follow svc engine p v s ≡ done p s
follow-Declines svc engine p (d, some err) s h = refl
follow-Declines svc engine p (d, none) s h = ground arith

pub consult-Declines :
    (svc : Service) (engines : Option Registry) (pinned : Option AutoPromote) (p : PromotionRequest)
    (input : ProposeInput) (s : Session)
    → Declines engines pinned input
    → Propose.consult svc engines pinned p input s ≡ done p s
consult-Declines svc none pinned p input s h = refl
consult-Declines svc (some engines) none p input s h = refl
consult-Declines svc (some engines) (some x) p input s h =
    let v = evaluate engines x.engine (Propose.candidate input) x.rules in
    let e = follow-Declines svc x.engine p v s h in ground (arith, e)
