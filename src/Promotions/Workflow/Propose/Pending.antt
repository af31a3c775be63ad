-- ===== src/Promotions/Workflow/Propose/Pending.antt =====
-- `Propose` of internal/promotions/service.go: what a proposal that no engine promotes leaves for the
-- reviewers, and what a repeated one answers.
use baseline.Promotions.Workflow.Propose.Recorded.{recorded, Declines, consult-Declines, Proposed}
use baseline.Store.Table.{find}
use baseline.Store.Transactions.{and_then-done, begin, in_tx-done, guard-done}
use baseline.Promotions.Repo.{insert_promotion}
use baseline.Promotions.Workflow.{Service}
use baseline.Namespaces.{AutoPromote}
use baseline.Audit.Writer.{write, write-done}
use baseline.Facts.Key.{canonical_key, valid}
use baseline.Promotions.Workflow.Propose.{ProposeInput}
use baseline.Store.{Db, Session, Tx, ◌>>=◌, ◌>>◌, done, guard, invalid_subject}
use baseline.Facts.{Fact}
use baseline.Promotions.{PromotionRequest}
use baseline.Facts.Repo
use baseline.Promotions.Workflow.Propose
use baseline.Promotions.Workflow.Propose.Steps.{
  get_namespace-done, active_under, id_of, detect_conflict-done, insert-done, insert_promotion-done,
}
use baseline.Promotions.Workflow.Reviews.Deciding.{pure-done}
use baseline.Namespaces.Repo as Registrar
use baseline.Namespaces.Repo.{namespace_key}
use baseline.Namespaces.{Namespace}
use baseline.Store.{in_tx}
use baseline.Prelude.{ap, sym, subst, ℕ, ◌≡◌, ◌∙◌, Option, [], ◌∷◌, arith, refl, some, Text, true}

abbrev after_request :
    Service
    → ProposeInput
    → Option AutoPromote
    → Option ℕ
    → Fact
    → PromotionRequest
    → Tx PromotionRequest
after_request svc input pinned c f r = do
  write (Propose.proposed_event input r f.id (canonical_key input.subject) c)
  Propose.maybe_auto_promote svc r pinned input

abbrev after_fact :
    Service → ProposeInput → ℕ → Option AutoPromote → Option ℕ → Fact → Tx PromotionRequest
after_fact svc input required pinned c f = do
  r ← insert_promotion (Propose.proposed_promotion input f.id required c)
  after_request svc input pinned c f r

abbrev after_conflict :
    Service → ProposeInput → ℕ → Option AutoPromote → Option ℕ → Tx PromotionRequest
after_conflict svc input required pinned c = do
  f ← Repo.insert (Propose.proposed_fact input)
  after_fact svc input required pinned c f

propose_in_tx-done :
    (svc : Service) (input : ProposeInput) (required : ℕ) (pinned : Option AutoPromote)
    (s : Session) (p : PromotionRequest) (t : Session)
    → Declines svc.engines pinned input
    → Propose.propose_in_tx svc input required pinned s ≡ done p t
    → Proposed input s.now required s.db t.db p
unfolding Propose.propose_in_tx Propose.maybe_auto_promote
propose_in_tx-done svc input required pinned s p t declines h =
    let (c, u, e, e1) =
      and_then-done
        (Propose.detect_conflict input.target_namespace_id (canonical_key input.subject) s)
        (after_conflict svc input required pinned) p t h in
    let (f, v, e2, e3) =
      and_then-done (Repo.insert (Propose.proposed_fact input) u)
        (after_fact svc input required pinned c) p t e1 in
    let (r, w, e4, e5) =
      and_then-done (insert_promotion (Propose.proposed_promotion input f.id required c) v)
        (after_request svc input pinned c f) p t e3 in
    let (_, x, e6, e7) =
      and_then-done (write (Propose.proposed_event input r f.id (canonical_key input.subject) c) w)
        (λ _. Propose.maybe_auto_promote svc r pinned input) p t e5 in
    let (c_is, same) =
      detect_conflict-done input.target_namespace_id (canonical_key input.subject) s c u e in
    let stands =
      recorded input required c u v w x f r
        (c_is
          ∙ ap
              (λ (d : Db).
                id_of
                  (active_under input.target_namespace_id (canonical_key input.subject) d.facts))
              (sym same.same_db))
        (insert-done (Propose.proposed_fact input) u f v e2)
        (insert_promotion-done (Propose.proposed_promotion input f.id required c) v r w e4)
        (write-done (Propose.proposed_event input r f.id (canonical_key input.subject) c) w x e6) in
    let (p_is, x_is) =
      pure-done r x p t (sym (consult-Declines svc svc.engines pinned r input x declines) ∙ e7) in
    subst (λ n. Proposed input n required s.db t.db p) same.same_time
      (subst (λ d. Proposed input u.now required d t.db p) same.same_db
        (subst (λ (y : Session). Proposed input u.now required u.db y.db p) x_is
          (subst (λ q. Proposed input u.now required u.db x.db q) (sym p_is) stands)))

unless_repeated-none :
    (who key : Text) (rest : Tx PromotionRequest) (s : Session)
    → key ≡ []
    → Propose.unless_repeated who key rest s ≡ rest s
unless_repeated-none who [] rest s h = refl
unless_repeated-none who (c ∷ key) rest s h = absurd (ground arith)

abbrev required_of : Namespace → ℕ
required_of m = Propose.at_least_one m.policy.required_approvals

propose_new-Proposed :
    (svc : Service) (input : ProposeInput) (n : Namespace) (s : Session) (p : PromotionRequest)
    (t : Session)
    → find namespace_key input.target_namespace_id s.db.namespaces ≡ some n
    → Declines svc.engines n.policy.auto_promote input
    → Propose.propose_new svc input s ≡ done p t
    → Proposed input s.now (Propose.at_least_one n.policy.required_approvals) s.db t.db p
unfolding Propose.propose_new
propose_new-Proposed svc input n s p t found declines h =
    let body = λ (m : Namespace).
      Propose.propose_in_tx svc input (Propose.at_least_one m.policy.required_approvals)
        m.policy.auto_promote in
    let (m, u, e, e1) =
      and_then-done (Registrar.get input.target_namespace_id s) (λ m. in_tx (body m)) p t h in
    let (is, same) = get_namespace-done input.target_namespace_id s m u e in
    let m_is : n ≡ m = ground arith in
    let (v, e2, _, t_is) = in_tx-done (body m) u e1 in
    let stands =
      propose_in_tx-done svc input (Propose.at_least_one m.policy.required_approvals)
        m.policy.auto_promote (begin u) p v
        (subst (λ (x : Namespace). Declines svc.engines x.policy.auto_promote input) m_is declines)
        e2 in
    subst
      (λ (x : Namespace).
        Proposed input s.now (Propose.at_least_one x.policy.required_approvals) s.db t.db p)
      (sym m_is)
      (subst (λ k. Proposed input k (required_of m) s.db t.db p) same.same_time
        (subst (λ d. Proposed input u.now (required_of m) d t.db p) same.same_db
          (subst (λ d. Proposed input u.now (required_of m) u.db d p)
            (sym (ap (λ (x : Session). x.db) t_is)) stands)))

-- A proposal under no idempotency key that succeeds, and that no engine promotes, has a valid subject;
-- it leaves one proposed fact under the canonical key of its subject, and a pending request without
-- reviews that names the active fact of the slot, if there is one, and asks for the approvals of the
-- policy, at least one; and it adds one event to the audit log.
pub propose-pending :
    (svc : Service) (input : ProposeInput) (n : Namespace) (s : Session) (p : PromotionRequest)
    (t : Session)
    → input.idempotency_key ≡ []
    → find namespace_key input.target_namespace_id s.db.namespaces ≡ some n
    → Declines svc.engines n.policy.auto_promote input
    → Propose.propose svc input s ≡ done p t
    → (valid input.subject ≡ true)
      × Proposed input s.now (Propose.at_least_one n.policy.required_approvals) s.db t.db p
unfolding Propose.propose
propose-pending svc input n s p t no_key found declines h =
    let (_, u, e, e1) =
      and_then-done (guard (valid input.subject) invalid_subject s)
        (λ _.
          Propose.unless_repeated input.proposer input.idempotency_key
            (Propose.propose_new svc input))
        p t h in
    let (is_valid, u_is) = guard-done (valid input.subject) invalid_subject s u e in
    let e2 =
      sym (
        unless_repeated-none input.proposer input.idempotency_key (Propose.propose_new svc input) u
          no_key)
      ∙ e1 in
    (
      is_valid,
      propose_new-Proposed svc input n s p t found declines
          (subst (λ x. Propose.propose_new svc input x ≡ done p t) u_is e2),
    )
