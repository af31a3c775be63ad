-- ===== src/Examples/Calls.antt =====
-- Calls of internal/facts/service.go, internal/reaper/reaper.go and internal/promotions/service.go at
-- concrete inputs.
use baseline.Facts.Key.{canonical_key}
use baseline.Promotions.Workflow.Propose.{propose, ProposeInput}
use baseline.Namespaces.{Kind, Namespace}
use baseline.Facts.Repo.{fact_key}
use baseline.Store.Table.{find, IsTable}
use baseline.Store.{Session, self_approval, done, fail, Db}
use baseline.Examples.Sample.{session_at, service, old_fact, region, db}
use baseline.Facts.Service as FactService
use baseline.Facts.Service.Answers.{revoke-answers, error_of, refusal, columns_hold}
use baseline.Facts.Service.Revoke.{revoke-done, revoked_in}
use baseline.Promotions.Workflow.Reviews
use baseline.Namespaces.Repo.{create}
use baseline.Reaper.{reap, Result, is_stale, is_expiring}
use baseline.Reaper.Pass.{reap-done, expired_if_stale, expired_row, stale_ids}
use baseline.Requests.{Call, Request, run, serve, empty_db}
use baseline.Requests.Failures.{run-fail}
use baseline.Requests.History.{serve-active_unique, serve-key_derived}
use baseline.Promotions.{State-discrete, collect, Decision-discrete, add_key, distinct_approvers}
use baseline.Facts.{Status-discrete, active, Fact, is_active}
use baseline.Prelude.{
  pos, ℕ_discrete, Text-discrete, inl, ◌≡◌, refl, some, [], ◌++◌, map, arith, length, text, false,
  none, ◌∷◌, true, List, In, inr, subst,
}
use baseline.Store.Keeps.{session}

-- Ann revokes the fact that is in force, at its version.
abbrev after_revocation : Session
after_revocation = session (FactService.revoke 1 (pos 1) (text "ann") (session_at 10))

run_revokes : FactService.revoke 1 (pos 1) (text "ann") (session_at 10) ≡ done tt after_revocation
unfolding FactService.revoke ℕ_discrete Status-discrete
run_revokes = refl

revoke-done_example :
    (f : Fact) × (find fact_key 1 (session_at 10).db.facts ≡ some f)
    × (f.status ≡ active)
    × (pos 1 ≡ pos f.version)
    × (after_revocation.db ≡ revoked_in (session_at 10).db 10 f (text "ann"))
revoke-done_example =
    revoke-done 1 (pos 1) (text "ann") (session_at 10) after_revocation run_revokes

linked : (f : Fact) → In f db.facts → columns_hold db.facts f ≡ true
unfolding ℕ_discrete
linked f (inl e) = subst (λ g. columns_hold db.facts g ≡ true) e refl
linked f (inr (inl e)) = subst (λ g. columns_hold db.facts g ≡ true) e refl
linked f (inr (inr (inl e))) = subst (λ g. columns_hold db.facts g ≡ true) e refl
linked f (inr (inr (inr i))) = elim i [ ]

-- Ann does not know the version.
revoke-answers_example :
    error_of (FactService.revoke 1 (pos 2) (text "ann") (session_at 10))
    ≡ refusal (pos 2) (find fact_key 1 (session_at 10).db.facts)
revoke-answers_example = revoke-answers 1 (pos 2) (text "ann") (session_at 10) (λ n. refl) linked

-- A pass at time 60, past the end of the validity of the first fact.
abbrev after_pass : Session
after_pass = session (reap (session_at 60))

abbrev tally : Result
tally = record { expired = 1; expiring_soon = 0 }

run_reaps : reap (session_at 60) ≡ done tally after_pass
unfolding reap ℕ_discrete Status-discrete is_stale is_expiring
run_reaps = refl

sample-IsTable : IsTable fact_key 5 db.facts
unfolding find ℕ_discrete
sample-IsTable = (ground arith, refl, (ground arith, refl, (ground arith, refl, tt)))

old_found : find fact_key 1 (session_at 60).db.facts ≡ some old_fact
unfolding find ℕ_discrete
old_found = refl

reap-done_example :
    (find fact_key 1 after_pass.db.facts ≡ some (expired_if_stale 60 old_fact))
    × (after_pass.db.audit_events
        ≡ (session_at 60).db.audit_events ++ map (expired_row 60) (stale_ids 60 db.facts))
    × (tally.expired ≡ length (stale_ids 60 db.facts))
reap-done_example =
    reap-done 5 1 old_fact (session_at 60) tally after_pass sample-IsTable old_found run_reaps

-- Ann approves her own proposal.
abbrev self_approved : Session
self_approved = session (run service (Call.approve 3 (text "ann") []) (session_at 10))

run_refuses :
    run service (Call.approve 3 (text "ann") []) (session_at 10) ≡ fail self_approval self_approved
unfolding run ℕ_discrete State-discrete Text-discrete Reviews.approve_promotion
run_refuses = refl

run-fail_example : self_approved.db ≡ (session_at 10).db
run-fail_example =
    run-fail service (Call.approve 3 (text "ann") []) (session_at 10) self_approved self_approval
      run_refuses

abbrev team : Namespace
team = record {
  id = 0;
  name = text "team";
  kind = Kind.team;
  parent_id = none;
  policy = record { required_approvals = 1; allowed_proposers = none; auto_promote = none };
  created_at = 0;
}

abbrev pub proposed_by_ann : ProposeInput
proposed_by_ann = record {
  target_namespace_id = 0;
  proposed_statement = text "eu-west";
  subject = region;
  candidate_memory_ids = [];
  provenance = record { origin_actor = []; origin_session = []; derived_from = []; rationale = [] };
  tags = [];
  metadata = [];
  proposer = text "ann";
  idempotency_key = [];
  origin_type = [];
  source_kind = [];
  actor_type = [];
}

abbrev request_of : Call → Request
request_of c = record { now = 5; faults = λ n. false; call = c }

-- A namespace, a proposal, and its approval.
abbrev one_fact : Db
one_fact = serve service empty_db (
    request_of (Call.create_namespace team)
    ∷ request_of (Call.propose proposed_by_ann)
    ∷ request_of (Call.approve 2 (text "bob") [])
    ∷ [])

abbrev first_or : Fact → List Fact → Fact
first_or f [] = f
first_or f (g ∷ gs) = g

abbrev held : Fact
held = first_or old_fact one_fact.facts

held-In : In held one_fact.facts
unfolding serve Reviews.approve_promotion propose ℕ_discrete create Status-discrete State-discrete
    Text-discrete distinct_approvers collect Decision-discrete add_key
held-In = inl refl

held-is_active : is_active held ≡ true
unfolding serve Reviews.approve_promotion propose ℕ_discrete create Status-discrete State-discrete
    Text-discrete distinct_approvers collect Decision-discrete add_key
held-is_active = refl

serve-active_unique_example : held.id ≡ held.id
serve-active_unique_example =
    serve-active_unique service
      (request_of (Call.create_namespace team)
        ∷ request_of (Call.propose proposed_by_ann)
        ∷ request_of (Call.approve 2 (text "bob") [])
        ∷ [])
      held held held-In held-In held-is_active held-is_active refl refl

serve-key_derived_example : held.canonical_key ≡ canonical_key held.subject
serve-key_derived_example =
    serve-key_derived service
      (request_of (Call.create_namespace team)
        ∷ request_of (Call.propose proposed_by_ann)
        ∷ request_of (Call.approve 2 (text "bob") [])
        ∷ [])
      held held-In
