-- ===== src/Requests/Kept.antt =====
-- A property that every statement keeps holds after any requests, with any faults: calls of
-- internal/promotions/service.go, internal/facts/service.go, internal/reaper/reaper.go and
-- internal/namespaces/repo.go.
use baseline.Invariant.Calls.Others.{revoke-Keeps, reap-Keeps, create-Keeps, update_policy-Keeps}
use baseline.Invariant.Calls.Propose.{propose-Keeps}
use baseline.Invariant.Calls.Review.{
  submit-Keeps, withdraw-Keeps, reject_promotion-Keeps, request_changes_to-Keeps,
  approve_promotion-Keeps,
}
use baseline.Invariant.Laws.{Laws}
use baseline.Prelude.{List, [], ◌∷◌}
use baseline.Promotions.Workflow.{Service}
use baseline.Requests.{perform, serve, Call, Request, open_session, run}
use baseline.Store.Keeps.{Keeps, Keeps->>, Keeps-pure}
use baseline.Store.{Db, Session}

module _ (P : Db → Type 0) (laws : Laws P) where
  run-Keeps : (svc : Service) (c : Call) → Keeps P (run svc c)
  unfolding run
  run-Keeps svc (Call.propose input) = Keeps->> P (propose-Keeps P laws svc input) (Keeps-pure P)
  run-Keeps svc (Call.submit id who) = Keeps->> P (submit-Keeps P laws id who) (Keeps-pure P)
  run-Keeps svc (Call.approve id who comment) =
      Keeps->> P (approve_promotion-Keeps P laws svc id who comment) (Keeps-pure P)
  run-Keeps svc (Call.reject id who comment) =
      Keeps->> P (reject_promotion-Keeps P laws id who comment) (Keeps-pure P)
  run-Keeps svc (Call.request_changes id who comment suggested) =
      Keeps->> P (request_changes_to-Keeps P laws id who comment suggested) (Keeps-pure P)
  run-Keeps svc (Call.withdraw id who) = Keeps->> P (withdraw-Keeps P laws id who) (Keeps-pure P)
  run-Keeps svc (Call.revoke id version who) = revoke-Keeps P laws id version who
  run-Keeps svc Call.reap = Keeps->> P (reap-Keeps P laws) (Keeps-pure P)
  run-Keeps svc (Call.create_namespace n) = Keeps->> P (create-Keeps P laws n) (Keeps-pure P)
  run-Keeps svc (Call.update_policy id p) = update_policy-Keeps P laws id p

  perform-Keeps : (svc : Service) (c : Call) (s : Session) → P s.db → P (perform svc c s).db
  unfolding perform
  perform-Keeps svc c s v = (run-Keeps svc c).at s v

  pub serve-Keeps : (svc : Service) (db : Db) (rs : List Request) → P db → P (serve svc db rs)
  unfolding serve
  serve-Keeps svc db [] v = v
  serve-Keeps svc db (r ∷ rs) v =
      serve-Keeps svc (perform svc r.call (open_session db r.now r.faults)).db rs
        (perform-Keeps svc r.call (open_session db r.now r.faults) v)
