-- ===== src/Requests.antt =====
-- The calls by which the HTTP handlers, the reaper job and the administrators change the database
-- (internal/promotions/service.go, internal/facts/service.go, internal/reaper/reaper.go,
-- internal/namespaces/repo.go), one after the other, each with faults and a time of its own.
pub mod Failures
pub mod Kept
pub mod History
pub mod Log
pub mod Recorded
use baseline.Prelude.{ℕ, Bool, false, List, [], ◌∷◌, Text, ℤ}
use baseline.Facts.Service as FactService
use baseline.Namespaces.Repo as Registrar
use baseline.Namespaces.{Namespace, Policy}
use baseline.Promotions.Workflow.Propose
use baseline.Promotions.Workflow.Propose.{ProposeInput}
use baseline.Promotions.Workflow.Reviews
use baseline.Promotions.Workflow.{Service}
use baseline.Reaper
use baseline.Store.Keeps.{session}
use baseline.Store.{Db, Session, Tx, pure, ◌>>◌, ◌>>◌}

pub data Call : Type 0 where
  propose : ProposeInput → Call
  submit : ℕ → Text → Call
  approve : ℕ → Text → Text → Call
  reject : ℕ → Text → Text → Call
  request_changes : ℕ → Text → Text → Text → Call
  withdraw : ℕ → Text → Call
  revoke : ℕ → ℤ → Text → Call
  reap : Call
  create_namespace : Namespace → Call
  update_policy : ℕ → Policy → Call

pub record Request : Type 0 where
  pub now : ℕ
  pub faults : ℕ → Bool
  pub call : Call

abbrev pub open_session : Db → ℕ → (ℕ → Bool) → Session
open_session db now faults = record {
  db = db;
  now = now;
  faults = faults;
  sent = 0;
  aborted = false;
  latencies = [];
}

-- A call, of which only the error is looked at.
unfoldable pub run : Service → Call → Tx (Unit {0})
run svc (propose input) = Propose.propose svc input >> pure tt
run svc (submit id who) = Reviews.submit id who >> pure tt
run svc (approve id who comment) = Reviews.approve_promotion svc id who comment >> pure tt
run svc (reject id who comment) = Reviews.reject_promotion id who comment >> pure tt
run svc (request_changes id who comment suggested) =
    Reviews.request_changes_to id who comment suggested >> pure tt
run svc (withdraw id who) = Reviews.withdraw id who >> pure tt
run svc (revoke id version who) = FactService.revoke id version who
run svc reap = Reaper.reap >> pure tt
run svc (create_namespace n) = Registrar.create n >> pure tt
run svc (update_policy id p) = Registrar.update_policy id p

unfoldable pub perform : Service → Call → Session → Session
unfolding run
perform svc c s = session (run svc c s)

-- The database after the requests; whatever a call answers, the next one is served.
unfoldable pub serve : Service → Db → List Request → Db
unfolding perform
serve svc db [] = db
serve svc db (r ∷ rs) = serve svc (perform svc r.call (open_session db r.now r.faults)).db rs

abbrev pub empty_db : Db
empty_db = record {
  namespaces = [];
  facts = [];
  promotions = [];
  memberships = [];
  audit_events = [];
  next_id = 0;
}
