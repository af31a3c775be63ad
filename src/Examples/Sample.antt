-- ===== src/Examples/Sample.antt =====
-- The sample data of the examples, in the shapes of internal/facts, internal/promotions and
-- internal/store.
use baseline.Facts.{Fact, Subject, Status}
use baseline.Prelude.{ℕ, Bool, false, Option, none, some, [], ◌∷◌, text}
use baseline.Promotions.Workflow.{Service}
use baseline.Promotions.{PromotionRequest, State}
use baseline.Requests.{open_session}
use baseline.Store.{Db, Session}

abbrev pub region : Subject
region = record {
  type = text "decision";
  scope = text " Region ";
  qualifiers = (text "env", text "prod") ∷ (text "app", text "web") ∷ [];
}

abbrev pub fact_about : Subject → ℕ → Status → Option ℕ → Fact
fact_about subject id status valid_to = record {
  id = id;
  namespace_id = 0;
  statement = text "eu-west";
  subject = subject;
  canonical_key = text "decision:region:app=web,env=prod";
  status = status;
  confidence = none;
  source_memory_ids = [];
  provenance = record { origin_actor = []; origin_session = []; derived_from = []; rationale = [] };
  valid_from = none;
  valid_to = valid_to;
  supersedes_id = none;
  superseded_by_id = none;
  tags = [];
  metadata = [];
  embedding = none;
  created_by = text "ann";
  approved_by = [];
  version = 1;
  created_at = 0;
  updated_at = 0;
}

-- Fact 1 is in force until time 50, and fact 2 is to replace it.
abbrev pub old_fact : Fact
old_fact = fact_about region 1 Status.active (some 50)

abbrev pub new_fact : Fact
new_fact = fact_about region 2 Status.in_review none

abbrev pub other_fact : Fact
other_fact = fact_about region 4 Status.rejected none

abbrev pub request : PromotionRequest
request = record {
  id = 3;
  fact_id = 2;
  target_namespace_id = 0;
  proposed_statement = text "eu-west";
  state = State.in_review;
  candidate_memory_ids = [];
  proposer = text "ann";
  reviews = [];
  required_approvals = 1;
  conflict_with = some 1;
  idempotency_key = none;
  created_at = 0;
  updated_at = 0;
}

abbrev pub db : Db
db = record {
  namespaces = [];
  facts = old_fact ∷ new_fact ∷ other_fact ∷ [];
  promotions = request ∷ [];
  memberships = [];
  audit_events = [];
  next_id = 5;
}

abbrev no_faults : ℕ → Bool
no_faults n = false

abbrev pub session_at : ℕ → Session
session_at now = open_session db now no_faults

-- An embedder that is down, and no engines.
abbrev pub service : Service
service = record { engines = none; latency = false; embedder = some (λ s. none) }
