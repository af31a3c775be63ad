-- ===== src/Requests/History.antt =====
-- What holds of the database after any sequence of requests, of which each may fail half-way: calls
-- of internal/promotions/service.go, internal/facts/service.go, internal/reaper/reaper.go and
-- internal/namespaces/repo.go.
use baseline.Prelude.{◌≡◌, true, List, arith, In}
use baseline.Requests.{serve, empty_db, Request}
use baseline.Facts.Key.{canonical_key}
use baseline.Facts.{Fact, is_active}
use baseline.Invariant.{Inv}
use baseline.Invariant.Holds.{Inv-Laws}
use baseline.Requests.Kept.{serve-Keeps}
use baseline.Promotions.Workflow.{Service}

empty_db-Inv : Inv empty_db
empty_db-Inv = record {
  facts_keyed = tt;
  promotions_keyed = tt;
  active_unique = λ f g i. elim i [ ];
  key_derived = λ f i. elim i [ ];
  approval_required = λ p i. elim i [ ];
}

-- From the empty database, after any requests with any faults, no two facts that are active share
-- their namespace and canonical key.
pub serve-active_unique :
    (svc : Service) (rs : List Request) (f g : Fact)
    → In f (serve svc empty_db rs).facts
    → In g (serve svc empty_db rs).facts
    → is_active f ≡ true
    → is_active g ≡ true
    → f.namespace_id ≡ g.namespace_id
    → f.canonical_key ≡ g.canonical_key
    → f.id ≡ g.id
serve-active_unique svc rs f g i j hf hg n k =
    (serve-Keeps Inv Inv-Laws svc empty_db rs empty_db-Inv).active_unique f g i j hf hg
      (ground arith)

-- From the empty database, after any requests with any faults, the canonical key of every fact is
-- the one that its subject has.
pub serve-key_derived :
    (svc : Service) (rs : List Request) (f : Fact)
    → In f (serve svc empty_db rs).facts
    → f.canonical_key ≡ canonical_key f.subject
serve-key_derived svc rs f i =
    (serve-Keeps Inv Inv-Laws svc empty_db rs empty_db-Inv).key_derived f i
