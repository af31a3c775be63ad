-- ===== src/Examples/Entitled.antt =====
-- `Resolve` of internal/rbac/repo.go at a concrete input: a team below an organisation.
use baseline.Examples.Reads.{team, stored}
use baseline.Namespaces.{Namespace}
use baseline.Prelude.{
  ℕ_discrete, Text-discrete, ◌≡◌, ◌↔◌, refl, true, false, some, List, [], ◌∷◌, In, text,
}
use baseline.Rbac.Resolve.Climb.{Readable, ancestors_total}
use baseline.Rbac.Resolve.Entitled.{resolve-may, resolve-may_read, Permits}
use baseline.Rbac.Resolve.{resolve, ancestors}
use baseline.Rbac.{Principal, Entitlements, role_reviewer, may, may_read, revoke}
use baseline.Requests.{open_session}
use baseline.Store.Keeps.{session}
use baseline.Store.{Membership, Session, Db, done}

-- Bob reviews for the squad, whose parent is the team.
abbrev squad : Namespace
squad = record team { id = 1; name = text "squad"; parent_id = some 0 }

abbrev bobs : Membership
bobs = record { principal = text "bob"; namespace_id = 1; role = role_reviewer }

abbrev pub nested : Db
nested = record stored { namespaces = team ∷ squad ∷ []; memberships = bobs ∷ [] }

abbrev start : Session
start = open_session nested 10 (λ n. false)

abbrev bob : Principal
bob = record { id = text "bob"; platform_admin = false }

abbrev pub bob_may : Entitlements
bob_may = record { principal = bob; direct = (1, role_reviewer ∷ []) ∷ []; readable = 1 ∷ 0 ∷ [] }

abbrev resolved : Session
resolved = session (resolve bob start)

run_resolves : resolve bob start ≡ done bob_may resolved
unfolding resolve Text-discrete ℕ_discrete
run_resolves = refl

resolve-may_example :
    (may bob_may 1 revoke ≡ true)
    ↔ ((m : Membership) × In m nested.memberships × Permits (text "bob") 1 revoke m)
resolve-may_example = resolve-may bob start bob_may resolved 1 revoke run_resolves refl

-- The parent is readable.
resolve-may_read_example :
    (may_read bob_may 0 ≡ true)
    ↔ ((n : Namespace) × Readable (text "bob") nested.memberships nested.namespaces n × (n.id ≡ 0))
resolve-may_read_example = resolve-may_read bob start bob_may resolved 0 run_resolves refl

ancestors_total_example :
    (r : List Namespace) × (ancestors (text "bob") nested.memberships nested.namespaces ≡ some r)
ancestors_total_example = ancestors_total (text "bob") nested.memberships nested.namespaces
