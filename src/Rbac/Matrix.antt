-- ===== src/Rbac/Matrix.antt =====
-- internal/rbac/rbac.go against the permission matrix of docs/SPEC.md, section 7.2.
use baseline.Rbac.{
  Role, role_reader, role_contributor, role_reviewer, role_admin, valid_role, can, Action,
  read_facts, propose, approve_reject, revoke, manage,
}
use baseline.Prelude.{◌≡◌, refl, Bool, true, false, arith, ℕ_discrete, Text-discrete}

-- The columns of the matrix, and its cells.
pub data Column : Type 0 where
  reader contributor reviewer ns_admin : Column

abbrev pub role_of : Column → Role
role_of reader = role_reader
role_of contributor = role_contributor
role_of reviewer = role_reviewer
role_of ns_admin = role_admin

abbrev pub ticked : Action → Column → Bool
ticked read_facts _ = true
ticked propose reader = false
ticked propose _ = true
ticked approve_reject reader = false
ticked approve_reject contributor = false
ticked approve_reject _ = true
ticked revoke reader = false
ticked revoke contributor = false
ticked revoke _ = true
ticked manage ns_admin = true
ticked manage _ = false

-- The permission matrix, cell by cell: a known role may do exactly what its column ticks.
pub can_matrix : (c : Column) (a : Action) → can (role_of c) a ≡ ticked a c
unfolding can Text-discrete ℕ_discrete
can_matrix reader read_facts = refl
can_matrix reader propose = refl
can_matrix reader approve_reject = refl
can_matrix reader revoke = refl
can_matrix reader manage = refl
can_matrix contributor read_facts = refl
can_matrix contributor propose = refl
can_matrix contributor approve_reject = refl
can_matrix contributor revoke = refl
can_matrix contributor manage = refl
can_matrix reviewer read_facts = refl
can_matrix reviewer propose = refl
can_matrix reviewer approve_reject = refl
can_matrix reviewer revoke = refl
can_matrix reviewer manage = refl
can_matrix ns_admin read_facts = refl
can_matrix ns_admin propose = refl
can_matrix ns_admin approve_reject = refl
can_matrix ns_admin revoke = refl
can_matrix ns_admin manage = refl

-- A text that names no role may do nothing.
pub can_unknown : (r : Role) (a : Action) → valid_role r ≡ false → can r a ≡ false
unfolding can valid_role
can_unknown r a h = ground arith
