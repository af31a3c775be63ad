-- ===== src/Rbac/Resolve.antt =====
-- `Resolve` of internal/rbac/repo.go: what a principal is entitled to. The recursive query runs in
-- rounds: a round joins the rows of the last one with their parents and keeps those that are new.
pub mod Climb
pub mod Chain
pub mod Entitled
use baseline.Namespaces.{Namespace}
use baseline.Prelude.{
  ℕ, zero, suc, Bool, true, false, ◌&&◌, not, Option, none, some, List, [], ◌∷◌, ◌++◌, any, filter,
  map, length, if◌then◌else◌, ◌==◌, nat_eq, Text, text_eq,
}
use baseline.Rbac.{Role, Principal, Entitlements}
use baseline.Store.{Db, Membership, Tx, exec, on_pool, pure, ◌>>=◌}

abbrev pub points_to : Option ℕ → ℕ → Bool
points_to none id = false
points_to (some p) id = p == id

abbrev pub has_id : ℕ → List Namespace → Bool
has_id id ns = any (λ n. n.id == id) ns

abbrev pub is_member : Text → ℕ → Membership → Bool
is_member principal ns m = m.principal == principal && m.namespace_id == ns

-- The seed: the namespaces with a grant to the principal.
unfoldable pub granted : Text → List Membership → List Namespace → List Namespace
unfolding filter any
granted principal ms ns = filter (λ n. any (is_member principal n.id) ms) ns

abbrev pub is_fresh : List Namespace → List Namespace → Namespace → Bool
is_fresh seen working n = any (λ a. points_to a.parent_id n.id) working && not (has_id n.id seen)

-- The parents of the last round's rows that UNION has not seen yet.
unfoldable pub fresh : List Namespace → List Namespace → List Namespace → List Namespace
unfolding filter any
fresh ns seen working = filter (is_fresh seen working) ns

-- The rounds, until one adds nothing; `none` is one that the fuel does not reach.
unfoldable pub climb :
    ℕ → List Namespace → List Namespace → List Namespace → Option (List Namespace)
unfolding fresh
climb fuel ns seen [] = some seen
climb zero ns seen (w ∷ working) = none
climb (suc fuel) ns seen (w ∷ working) =
    let next = fresh ns seen (w ∷ working) in climb fuel ns (seen ++ next) next

abbrev pub ids : Option (List Namespace) → List ℕ
ids none = []
ids (some ns) = map (λ n. n.id) ns

unfoldable pub ancestors : Text → List Membership → List Namespace → Option (List Namespace)
unfolding granted climb
ancestors principal ms ns = let seed = granted principal ms ns in climb (length ns) ns seed seed

-- `ent.direct[nsID] = append(ent.direct[nsID], role)`.
unfoldable pub add_role : ℕ → Role → List (ℕ × List Role) → List (ℕ × List Role)
add_role ns role [] = (ns, role ∷ []) ∷ []
add_role ns role ((n, roles) ∷ rest) =
    let later = add_role ns role rest in
    if n == ns then (n, roles ++ role ∷ []) ∷ rest else (n, roles) ∷ later

unfoldable pub add_grants : List (ℕ × List Role) → List Membership → List (ℕ × List Role)
unfolding add_role
add_grants direct [] = direct
add_grants direct (m ∷ ms) = add_grants (add_role m.namespace_id m.role direct) ms

abbrev pub grants_of : Text → List Membership → List Membership
grants_of principal ms = filter (λ m. m.principal == principal) ms

abbrev pub entitlements : Principal → Db → Entitlements
entitlements p db = record {
  principal = p;
  direct = add_grants [] (grants_of p.id db.memberships);
  readable = ids (ancestors p.id db.memberships db.namespaces);
}

unfoldable pub resolve : Principal → Tx Entitlements
unfolding on_pool exec add_grants filter ancestors
resolve p = do
  direct ← on_pool (exec (λ now db. some (add_grants [] (grants_of p.id db.memberships), db)))
  readable ← on_pool (exec (λ now db. some (ids (ancestors p.id db.memberships db.namespaces), db)))
  pure (record { principal = p; direct = direct; readable = readable })
