-- ===== src/Rbac/Resolve/Entitled.antt =====
-- internal/rbac/repo.go and internal/rbac/principal.go: what a resolved principal may do and read.
use baseline.Namespaces.{Namespace}
use baseline.Prelude.{
  subst, ℕ, ◌≡◌, sym, ◌∙◌, ◌↔◌, true, false, some, List, [], ◌∷◌, ◌++◌, filter, map, arith, In,
  In-filter, filter-In, any-In, In-any, ◌==◌, nat_eq, eq_of_==, Text, text_eq, map-In, In-map,
  contains, if◌then◌else◌,
}
use mathlib.Core.List.{append_assoc, append-nil}
use baseline.Rbac.Resolve.{add_role, add_grants, grants_of, ancestors, ids, entitlements, resolve}
use baseline.Rbac.Resolve.Chain.{ancestors_iff_Readable}
use baseline.Rbac.Resolve.Climb.{Readable, ancestors_total}
use baseline.Rbac.{Role, Principal, Entitlements, Action, may, may_read, can, can_any, roles_in}
use baseline.Store.Atomic.{settle-done}
use baseline.Store.Transactions.{exec-done, and_then-done}
use baseline.Store.{Db, Membership, Session, done, exec, on_pool, pure, and_then}

roles_in-add_role :
    (ns : ℕ) (role : Role) (d : List (ℕ × List Role)) (k : ℕ)
    → roles_in (add_role ns role d) k
      ≡ (if ns == k then roles_in d k ++ role ∷ [] else roles_in d k)
unfolding add_role roles_in
roles_in-add_role ns role [] k = ground arith
roles_in-add_role ns role ((n, roles) ∷ d) k = ground (arith, roles_in-add_role ns role d k)

abbrev role_of : Membership → Role
role_of m = m.role

-- The roles of a namespace are those of its rows, in their order.
roles_in-add_grants :
    (d : List (ℕ × List Role)) (ms : List Membership) (k : ℕ)
    → roles_in (add_grants d ms) k
      ≡ roles_in d k ++ map role_of (filter (λ m. m.namespace_id == k) ms)
unfolding add_grants filter
roles_in-add_grants d [] k = sym (append-nil (roles_in d k))
roles_in-add_grants d (m ∷ ms) k =
    let ih = roles_in-add_grants (add_role m.namespace_id m.role d) ms k in
    let one = roles_in-add_role m.namespace_id m.role d k in
    let assoc =
      append_assoc (roles_in d k) (m.role ∷ [])
        (map role_of (filter (λ m. m.namespace_id == k) ms)) in
    ground (arith, ih, one, assoc)

query-done :
    {A : Type 0} (q : Db → A) (s : Session) (a : A) (t : Session)
    → on_pool (exec (λ now db. some (q db, db))) s ≡ done a t
    → (a ≡ q s.db) × (t.db ≡ s.db)
unfolding on_pool
query-done q s a t h =
    let (u, e, d) =
      settle-done (exec (λ now db. some (q db, db)) (record s { aborted = false })) a t h in
    let (_, found, _) = exec-done (λ now db. some (q db, db)) (record s { aborted = false }) e in
    (ground arith, ground arith)

-- Both queries see the same database.
pub resolve-entitlements :
    (p : Principal) (s : Session) (e : Entitlements) (t : Session)
    → resolve p s ≡ done e t
    → (e ≡ entitlements p s.db) × (t.db ≡ s.db)
unfolding resolve
resolve-entitlements p s e t h =
    let q : Db → List (ℕ × List Role) = λ db. add_grants [] (grants_of p.id db.memberships) in
    let r : Db → List ℕ = λ db. ids (ancestors p.id db.memberships db.namespaces) in
    let (direct, u, first, rest) =
      and_then-done (on_pool (exec (λ now db. some (q db, db))) s)
        (λ d v.
          and_then (on_pool (exec (λ now db. some (r db, db))) v)
            (λ ns. pure (record { principal = p; direct = d; readable = ns })))
        e t h in
    let (readable, v, second, last) =
      and_then-done (on_pool (exec (λ now db. some (r db, db))) u)
        (λ ns. pure (record { principal = p; direct = direct; readable = ns })) e t rest in
    let (d, same) = query-done q s direct u first in
    let (ns, same') = query-done r u readable v second in (ground arith, ground arith)

-- A row that lets the principal do `a` in the namespace.
abbrev pub Permits : Text → ℕ → Action → Membership → Type 0
Permits principal ns a m = (m.principal ≡ principal) × (m.namespace_id ≡ ns) × (can m.role a ≡ true)

entitlements-may :
    (p : Principal) (db : Db) (ns : ℕ) (a : Action)
    → p.platform_admin ≡ false
    → (may (entitlements p db) ns a ≡ true)
      ↔ ((m : Membership) × In m db.memberships × Permits p.id ns a m)
unfolding may can_any roles_in
entitlements-may p db ns a plain =
    let mine = grants_of p.id db.memberships in
    let here = filter (λ (m : Membership). m.namespace_id == ns) mine in
    let roles = roles_in-add_grants [] mine ns in
    (
      λ h.
          let (role, i, c) =
            any-In (λ role. can role a) (map role_of here) (ground (arith, roles)) in
          let (m, j, e) = In-map role_of role here i in
          let (k, at) = In-filter (λ (m : Membership). m.namespace_id == ns) m mine j in
          let (l, by) = In-filter (λ (m : Membership). m.principal == p.id) m db.memberships k in
          (m, l, (eq_of_== m.principal p.id by, eq_of_== m.namespace_id ns at, ground arith)),
      λ g.
          let (m, i, (by, at, c)) = g in
          let j =
            filter-In (λ (m : Membership). m.principal == p.id) m db.memberships i
              (ground (arith, by)) in
          let k =
            filter-In (λ (m : Membership). m.namespace_id == ns) m mine j (ground (arith, at)) in
          let yes' =
            In-any (λ role. can role a) m.role (map role_of here) (map-In role_of m here k) c in
          ground (arith, roles, yes', plain),
    )

-- Where the entitlements of a principal that is no platform admin are resolved, it may do in a
-- namespace exactly what some membership row of its own there permits.
pub resolve-may :
    (p : Principal) (s : Session) (e : Entitlements) (t : Session) (ns : ℕ) (a : Action)
    → resolve p s ≡ done e t
    → p.platform_admin ≡ false
    → (may e ns a ≡ true) ↔ ((m : Membership) × In m s.db.memberships × Permits p.id ns a m)
resolve-may p s e t ns a h plain =
    let (is, _) = resolve-entitlements p s e t h in
    subst
      (λ x. (may x ns a ≡ true) ↔ ((m : Membership) × In m s.db.memberships × Permits p.id ns a m))
      (sym is) (entitlements-may p s.db ns a plain)

entitlements-may_read :
    (p : Principal) (db : Db) (id : ℕ)
    → p.platform_admin ≡ false
    → (may_read (entitlements p db) id ≡ true)
      ↔ ((n : Namespace) × Readable p.id db.memberships db.namespaces n × (n.id ≡ id))
unfolding may_read contains
entitlements-may_read p db id plain =
    let (r, found) = ancestors_total p.id db.memberships db.namespaces in
    (
      λ h.
          let (k, i, e) = any-In (λ x. x == id) (map (λ (n : Namespace). n.id) r) (ground arith) in
          let (n, j, e') = In-map (λ (n : Namespace). n.id) k r i in
          (
            n,
            (ancestors_iff_Readable p.id db.memberships db.namespaces r n found).0 j,
            e' ∙ eq_of_== k id e,
          ),
      λ g.
          let (n, d, e) = g in
          let j = (ancestors_iff_Readable p.id db.memberships db.namespaces r n found).1 d in
          let i = map-In (λ (n : Namespace). n.id) n r j in
          let yes' =
            In-any (λ x. x == id) n.id (map (λ (n : Namespace). n.id) r) i (ground (arith, e)) in
          ground (arith, yes', plain, found),
    )

-- Where the entitlements of a principal that is no platform admin are resolved, it may read exactly
-- the namespaces that the parent chain makes readable: those in which it has a grant, and the parent
-- of each that it may read.
pub resolve-may_read :
    (p : Principal) (s : Session) (e : Entitlements) (t : Session) (id : ℕ)
    → resolve p s ≡ done e t
    → p.platform_admin ≡ false
    → (may_read e id ≡ true)
      ↔ ((n : Namespace) × Readable p.id s.db.memberships s.db.namespaces n × (n.id ≡ id))
resolve-may_read p s e t id h plain =
    let (is, _) = resolve-entitlements p s e t h in
    subst
      (λ x.
        (may_read x id ≡ true)
        ↔ ((n : Namespace) × Readable p.id s.db.memberships s.db.namespaces n × (n.id ≡ id)))
      (sym is) (entitlements-may_read p s.db id plain)
