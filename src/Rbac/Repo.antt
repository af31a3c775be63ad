-- ===== src/Rbac/Repo.antt =====
-- internal/rbac/repo.go: granting, revoking and listing memberships. A grant goes to a namespace of the
-- table.
use baseline.Facts.Key.{valid}
use baseline.Store.Transactions.{exec-done, and_then-done, guard-done}
use baseline.Store.Atomic.{settle-done}
use baseline.Namespaces.Repo.{namespace_key}
use baseline.Prelude.{
  ℕ, Bool, true, false, ◌&&◌, ◌||◌, not, none, some, List, [], ◌∷◌, ◌++◌, any, map, filter, sort,
  is_some, if◌then◌else◌, ◌==◌, nat_eq, Text, text_eq, text_leb, ◌≡◌, refl, inl, inr, arith,
  Bool-cases, ◌∙◌,
}
use baseline.Prelude.{ap, sym, ==_self}
use baseline.Rbac.{Role, valid_role}
use baseline.Store.Table.{find}
use baseline.Store.{
  Db, Membership, Statement, Tx, exec, on_pool, guard, invalid_role, ◌>>◌, Session, done,
}

unfoldable pub is_grant : Text → ℕ → Role → Membership → Bool
is_grant principal ns role m = m.principal == principal && m.namespace_id == ns && m.role == role

-- ON CONFLICT DO NOTHING.
unfoldable pub insert_membership : Text → ℕ → Role → Statement (Unit {0})
unfolding any is_grant find
insert_membership principal ns role now db =
    let m : Membership = record { principal = principal; namespace_id = ns; role = role } in
    if any (is_grant principal ns role) db.memberships
    then some (tt, db)
    else if is_some (find namespace_key ns db.namespaces)
    then some (tt, record db { memberships = db.memberships ++ m ∷ [] })
    else none

unfoldable pub grant : Text → ℕ → Role → Tx (Unit {0})
unfolding on_pool exec insert_membership valid_role
grant principal ns role = do
  guard (valid_role role) invalid_role
  on_pool (exec (insert_membership principal ns role))

abbrev pub delete_membership : Text → ℕ → Role → Statement (Unit {0})
delete_membership principal ns role now db = some (
  tt,
  record db { memberships = filter (λ m. not (is_grant principal ns role m)) db.memberships },
)

unfoldable pub revoke_grant : Text → ℕ → Role → Tx (Unit {0})
unfolding on_pool exec filter is_grant
revoke_grant principal ns role = on_pool (exec (delete_membership principal ns role))

-- ORDER BY principal, role.
unfoldable pub member_leb : Membership → Membership → Bool
unfolding text_leb
member_leb a b =
    if a.principal == b.principal then text_leb a.role b.role else text_leb a.principal b.principal

abbrev pub membership_pair : Membership → Role × Text
membership_pair m = (m.role, m.principal)

unfoldable pub list_members : ℕ → Tx (List (Role × Text))
unfolding on_pool exec filter sort member_leb
list_members ns = on_pool (
    exec (λ now db. some (
      map membership_pair (sort member_leb (filter (λ m. m.namespace_id == ns) db.memberships)),
      db,
    )))

-- The principal holds the role in the namespace.
abbrev pub holds : Db → Text → ℕ → Role → Bool
holds db principal ns role = any (is_grant principal ns role) db.memberships

any-append :
    {A : Type 0} (p : A → Bool) (xs : List A) (x : A) → any p (xs ++ x ∷ []) ≡ (any p xs || p x)
unfolding any
any-append p [] x = ground arith
any-append p (y ∷ xs) x = ground (arith, any-append p xs x)

any-filter : {A : Type 0} (p : A → Bool) (xs : List A) → any p (filter (λ x. not (p x)) xs) ≡ false
unfolding any filter
any-filter p [] = refl
any-filter p (x ∷ xs) = ground (arith, any-filter p xs)

is_grant_self :
    (principal : Text) (ns : ℕ) (role : Role)
    → is_grant principal ns role (record { principal = principal; namespace_id = ns; role = role })
      ≡ true
unfolding is_grant
is_grant_self principal ns role = ground (arith, ==_self principal, ==_self ns, ==_self role)

insert_membership-holds :
    (principal : Text) (ns : ℕ) (role : Role) (now : ℕ) (db db' : Db)
    → insert_membership principal ns role now db ≡ some (tt, db')
    → holds db' principal ns role ≡ true
unfolding insert_membership is_grant
insert_membership-holds principal ns role now db db' h =
    let m : Membership = record { principal = principal; namespace_id = ns; role = role } in
    elim (Bool-cases (any (is_grant principal ns role) db.memberships)) [
      | inl held ↦ ground (arith, held)
      | inr new ↦
          let appended = any-append (is_grant principal ns role) db.memberships m in
          let self = is_grant_self principal ns role in
          let held_after : any (is_grant principal ns role) (db.memberships ++ m ∷ []) ≡ true =
            ground (arith, appended, self) in
          ground (arith, new, held_after)
    ]

-- What a statement on the pool that succeeds has done.
pool-done :
    (q : Statement (Unit {0})) (s t : Session)
    → on_pool (exec q) s ≡ done tt t
    → q s.now s.db ≡ some (tt, t.db)
unfolding on_pool
pool-done q s t h =
    let (u, e, d) = settle-done (exec q (record s { aborted = false })) tt t h in
    let (_, found, _) = exec-done q (record s { aborted = false }) e in
    found ∙ ap (λ x. some (tt, x)) (sym d)

-- A grant that succeeds is one of a known role, and the principal holds the role afterwards.
pub grant-holds :
    (principal : Text) (ns : ℕ) (role : Role) (s t : Session)
    → grant principal ns role s ≡ done tt t
    → (valid_role role ≡ true) × (holds t.db principal ns role ≡ true)
unfolding grant
grant-holds principal ns role s t h =
    let (_, u, e, e') =
      and_then-done (guard (valid_role role) invalid_role s)
        (λ _. on_pool (exec (insert_membership principal ns role))) tt t h in
    let (valid, _) = guard-done (valid_role role) invalid_role s u e in
    (
      valid,
      insert_membership-holds principal ns role u.now u.db t.db
          (pool-done (insert_membership principal ns role) u t e'),
    )

-- After a revocation that succeeds the principal does not hold the role, whether it did before or
-- not.
pub revoke_grant-holds :
    (principal : Text) (ns : ℕ) (role : Role) (s t : Session)
    → revoke_grant principal ns role s ≡ done tt t
    → holds t.db principal ns role ≡ false
unfolding revoke_grant
revoke_grant-holds principal ns role s t h =
    let e = pool-done (delete_membership principal ns role) s t h in
    let gone = any-filter (is_grant principal ns role) s.db.memberships in ground (arith, e, gone)
