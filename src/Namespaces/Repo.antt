-- ===== src/Namespaces/Repo.antt =====
-- internal/namespaces/repo.go: the registry of namespaces, on the pool. A policy is kept as the value
-- that its JSON column decodes into.
use baseline.Store.{Tx, ◌>>=◌, pure, raise, guard, Statement, exec, on_pool, namespace_not_found}
use baseline.Prelude.{
  ℕ, suc, Bool, true, ◌||◌, not, Option, none, some, List, [], ◌∷◌, ◌++◌, any, sort, text_leb,
  if◌then◌else◌, ◌==◌, nat_eq, text_eq, is_some,
}
use baseline.Namespaces.{Namespace, Policy, is_zero, default_policy}
use baseline.Store.Table.{find, modify}

abbrev pub namespace_key : Namespace → ℕ
namespace_key n = n.id

abbrev pub parent_exists : List Namespace → Option ℕ → Bool
parent_exists ns none = true
parent_exists ns (some id) = is_some (find namespace_key id ns)

abbrev pub with_policy : Namespace → Namespace
with_policy n = if is_zero n.policy then record n { policy = default_policy n.kind } else n

-- `name` is unique, and `parent_id` refers to a namespace.
unfoldable pub insert_namespace : Namespace → Statement Namespace
unfolding any find
insert_namespace n now db =
    let r = record n { id = db.next_id; created_at = now } in
    if any (λ m. m.name == n.name) db.namespaces || not (parent_exists db.namespaces n.parent_id)
    then none
    else some (r, record db { namespaces = db.namespaces ++ r ∷ []; next_id = suc db.next_id })

unfoldable pub create : Namespace → Tx Namespace
unfolding exec on_pool insert_namespace is_zero default_policy
create n = on_pool (exec (insert_namespace (with_policy n)))

abbrev pub or_namespace_not_found : Option Namespace → Tx Namespace
or_namespace_not_found none = raise namespace_not_found
or_namespace_not_found (some n) = pure n

unfoldable pub get : ℕ → Tx Namespace
unfolding exec on_pool find
get id = on_pool do
  found ← exec (λ now db. some (find namespace_key id db.namespaces, db))
  or_namespace_not_found found

unfoldable pub name_leb : Namespace → Namespace → Bool
unfolding text_leb
name_leb a b = text_leb a.name b.name

unfoldable pub list : Tx (List Namespace)
unfolding exec on_pool sort name_leb
list = on_pool (exec (λ now db. some (sort name_leb db.namespaces, db)))

abbrev pub namespace_affected : Bool → Tx (Unit {0})
namespace_affected hit = guard hit namespace_not_found

unfoldable pub update_policy : ℕ → Policy → Tx (Unit {0})
unfolding exec on_pool find modify
update_policy id p = on_pool do
  hit ← exec (λ now db. some (
    is_some (find namespace_key id db.namespaces),
    record db { namespaces = modify namespace_key id (λ n. record n { policy = p }) db.namespaces },
  ))
  namespace_affected hit
