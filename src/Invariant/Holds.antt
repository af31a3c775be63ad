-- ===== src/Invariant/Holds.antt =====
-- The statements keep the invariant of the database (internal/store/migrations/00001_init.sql).
use baseline.Audit.{row}
use baseline.Invariant.Inserts.{
  insert_row-Inv, insert_promotion-Inv, update_promotion-Inv, namespaces-Inv,
}
use baseline.Invariant.Laws.{Laws}
use baseline.Invariant.Statements.{update-Inv, set_audit-Inv}
use baseline.Invariant.{Inv}
use baseline.Namespaces.Repo as Registrar
use baseline.Namespaces.{Namespace}
use baseline.Prelude.{ℕ, List, [], ◌∷◌, suc, ◌≡◌, subst, some, ◌++◌, arith}
use baseline.Store.Keeps.{Sound}
use baseline.Store.{Db}

insert_namespace-some :
    (n : Namespace) (now : ℕ) (db : Db) (a : Namespace) (db' : Db)
    → Inv db
    → Registrar.insert_namespace n now db ≡ some (a, db')
    → Inv db'
unfolding Registrar.insert_namespace
insert_namespace-some n now db a db' v h = subst Inv (ground arith) (
    namespaces-Inv db (db.namespaces ++ record n { id = db.next_id; created_at = now } ∷ [])
      (suc db.next_id) (omega arith) v)

insert_namespace-Inv : (n : Namespace) → Sound Inv (Registrar.insert_namespace n)
insert_namespace-Inv n = record { at = λ now db v h. insert_namespace-some n now db _ _ v h }

set_namespaces-Inv :
    {A : Type 0} (a : Db → A) (ns : Db → List Namespace)
    → Sound Inv (λ now db. some (a db, record db { namespaces = ns db }))
set_namespaces-Inv a ns = record {
  at =
      λ now db v h. subst Inv (ground arith) (namespaces-Inv db (ns db) db.next_id (omega arith) v);
}

pub Inv-Laws : Laws Inv
Inv-Laws = record {
  append_event = λ e. set_audit-Inv (λ now db. db.audit_events ++ row now e ∷ []);
  update_fact = λ id where_ set keeps e. update-Inv id where_ set keeps;
  insert_fact = insert_row-Inv;
  update_promotion = update_promotion-Inv;
  insert_promotion = insert_promotion-Inv;
  insert_namespace = insert_namespace-Inv;
  set_namespaces = set_namespaces-Inv;
}
