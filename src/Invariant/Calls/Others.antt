-- ===== src/Invariant/Calls/Others.antt =====
-- Revoking, reaping and the registry of namespaces keep what their statements keep (internal/facts/service.go,
-- internal/reaper/reaper.go, internal/namespaces/repo.go).
use baseline.Store.Table.{find, modify}
use baseline.Prelude.{ℕ, arith, refl, List, [], ◌∷◌, length, Text, is_some, ℤ}
use baseline.Facts.Repo
use baseline.Facts.Service as FactService
use baseline.Facts.{expired}
use baseline.Invariant.Calls
use baseline.Invariant.Laws.{Laws}
use baseline.Namespaces.Repo as Registrar
use baseline.Namespaces.{Namespace, Policy}
use baseline.Reaper
use baseline.Store.Keeps.{
  Keeps, Keeps-exec, Keeps->>=, Keeps->>, Keeps-pure, Keeps-guard, Keeps-in_tx, Keeps-on_pool,
}
use baseline.Store.{Db, namespace_not_found}

module _ (P : Db → Type 0) (laws : Laws P) where
  pub revoke-Keeps :
      (id : ℕ) (version : ℤ) (who : Text) → Keeps P (FactService.revoke id version who)
  unfolding FactService.revoke
  revoke-Keeps id version who = Keeps-in_tx P (
      Keeps->> P (Calls.revoke_with_version-Keeps P laws id version)
        (Calls.write-Keeps P laws (FactService.revoked_event who id)))

  expire_all-Keeps : (ids : List ℕ) → Keeps P (Reaper.expire_all ids)
  unfolding Reaper.expire_all
  expire_all-Keeps [] = Keeps-pure P
  expire_all-Keeps (id ∷ ids) =
      Keeps->> P
        (Keeps-exec P (
          laws.update_fact id Repo.any_row (Repo.stamp expired) (λ now f. (refl, refl, refl, refl))
            (λ now f. (refl, omega arith))))
        (Keeps->> P (Calls.write-Keeps P laws (Reaper.expired_event id)) (expire_all-Keeps ids))

  select_stale-Keeps : Keeps P Reaper.select_stale
  unfolding Reaper.select_stale
  select_stale-Keeps = Calls.Keeps-select P laws _

  count_expiring-Keeps : Keeps P Reaper.count_expiring
  unfolding Reaper.count_expiring
  count_expiring-Keeps = Calls.Keeps-select P laws _

  pub reap-Keeps : Keeps P Reaper.reap
  unfolding Reaper.reap
  reap-Keeps = Keeps-in_tx P (
      Keeps->>= P select_stale-Keeps λ ids. Keeps->> P (expire_all-Keeps ids) (
        Keeps->>= P count_expiring-Keeps
          λ soon. Keeps-pure P {a = record { expired = length ids; expiring_soon = soon }}))

  pub create-Keeps : (n : Namespace) → Keeps P (Registrar.create n)
  unfolding Registrar.create
  create-Keeps n = Keeps-on_pool P (Keeps-exec P (laws.insert_namespace (Registrar.with_policy n)))

  pub update_policy-Keeps : (id : ℕ) (p : Policy) → Keeps P (Registrar.update_policy id p)
  unfolding Registrar.update_policy
  update_policy-Keeps id p = Keeps-on_pool P (
      Keeps->>= P
        (Keeps-exec P (
          laws.set_namespaces (λ db. is_some (find Registrar.namespace_key id db.namespaces))
            (λ db. modify Registrar.namespace_key id (λ n. record n { policy = p }) db.namespaces)))
        (λ hit. Keeps-guard P hit namespace_not_found))
