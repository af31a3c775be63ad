-- ===== src/Server/Routes/Permitted.antt =====
-- internal/server, against the permission matrix of docs/SPEC.md: whom a route lets change the database.
use baseline.Facts.Repo.{fact_key}
use baseline.Facts.{Fact}
use baseline.Prelude.{ℕ, ◌≡◌, refl, false, Option, none, some, Text}
use baseline.Promotions.Repo.{promotion_key}
use baseline.Promotions.{PromotionRequest}
use baseline.Rbac.{Action}
use baseline.Server.Promotions.{
  ProposeReq, ReviewAction, submit, approve, reject, request_changes, withdraw,
}
use baseline.Server.Routes.{
  Route, namespaces_get, namespaces_post, namespace_get, namespace_patch, members_get, members_post,
  member_delete, promotions_post, promotions_get, promotion_get, promotion_post, facts_get,
  fact_get, fact_history_get, fact_patch, context_get, memories_post,
}
use baseline.Server.{is_read}
use baseline.Store.Table.{find}
use baseline.Store.{Db}

-- What a change of the database by way of a route asks of the caller `who`: `Admin` says that it is a
-- platform admin, and `Can ns a` that it may do `a` in the namespace `ns`.
module _ (db : Db) (id : Option ℕ) (who : Text) (Admin : Type 0) (Can : ℕ → Action → Type 0) where
  abbrev pub MayAct : ReviewAction → PromotionRequest → Type 0
  MayAct submit p = p.proposer ≡ who
  MayAct withdraw p = p.proposer ≡ who
  MayAct _ p = Can p.target_namespace_id Action.approve_reject

  abbrev pub MayPropose : Option ProposeReq → Type 0
  MayPropose none = ⊥
  MayPropose (some req) = Can req.target_namespace Action.propose

  abbrev pub Permitted : Route → Type 0
  Permitted (namespaces_post body) = Admin
  Permitted (namespace_patch body) = (ns : ℕ) × (id ≡ some ns) × Can ns Action.manage
  Permitted (members_post body) = (ns : ℕ) × (id ≡ some ns) × Can ns Action.manage
  Permitted member_delete = (ns : ℕ) × (id ≡ some ns) × Can ns Action.manage
  Permitted (promotions_post body) = MayPropose body
  Permitted (promotion_post action body) =
      (p : PromotionRequest) × (k : ℕ) × (id ≡ some k)
      × (find promotion_key k db.promotions ≡ some p)
      × MayAct action p
  Permitted fact_patch =
      (f : Fact) × (k : ℕ) × (id ≡ some k)
      × (find fact_key k db.facts ≡ some f)
      × Can f.namespace_id Action.revoke
  Permitted _ = ⊥

-- Another sense of being able, which is only asked about actions that write.
module _ (db : Db) (id : Option ℕ) (who : Text) (Admin Admin' : Type 0)
    (Can Can' : ℕ → Action → Type 0) (admin : Admin → Admin')
    (can : (ns : ℕ) (a : Action) → is_read a ≡ false → Can ns a → Can' ns a) where
  MayAct-map :
      (action : ReviewAction) (p : PromotionRequest)
      → MayAct db id who Admin Can action p
      → MayAct db id who Admin' Can' action p
  MayAct-map submit p h = h
  MayAct-map withdraw p h = h
  MayAct-map approve p h = can _ _ refl h
  MayAct-map reject p h = can _ _ refl h
  MayAct-map request_changes p h = can _ _ refl h

  pub Permitted-map :
      (route : Route) → Permitted db id who Admin Can route → Permitted db id who Admin' Can' route
  Permitted-map (namespaces_post body) h = admin h
  Permitted-map (namespace_patch body) (ns, q, h) = (ns, q, can ns _ refl h)
  Permitted-map (members_post body) (ns, q, h) = (ns, q, can ns _ refl h)
  Permitted-map member_delete (ns, q, h) = (ns, q, can ns _ refl h)
  Permitted-map (promotions_post none) h = h
  Permitted-map (promotions_post (some req)) h = can _ _ refl h
  Permitted-map (promotion_post action body) (p, k, q, found, h) =
      (p, k, q, found, MayAct-map action p h)
  Permitted-map fact_patch (f, k, q, found, h) = (f, k, q, found, can _ _ refl h)
  Permitted-map namespaces_get h = h
  Permitted-map namespace_get h = h
  Permitted-map members_get h = h
  Permitted-map promotions_get h = h
  Permitted-map promotion_get h = h
  Permitted-map facts_get h = h
  Permitted-map fact_get h = h
  Permitted-map fact_history_get h = h
  Permitted-map context_get h = h
  Permitted-map (memories_post body) h = h
