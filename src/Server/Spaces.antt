-- ===== src/Server/Spaces.antt =====
-- internal/server/handlers_namespaces.go.
use baseline.AutoPromote.{validate_policy, EngineError}
use baseline.Namespaces.Repo as Registrar
use baseline.Namespaces.{Namespace, Kind, Policy, AutoPromote}
use baseline.Prelude.{
  ℕ, Bool, false, Option, none, some, [], filter, if◌then◌else◌, ◌==◌, nat_eq, Text, text_eq, text,
}
use baseline.Rbac as Rbac
use baseline.Rbac.{Action, Entitlements, may_read}
use baseline.Server.{
  HttpRequest, Server, Context, Reply, write_json, write_error, call, parse_id, authorize, decoded,
  require_platform_admin, status_body, namespace_body, namespace_list,
}
use baseline.Store.{Error, namespace_not_found}

-- The zero entitlements of a context without any read nothing.
abbrev pub reads : Option Entitlements → ℕ → Bool
reads none id = false
reads (some e) id = may_read e id

unfoldable pub list_namespaces : Server → Context → Reply
unfolding Registrar.list filter may_read
list_namespaces srv ctx =
    call Registrar.list (λ err. write_error 500 (text "list failed"))
      (λ all. write_json 200 (namespace_list (filter (λ n. reads ctx.entitlements n.id) all)))

pub record CreateNamespaceReq : Type 0 where
  pub name : Text
  pub kind : Text
  pub parent_id : Option ℕ
  pub policy : Option Policy

-- `validKind`, with the kind that a valid text names.
unfoldable pub valid_kind : Text → Option Kind
valid_kind k =
    if k == text "user"
    then some Kind.user
    else if k == text "team"
    then some Kind.team
    else if k == text "project"
    then some Kind.project
    else if k == text "org"
    then some Kind.org
    else none

abbrev pub blank_policy : Policy
blank_policy = record { required_approvals = 0; allowed_proposers = none; auto_promote = none }

abbrev pub or_blank_policy : Option Policy → Policy
or_blank_policy none = blank_policy
or_blank_policy (some p) = p

-- The statement sets the ID and the time.
abbrev pub requested : CreateNamespaceReq → Kind → Namespace
requested req kind = record {
  id = 0;
  name = req.name;
  kind = kind;
  parent_id = req.parent_id;
  policy = or_blank_policy req.policy;
  created_at = 0;
}

abbrev pub create_kind : CreateNamespaceReq → Option Kind → Reply
create_kind req none = write_error 400 (text "name and valid kind required")
create_kind req (some kind) =
    if req.name == []
    then write_error 400 (text "name and valid kind required")
    else call (Registrar.create (requested req kind))
        (λ err. write_error 500 (text "create failed"))
        (λ created. write_json 201 (namespace_body created))

unfoldable pub create_namespace : Server → Context → Option CreateNamespaceReq → Reply
unfolding require_platform_admin valid_kind Registrar.create
create_namespace srv ctx body =
    require_platform_admin ctx (decoded body λ req. create_kind req (valid_kind req.kind))

abbrev pub namespace_failed : Text → Error → Reply
namespace_failed msg namespace_not_found = write_error 404 (text "not found")
namespace_failed msg _ = write_error 500 msg

unfoldable pub get_namespace : Server → Context → HttpRequest → Reply
unfolding parse_id authorize Registrar.get
get_namespace srv ctx r = parse_id srv r λ id. authorize ctx id Rbac.read_facts (
    call (Registrar.get id) (namespace_failed (text "get failed"))
      (λ n. write_json 200 (namespace_body n)))

-- The engine of a policy, if it names one, has to accept its rules.
unfoldable pub check_policy : Server → Option AutoPromote → Option EngineError
unfolding validate_policy
check_policy srv none = none
check_policy srv (some ap) =
    if ap.engine == [] then none else validate_policy srv.engines ap.engine ap.rules

abbrev pub update_checked : ℕ → Policy → Option EngineError → Reply
update_checked id p (some err) = write_error 400 (text "invalid auto_promote policy")
update_checked id p none =
    call (Registrar.update_policy id p) (namespace_failed (text "update failed"))
      (λ done. write_json 200 (status_body (text "updated")))

unfoldable pub patch_namespace_policy : Server → Context → HttpRequest → Option Policy → Reply
unfolding parse_id authorize check_policy Registrar.update_policy
patch_namespace_policy srv ctx r body = parse_id srv r λ id.
    authorize ctx id Action.manage
      (decoded body λ p. update_checked id p (check_policy srv p.auto_promote))
