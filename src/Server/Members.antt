-- ===== src/Server/Members.antt =====
-- internal/server/handlers_members.go.
use baseline.Prelude.{◌||◌, Option, [], map, if◌then◌else◌, ◌==◌, nat_eq, Text, text_eq, text}
use baseline.Rbac as Rbac
use baseline.Rbac.Repo as Grants
use baseline.Rbac.{Action, Role}
use baseline.Server.Respond.{get_value}
use baseline.Server.{
  HttpRequest, Server, Context, Reply, write_json, write_error, call, parse_id, authorize, decoded,
  status_body, member_body, member_list,
}
use baseline.Store.{Error, invalid_role}

abbrev pub member_view : Role × Text → Text × Role
member_view (role, principal) = (principal, role)

unfoldable pub list_members_handler : Server → Context → HttpRequest → Reply
unfolding parse_id authorize Grants.list_members
list_members_handler srv ctx r = parse_id srv r λ id. authorize ctx id Rbac.read_facts (
    call (Grants.list_members id) (λ err. write_error 500 (text "list members failed"))
      (λ ms. write_json 200 (member_list (map member_view ms))))

pub record AddMemberReq : Type 0 where
  pub principal : Text
  pub role : Role

abbrev pub grant_failed : Error → Reply
grant_failed invalid_role = write_error 400 (text "invalid role")
grant_failed _ = write_error 500 (text "grant failed")

unfoldable pub add_member : Server → Context → HttpRequest → Option AddMemberReq → Reply
unfolding parse_id authorize Grants.grant
add_member srv ctx r body = parse_id srv r λ id. authorize ctx id Action.manage (
    decoded body λ req.
      if req.principal == []
      then write_error 400 (text "principal required")
      else call (Grants.grant req.principal id req.role) grant_failed
          (λ done. write_json 201 (member_body req.principal req.role)))

unfoldable pub remove_member : Server → Context → HttpRequest → Reply
unfolding parse_id authorize get_value Grants.revoke_grant
remove_member srv ctx r = parse_id srv r λ id. authorize ctx id Action.manage (
    let role = get_value (text "role") r.query in
    if r.principal_param == [] || role == []
    then write_error 400 (text "principal and ?role= required")
    else call (Grants.revoke_grant r.principal_param id role)
        (λ err. write_error 500 (text "revoke failed"))
        (λ done. write_json 200 (status_body (text "revoked"))))
