-- ===== src/Server/Auth.antt =====
-- internal/server/auth.go: the middleware that authenticates a request and resolves what its principal
-- is entitled to. `strings.EqualFold` with "true" compares lower-cased ASCII.
use baseline.Facts.Key.{trim_space, to_lower}
use baseline.Prelude.{some, [], if◌then◌else◌, ◌==◌, nat_eq, text_eq, text}
use baseline.Rbac.Resolve.{resolve}
use baseline.Rbac.{Principal, Entitlements}
use baseline.Server.Respond.{get_value}
use baseline.Server.{HttpRequest, Context, Reply, write_error, call}

-- What an `Authenticator` returns.
pub data Authenticated : Type 0 where
  identified : Principal → Authenticated
  unauthenticated auth_error : Authenticated

unfoldable pub header_authenticate : HttpRequest → Authenticated
unfolding get_value trim_space to_lower
header_authenticate r =
    let id = trim_space (get_value (text "X-Baseline-Principal") r.headers) in
    let admin = to_lower (get_value (text "X-Baseline-Platform-Admin") r.headers) == text "true" in
    if id == [] then unauthenticated else identified (record { id = id; platform_admin = admin })

abbrev pub context_of : Principal → Entitlements → Context
context_of p e = record { principal = some p; entitlements = some e }

abbrev pub authn_with : Authenticated → (Context → Reply) → Reply
authn_with unauthenticated next = write_error 401 (text "unauthenticated")
authn_with auth_error next = write_error 500 (text "auth error")
authn_with (identified p) next =
    call (resolve p) (λ e. write_error 500 (text "entitlement resolution failed"))
      (λ ent. next (context_of p ent))

unfoldable pub authn : (HttpRequest → Authenticated) → HttpRequest → (Context → Reply) → Reply
unfolding resolve
authn authenticate r next = authn_with (authenticate r) next
