-- ===== src/Server.antt =====
-- internal/server: the HTTP handlers over the other packages. A handler is a function from a session to
-- a response and the session after it. `uuid.Parse`, the embedder, the memory back end and the distance
-- of vectors are parameters; a body is what `json.Decode` makes of it.
pub mod Respond
pub mod Auth
pub mod Facts
pub mod Promotions
pub mod Members
pub mod Spaces
pub mod Reading
pub mod Memories
pub mod Routes
use baseline.Audit.{Event}
use baseline.AutoPromote.{Registry}
use baseline.ContextSvc.{Item}
use baseline.Memory.{Memory, MemoryError, MemorySource, Writer}
use baseline.Facts.{Fact}
use baseline.Json.{Json}
use baseline.Namespaces.{Namespace}
use baseline.Prelude.{
  ℕ, Bool, true, false, ◌⊎◌, Option, none, some, List, [], ◌∷◌, if◌then◌else◌, ◌==◌, nat_eq, Text,
  text_eq, text,
}
use baseline.Promotions.Workflow.{Service}
use baseline.Promotions.{PromotionRequest}
use baseline.Rbac.{Principal, Entitlements, Role, Action, read_facts, may, may_read}
use baseline.Store.{Session, Error, Outcome, Tx, done, fail}

-- The parts of a request that the handlers read: the URL parameters `id` and `principal`, the query
-- and the headers.
pub record HttpRequest : Type 0 where
  pub id_param : Text
  pub principal_param : Text
  pub query : List (Text × Text)
  pub headers : List (Text × Text)

-- What `writeJSON` encodes; `error_of` is the text of an error, and `write_failed` that of a write that
-- the memory back end refused.
pub data Body : Type 0 where
  message : Text → Body
  error_of : Error → Body
  status_body : Text → Body
  fact_body : Fact → Body
  fact_list : List Fact → Body
  event_list : List Event → Body
  promotion_body : PromotionRequest → Body
  promotion_list : List PromotionRequest → Body
  namespace_body : Namespace → Body
  namespace_list : List Namespace → Body
  member_body : Text → Role → Body
  member_list : List (Text × Role) → Body
  item_list : List Item → Body
  memory_body : Memory → Body
  write_failed : MemoryError → Body

pub record Response : Type 0 where
  pub status : ℕ
  pub etag : Option ℕ
  pub body : Body

abbrev pub Reply : Type 0
Reply = Session → Response × Session

pub record Server : Type 0 where
  pub promos : Service
  pub engines : Registry
  pub embedder : Option (Text → Option (List ℕ))
  pub memories : Option MemorySource
  pub writer : Option Writer
  pub parse_uuid : Text → Option ℕ
  pub distance : List ℕ → List ℕ → ℕ

-- The values of the request's context.
pub record Context : Type 0 where
  pub principal : Option Principal
  pub entitlements : Option Entitlements

abbrev pub write_json : ℕ → Body → Reply
write_json code b s = (record { status = code; etag = none; body = b }, s)

abbrev pub write_error : ℕ → Text → Reply
write_error code msg = write_json code (message msg)

abbrev pub on_result : {A : Type 0} → Outcome A → (Error → Reply) → (A → Reply) → Response × Session
on_result (done a s) bad good = good a s
on_result (fail e s) bad good = bad e s

-- A call of another package, with what its error and its answer lead to.
abbrev pub call : {A : Type 0} → Tx A → (Error → Reply) → (A → Reply) → Reply
call m bad good s = on_result (m s) bad good

abbrev pub parsed : Option ℕ → Reply → (ℕ → Reply) → Reply
parsed none bad good = bad
parsed (some id) bad good = good id

unfoldable pub parse_id : Server → HttpRequest → (ℕ → Reply) → Reply
parse_id srv r next = parsed (srv.parse_uuid r.id_param) (write_error 400 (text "invalid id")) next

-- A body that does not decode is `none`.
abbrev pub decoded : {A : Type 0} → Option A → (A → Reply) → Reply
decoded none next = write_error 400 (text "invalid json")
decoded (some a) next = next a

abbrev pub id_or_blank : Option Principal → Text
id_or_blank none = []
id_or_blank (some p) = p.id

abbrev pub is_read : Action → Bool
is_read read_facts = true
is_read _ = false

abbrev pub permits_action : Entitlements → ℕ → Action → Bool
permits_action e ns a = if is_read a then may_read e ns else may e ns a

abbrev pub authorize_with : Option Entitlements → ℕ → Action → Reply → Reply
authorize_with none ns a next = write_error 500 (text "missing entitlements")
authorize_with (some e) ns a next =
    if permits_action e ns a then next else write_error 403 (text "forbidden")

unfoldable pub authorize : Context → ℕ → Action → Reply → Reply
unfolding may may_read
authorize ctx ns a next = authorize_with ctx.entitlements ns a next

abbrev pub is_platform_admin : Option Principal → Bool
is_platform_admin none = false
is_platform_admin (some p) = p.platform_admin

unfoldable pub require_platform_admin : Context → Reply → Reply
require_platform_admin ctx next =
    if is_platform_admin ctx.principal
    then next
    else write_error 403 (text "platform_admin required")

abbrev pub entitled_with : Option Entitlements → (Entitlements → Reply) → Reply
entitled_with none next = write_error 500 (text "missing entitlements")
entitled_with (some e) next = next e

-- A handler that the middleware has not prepared answers 500.
abbrev pub entitled : Context → (Entitlements → Reply) → Reply
entitled ctx next = entitled_with ctx.entitlements next
