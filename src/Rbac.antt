-- ===== src/Rbac.antt =====
-- internal/rbac/rbac.go and internal/rbac/principal.go: the permission matrix and what a principal
-- is entitled to. A role is the text that a membership row holds.
pub mod Matrix
pub mod Repo
pub mod Resolve
use baseline.Prelude.{
  ℕ, Bool, true, false, ◌||◌, Option, none, some, List, [], ◌∷◌, any, contains, leb, if◌then◌else◌,
  ◌==◌, nat_eq, Text, text_eq, text,
}
use baseline.Facts.{status_eq}
use baseline.Promotions.{state_eq, decision_eq}

abbrev pub Role : Type 0
Role = Text

abbrev pub role_reader : Role
role_reader = text "reader"

abbrev pub role_contributor : Role
role_contributor = text "contributor"

abbrev pub role_reviewer : Role
role_reviewer = text "reviewer"

abbrev pub role_admin : Role
role_admin = text "namespace_admin"

unfoldable pub valid_role : Role → Bool
valid_role r = r == role_reader || r == role_contributor || r == role_reviewer || r == role_admin

pub data Action : Type 0 where
  read_facts propose approve_reject revoke manage : Action

-- The table `rank`: `none` is a role that it lacks.
unfoldable pub rank : Role → Option ℕ
rank r =
    if r == role_reader
    then some 0
    else if r == role_contributor
    then some 1
    else if r == role_reviewer
    then some 2
    else if r == role_admin
    then some 3
    else none

unfoldable pub min_role : Action → Role
min_role read_facts = role_reader
min_role propose = role_contributor
min_role approve_reject = role_reviewer
min_role revoke = role_reviewer
min_role manage = role_admin

-- A Go map gives 0 for a key that it lacks.
abbrev pub or_zero : Option ℕ → ℕ
or_zero none = 0
or_zero (some n) = n

unfoldable pub can : Role → Action → Bool
unfolding rank min_role
can r a = elim (rank r) [ none ↦ false | some have ↦ leb (or_zero (rank (min_role a))) have ]

unfoldable pub can_any : List Role → Action → Bool
unfolding any
can_any roles a = any (λ r. can r a) roles

pub record Principal : Type 0 where
  pub id : Text
  pub platform_admin : Bool

-- `direct` lists the roles per namespace; `readable` is the set of readable namespaces.
pub record Entitlements : Type 0 where
  pub principal : Principal
  pub direct : List (ℕ × List Role)
  pub readable : List ℕ

unfoldable pub roles_in : List (ℕ × List Role) → ℕ → List Role
roles_in [] ns = []
roles_in ((n, roles) ∷ rest) ns = if n == ns then roles else roles_in rest ns

unfoldable pub may : Entitlements → ℕ → Action → Bool
unfolding roles_in
may e ns a = if e.principal.platform_admin then true else can_any (roles_in e.direct ns) a

unfoldable pub may_read : Entitlements → ℕ → Bool
unfolding contains
may_read e ns = if e.principal.platform_admin then true else contains ns e.readable
