-- ===== src/Namespaces.antt =====
-- internal/namespaces/namespaces.go: an owning scope and its governance policy.
pub mod Repo
use baseline.Prelude.{
  ℕ, Bool, true, false, ◌&&◌, Option, none, some, List, ◌==◌, nat_eq, Text, text_eq, text,
}
use baseline.Json.{Json}

pub data Kind : Type 0 where
  user team project org : Kind

-- `rules` is raw JSON; `none` is the empty message.
pub record AutoPromote : Type 0 where
  pub engine : Text
  pub rules : Option Json

-- `none` in `allowed_proposers` is the nil slice.
pub record Policy : Type 0 where
  pub required_approvals : ℕ
  pub allowed_proposers : Option (List Text)
  pub auto_promote : Option AutoPromote

pub record Namespace : Type 0 where
  pub id : ℕ
  pub name : Text
  pub kind : Kind
  pub parent_id : Option ℕ
  pub policy : Policy
  pub created_at : ℕ

abbrev pub is_nil {ℓ} : {A : Type ℓ} → Option A → Bool
is_nil none = true
is_nil (some _) = false

unfoldable pub is_zero : Policy → Bool
is_zero p = p.required_approvals == 0 && is_nil p.allowed_proposers && is_nil p.auto_promote

unfoldable pub approvals_policy : ℕ → Policy
approvals_policy n = record {
  required_approvals = n;
  allowed_proposers = none;
  auto_promote = none;
}

unfoldable pub default_policy : Kind → Policy
unfolding approvals_policy
default_policy org = approvals_policy 2
default_policy team = record (approvals_policy 1) {
  auto_promote = some (record { engine = text "simple/v1"; rules = none });
}
default_policy _ = approvals_policy 1
