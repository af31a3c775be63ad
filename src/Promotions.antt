-- ===== src/Promotions.antt =====
-- internal/promotions/promotion.go: a promotion request, its review log and the approval count.
pub mod Approvals
pub mod Repo
pub mod Workflow
use baseline.Prelude.{
  ℕ, Bool, ◌&&◌, not, Option, List, [], ◌∷◌, ◌++◌, length, any, contains, leb, if◌then◌else◌, ◌==◌,
  nat_eq, Text, text_eq, text, Eq,
}
use baseline.Facts.{status_eq}

pub data State : Type 0 where
  pending in_review changes_requested approved rejected : State

unfoldable pub State-discrete : Discrete State
State-discrete = hlevel

instance abbrev pub state_eq : Eq State
state_eq = record { decide_eq = State-discrete }

-- `string(s)`: the text of a state constant.
unfoldable pub state_text : State → Text
state_text pending = text "pending"
state_text in_review = text "in_review"
state_text changes_requested = text "changes_requested"
state_text approved = text "approved"
state_text rejected = text "rejected"

pub data Decision : Type 0 where
  approve reject request_changes : Decision

unfoldable pub Decision-discrete : Discrete Decision
Decision-discrete = hlevel

instance abbrev pub decision_eq : Eq Decision
decision_eq = record { decide_eq = Decision-discrete }

pub record Review : Type 0 where
  pub reviewer : Text
  pub decision : Decision
  pub comment : Text
  pub at : ℕ

pub record PromotionRequest : Type 0 where
  pub id : ℕ
  pub fact_id : ℕ
  pub target_namespace_id : ℕ
  pub proposed_statement : Text
  pub state : State
  pub candidate_memory_ids : List Text
  pub proposer : Text
  pub reviews : List Review
  pub required_approvals : ℕ
  pub conflict_with : Option ℕ
  pub idempotency_key : Option Text
  pub created_at : ℕ
  pub updated_at : ℕ

-- `out[k] = struct{}{}` on a map that serves as a set.
unfoldable pub add_key : Text → List Text → List Text
unfolding contains
add_key k ks = if contains k ks then ks else ks ++ k ∷ []

-- One round of the loop of `distinctApprovers`.
unfoldable pub collect : Text → List Text → Review → List Text
collect proposer out r =
    if not (r.decision == approve)
    then out
    else if r.reviewer == proposer
    then out
    else add_key r.reviewer out

unfoldable pub distinct_approvers_from : Text → List Text → List Review → List Text
distinct_approvers_from proposer out [] = out
distinct_approvers_from proposer out (r ∷ rs) =
    distinct_approvers_from proposer (collect proposer out r) rs

unfoldable pub distinct_approvers : PromotionRequest → List Text
unfolding distinct_approvers_from
distinct_approvers p = distinct_approvers_from p.proposer [] p.reviews

unfoldable pub approval_count : PromotionRequest → ℕ
approval_count p = length (distinct_approvers p)

unfoldable pub has_enough_approvals : PromotionRequest → Bool
has_enough_approvals p = leb p.required_approvals (approval_count p)

unfoldable pub already_approved_by : PromotionRequest → Text → Bool
unfolding any
already_approved_by p reviewer =
    any (λ r. r.reviewer == reviewer && r.decision == approve) p.reviews
