-- ===== src/Facts/Lifecycle.antt =====
-- internal/facts/statemachine.go: which lifecycle transition is legal from which status.
use baseline.Prelude.{
  ◌≡◌, refl, Bool, true, false, Option, none, some, arith, if◌then◌else◌, ◌==◌, ◌↔◌, nat_eq,
  text_eq,
}
use baseline.Facts.{
  Status, proposed, in_review, active, superseded, revoked, expired, rejected, Status-discrete,
  status_eq,
}

pub data Transition : Type 0 where
  submit withdraw approve reject request_changes supersede revoke expire : Transition

pub record Rule : Type 0 where
  pub from : Status
  pub to : Status

-- The table `allowed`. A lookup of a string that names no transition has no counterpart here.
unfoldable pub allowed : Transition → Rule
allowed submit = record { from = proposed; to = in_review }
allowed withdraw = record { from = proposed; to = rejected }
allowed approve = record { from = in_review; to = active }
allowed reject = record { from = in_review; to = rejected }
allowed request_changes = record { from = in_review; to = proposed }
allowed supersede = record { from = active; to = superseded }
allowed revoke = record { from = active; to = revoked }
allowed expire = record { from = active; to = expired }

-- `none` is the result `"", false`.
unfoldable pub can_transition : Status → Transition → Option Status
unfolding allowed
can_transition current t = if (allowed t).from == current then some (allowed t).to else none

unfoldable pub is_terminal : Status → Bool
is_terminal superseded = true
is_terminal revoked = true
is_terminal expired = true
is_terminal rejected = true
is_terminal _ = false

-- The arrows of the lifecycle diagram of docs/SPEC.md, section 5, drawn independently of the table.
infix 40 ◌⟶◌
pub data ◌⟶◌ : Status → Status → Type 0 where
  to_review : proposed ⟶ in_review
  to_author : in_review ⟶ proposed
  abandon : proposed ⟶ rejected
  decline : in_review ⟶ rejected
  accept : in_review ⟶ active
  replace : active ⟶ superseded
  withdraw_fact : active ⟶ revoked
  lapse : active ⟶ expired

ruleset arrows = (to_review, to_author, abandon, decline, accept, replace, withdraw_fact, lapse)

can_transition-⟶ : (s : Status) (t : Transition) {u : Status} → can_transition s t ≡ some u → s ⟶ u
unfolding can_transition Status-discrete
can_transition-⟶ s t h = grind (arith, arrows)

⟶-can_transition : {s u : Status} → s ⟶ u → (t : Transition) × (can_transition s t ≡ some u)
unfolding can_transition Status-discrete
⟶-can_transition to_review = (submit, refl)
⟶-can_transition to_author = (request_changes, refl)
⟶-can_transition abandon = (withdraw, refl)
⟶-can_transition decline = (reject, refl)
⟶-can_transition accept = (approve, refl)
⟶-can_transition replace = (supersede, refl)
⟶-can_transition withdraw_fact = (revoke, refl)
⟶-can_transition lapse = (expire, refl)

-- The table admits a step from one status to another exactly when the diagram has that arrow.
pub can_transition_iff_arrow :
    (s u : Status) → ((t : Transition) × (can_transition s t ≡ some u)) ↔ (s ⟶ u)
can_transition_iff_arrow s u = (λ p. can_transition-⟶ s p.0 p.1, ⟶-can_transition)

-- A status is terminal exactly when no transition is legal from it.
pub is_terminal_iff_stuck :
    (s : Status) → (is_terminal s ≡ true) ↔ ((t : Transition) → can_transition s t ≡ none)
unfolding is_terminal can_transition Status-discrete
is_terminal_iff_stuck proposed = (λ h. cc, λ h. cc (h submit))
is_terminal_iff_stuck in_review = (λ h. cc, λ h. cc (h approve))
is_terminal_iff_stuck active = (λ h. cc, λ h. cc (h revoke))
is_terminal_iff_stuck superseded = (λ h t. ground arith, λ h. refl)
is_terminal_iff_stuck revoked = (λ h t. ground arith, λ h. refl)
is_terminal_iff_stuck expired = (λ h t. ground arith, λ h. refl)
is_terminal_iff_stuck rejected = (λ h t. ground arith, λ h. refl)
