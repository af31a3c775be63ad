-- ===== src/Examples/Rules.antt =====
-- The lifecycle, the keys, the roles and the engines of internal/facts, internal/rbac and
-- internal/autopromote at concrete inputs.
use baseline.Examples.Sample.{region}
use baseline.Facts.Key.{canonical_key}
use baseline.Facts.Key.Laws.{canonical_key-perm}
use baseline.Rbac.Matrix.{can_matrix, role_of, ticked}
use baseline.Rbac.Matrix
use baseline.Rbac.{can, Entitlements, may, roles_in}
use baseline.Rbac
use baseline.AutoPromote.{evaluate-fails_closed, Candidate, Engine, evaluate, get_engine}
use mathlib.Core.List.{Perm}
use mathlib.Core.List.Perm
use baseline.Prelude.{
  ℕ_discrete, Text-discrete, ◌≡◌, refl, true, none, some, List, [], ◌∷◌, Text, text,
}

abbrev swapped : List (Text × Text)
swapped = (text "app", text "web") ∷ (text "env", text "prod") ∷ []

region_swaps : Perm region.qualifiers swapped
region_swaps = Perm.swap (text "app", text "web") (text "env", text "prod") []

canonical_key-perm_example :
    canonical_key (record region { qualifiers = swapped }) ≡ canonical_key region
canonical_key-perm_example = canonical_key-perm region swapped region_swaps

can_matrix_example : can (role_of Matrix.reviewer) Rbac.revoke ≡ ticked Rbac.revoke Matrix.reviewer
can_matrix_example = can_matrix Matrix.reviewer Rbac.revoke

-- An engine that promotes everything.
abbrev eager : Engine
eager = record {
  id = text "eager";
  validate = λ rules. none;
  evaluate = λ c rules. (record { auto_promote = true; reason = []; matched_rule = none }, none);
}

abbrev blank : Candidate
blank = record {
  provenance_origin_type = [];
  provenance_source_kind = [];
  actor_type = [];
  tags = [];
  metadata = [];
}

eager_promotes : (evaluate (eager ∷ []) (text "eager") blank none).0.auto_promote ≡ true
unfolding evaluate get_engine Text-discrete ℕ_discrete
eager_promotes = refl

evaluate-fails_closed_example :
    ((evaluate (eager ∷ []) (text "eager") blank none).1 ≡ none)
    × ((e : Engine) × (get_engine (eager ∷ []) (text "eager") ≡ some e)
        × (e.evaluate blank none ≡ ((evaluate (eager ∷ []) (text "eager") blank none).0, none)))
evaluate-fails_closed_example =
    evaluate-fails_closed (eager ∷ []) (text "eager") blank none eager_promotes
