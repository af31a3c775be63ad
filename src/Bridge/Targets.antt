-- ===== src/Bridge/Targets.antt =====
-- internal/mcpbridge/mcpbridge.go: the paths that the tools on a promotion request.
use baseline.Bridge.Tools.{review_actions}
use baseline.Prelude.{contains, ◌≡◌, false, List, ◌∷◌, Text, text, nat_eq}

-- The last parts of the paths.
abbrev pub promotion_actions : List Text
promotion_actions = text "submit" ∷ review_actions

abbrev Unmarked : Text → Type 0
Unmarked a = (contains b'/' a ≡ false) × (contains b'?' a ≡ false)
