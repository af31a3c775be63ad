-- ===== src/McpClient/Arguments.antt =====
-- cmd/baseline-mcp/main.go: the tool is taken out of the arguments, and nothing else.
use baseline.McpClient.{is_flag}
use baseline.Prelude.{◌≡◌, ◌⊎◌, false, List, [], ◌∷◌, ◌++◌, text_eq, Text}

-- No tool was found, and every argument is kept; or the tool is one of them, and the others are kept in
-- their order.
abbrev pub Parted : List Text → Text × List Text → Type 0
Parted argv (tool, rest) =
    ((tool ≡ []) × (rest ≡ argv))
    ⊎ ((before : List Text) × (behind : List Text) × (argv ≡ before ++ tool ∷ behind)
        × (rest ≡ before ++ behind)
        × (is_flag tool ≡ false))
