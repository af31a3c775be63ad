-- ===== src/Json.antt =====
-- The JSON documents that the program keeps undecoded (`json.RawMessage`) or decodes into `any`
-- (internal/facts/fact.go, internal/namespaces/namespaces.go).
use baseline.Prelude.{Bool, Text}

-- A number is the text that `%v` prints for the `float64` it decodes into.
mutual
  pub data Json : Type 0 where
    null : Json
    boolean : Bool → Json
    number : Text → Json
    string : Text → Json
    array : Items → Json
    object : Members → Json

  pub data Items : Type 0 where
    nil : Items
    cons : Json → Items → Items

  pub data Members : Type 0 where
    end : Members
    member : Text → Json → Members → Members
