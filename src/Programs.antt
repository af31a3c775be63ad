-- ===== src/Programs.antt =====
-- cmd/baseline/main.go: what the program runs, and which adapters it gives to the server.
pub mod Wiring
use baseline.Embed.{Client, new_client}
use baseline.HttpClient.{Transport}
use baseline.Memory.Mem0.{Mem0Memory, Mem0, connect, source_of, add}
use baseline.Memory.{MemorySource, Writer, null_source}
use baseline.Platform.{Config, Env, MemorySourceKind, memory_mem0}
use baseline.Prelude.{
  ℕ, Bool, Option, none, some, List, [], if◌then◌else◌, ◌==◌, text_eq, Text, text,
}

pub data Mode : Type 0 where
  reap_mode backfill_mode : Mode
  stdio_mode : Text → Mode
  http_mode : Bool → Mode

abbrev pub is_on : Env → Text → Bool
is_on env key = env key == text "true"

-- The first of the modes that the environment asks for; `http_mode` says whether /mcp is mounted.
unfoldable pub mode_of : Env → Mode
mode_of env =
    if is_on env (text "BASELINE_REAP")
    then reap_mode
    else if is_on env (text "BASELINE_EMBED_BACKFILL")
    then backfill_mode
    else if is_on env (text "BASELINE_MCP_STDIO")
    then stdio_mode (env (text "BASELINE_MCP_PRINCIPAL"))
    else http_mode (is_on env (text "BASELINE_MCP_HTTP"))

unfoldable pub build_embedder : Transport → (Text → Option (List ℕ)) → Config → Option Client
unfolding new_client
build_embedder send decode cfg =
    if cfg.embedder_url == []
    then none
    else some (new_client send decode cfg.embedder_url cfg.embedder_model cfg.embedder_dims)

-- The source, and the writer that the server finds in it.
pub record Backend : Type 0 where
  pub source : MemorySource
  pub writer : Option Writer

abbrev pub standards_only : Backend
standards_only = record { source = null_source; writer = none }

abbrev pub mem0_backend : Mem0 → Backend
mem0_backend s = record { source = source_of s; writer = some (add s) }

abbrev pub backend_of : MemorySourceKind → Mem0 → Backend
backend_of memory_mem0 s = mem0_backend s
backend_of _ s = standards_only

unfoldable pub memory_source :
    Transport → (Text → Option (List Mem0Memory)) → (Text → Option Mem0Memory) → Config → Backend
unfolding connect
memory_source send decode_list decode_memory cfg =
    backend_of cfg.memory_source
      (connect send decode_list decode_memory cfg.mem0_url cfg.mem0_api_key)
