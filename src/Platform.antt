-- ===== src/Platform.antt =====
-- internal/platform/config.go: the configuration, from the variables of the environment. A variable that
-- is not set reads as the empty text.
pub mod Closed
use baseline.Facts.Key.{to_lower}
use baseline.Prelude.{
  ℕ, Bool, true, false, ◌⊎◌, inl, inr, ◌&&◌, ◌||◌, not, if◌then◌else◌, ◌==◌, nat_eq, text_eq, Text,
  text, ℤ, pos_part, ltb, Option, none, some, [],
}
use baseline.Server.Respond.{atoi}

pub data MemorySourceKind : Type 0 where
  memory_mem0 memory_zep memory_letta memory_none : MemorySourceKind

pub record Config : Type 0 where
  pub addr : Text
  pub database_url : Text
  pub memory_source : MemorySourceKind
  pub mem0_url : Text
  pub mem0_api_key : Text
  pub embedder_url : Text
  pub embedder_model : Text
  pub embedder_dims : ℕ
  pub oidc_issuer : Text
  pub oidc_audience : Text

pub data ConfigError : Type 0 where
  bad_embedder_dims no_database_url no_mem0_url : ConfigError
  unknown_memory_source : Text → ConfigError

abbrev pub Env : Type 0
Env = Text → Text

unfoldable pub env_or : Env → Text → Text → Text
env_or env key def = if env key == [] then def else env key

unfoldable pub kind_of : Text → Option MemorySourceKind
kind_of t =
    if t == text "mem0"
    then some memory_mem0
    else if t == text "zep"
    then some memory_zep
    else if t == text "letta"
    then some memory_letta
    else if t == text "none"
    then some memory_none
    else none

-- The number, where there is no error and it is positive.
abbrev pub positive : ℤ × Bool → Option ℕ
positive (n, ok) = if not ok || not (ltb 0 (pos_part n)) then none else some (pos_part n)

abbrev pub config_of : Env → MemorySourceKind → ℕ → Config
config_of env kind dims = record {
  addr = env_or env (text "BASELINE_ADDR") (text ":8080");
  database_url = env (text "DATABASE_URL");
  memory_source = kind;
  mem0_url = env (text "MEM0_URL");
  mem0_api_key = env (text "MEM0_API_KEY");
  embedder_url = env (text "EMBEDDER_URL");
  embedder_model = env_or env (text "EMBEDDER_MODEL") (text "nomic-embed-text");
  embedder_dims = dims;
  oidc_issuer = env (text "OIDC_ISSUER");
  oidc_audience = env (text "OIDC_AUDIENCE");
}

abbrev pub checked_source : Env → ℕ → Text → Option MemorySourceKind → Config ⊎ ConfigError
checked_source env dims name none = inr (unknown_memory_source name)
checked_source env dims name (some memory_mem0) =
    if env (text "MEM0_URL") == [] then inr no_mem0_url else inl (config_of env memory_mem0 dims)
checked_source env dims name (some kind) = inl (config_of env kind dims)

abbrev pub checked_dims : Env → Text → Option ℕ → Config ⊎ ConfigError
checked_dims env name none = inr bad_embedder_dims
checked_dims env name (some dims) =
    if env (text "DATABASE_URL") == []
    then inr no_database_url
    else checked_source env dims name (kind_of name)

unfoldable pub load : Env → Config ⊎ ConfigError
unfolding env_or kind_of to_lower atoi
load env =
    let name = to_lower (env_or env (text "MEMORY_SOURCE") (text "mem0")) in
    checked_dims env name (positive (atoi (env_or env (text "EMBEDDER_DIMS") (text "768"))))
