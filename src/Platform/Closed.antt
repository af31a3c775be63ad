-- ===== src/Platform/Closed.antt =====
-- internal/platform/config.go: the configuration fails closed.
use baseline.Facts.Key.{to_lower}
use baseline.Platform.{
  Config, Env, MemorySourceKind, memory_mem0, memory_zep, memory_letta, memory_none, load, env_or,
  kind_of, positive, config_of, checked_source, checked_dims,
}
use baseline.Prelude.{
  ℕ, ◌≡◌, subst, refl, inl, inr, Bool, true, false, Option, none, some, Text, text, ◌==◌, nat_eq,
  text_eq, ◌<◌, arith, ℤ, [], Bool-cases,
}
use baseline.Server.Respond.{atoi}

-- The name that the configuration gives to a kind.
abbrev pub kind_name : MemorySourceKind → Text
kind_name memory_mem0 = text "mem0"
kind_name memory_zep = text "zep"
kind_name memory_letta = text "letta"
kind_name memory_none = text "none"

-- What the environment has to hold for a configuration to be returned.
pub record Complete (env : Env) (c : Config) : Type 0 where
  pub has_database : (c.database_url == []) ≡ false
  pub dims_positive : 0 < c.embedder_dims
  pub dims_read :
      atoi (env_or env (text "EMBEDDER_DIMS") (text "768")) ≡ (ℤ.pos c.embedder_dims, true)
  pub named : to_lower (env_or env (text "MEMORY_SOURCE") (text "mem0")) ≡ kind_name c.memory_source
  pub mem0_located : c.memory_source ≡ memory_mem0 → (c.mem0_url == []) ≡ false

abbrev Located : Env → MemorySourceKind → Type 0
Located env kind = kind ≡ memory_mem0 → (env (text "MEM0_URL") == []) ≡ false

checked_source-inl :
    (env : Env) (dims : ℕ) (name : Text) (o : Option MemorySourceKind) (c : Config)
    → checked_source env dims name o ≡ inl c
    → (kind : MemorySourceKind) × (o ≡ some kind) × (config_of env kind dims ≡ c) × Located env kind
checked_source-inl env dims name none c h = cc
checked_source-inl env dims name (some memory_mem0) c h =
    (memory_mem0, refl, ground arith, λ e. ground arith)
checked_source-inl env dims name (some memory_zep) c h = (memory_zep, refl, ground arith, λ e. cc)
checked_source-inl env dims name (some memory_letta) c h =
    (memory_letta, refl, ground arith, λ e. cc)
checked_source-inl env dims name (some memory_none) c h = (memory_none, refl, ground arith, λ e. cc)

kind_of-named : (t : Text) (k : MemorySourceKind) → kind_of t ≡ some k → t ≡ kind_name k
unfolding kind_of
kind_of-named t k h = ground arith

positive-read : (r : ℤ × Bool) (d : ℕ) → positive r ≡ some d → (r ≡ (ℤ.pos d, true)) × (0 < d)
positive-read (ℤ.pos n, true) d h = ground arith
positive-read (ℤ.pos n, false) d h = ground arith
positive-read (ℤ.negsuc n, true) d h = ground arith
positive-read (ℤ.negsuc n, false) d h = ground arith

checked_dims-inl :
    (env : Env) (name : Text) (o : Option ℕ) (c : Config)
    → checked_dims env name o ≡ inl c
    → (dims : ℕ) × (o ≡ some dims)
      × ((env (text "DATABASE_URL") == []) ≡ false)
      × (kind : MemorySourceKind) × (kind_of name ≡ some kind)
      × (config_of env kind dims ≡ c)
      × Located env kind
checked_dims-inl env name none c h = cc
checked_dims-inl env name (some dims) c h = elim (Bool-cases (env (text "DATABASE_URL") == [])) [
  | inl missing ↦ ground arith
  | inr given ↦
      let (kind, known, same, located) =
        checked_source-inl env dims name (kind_of name) c (ground arith) in
      (dims, refl, given, kind, known, same, located)
]

-- A configuration that is returned has a database, a positive number of dimensions that is read without
-- an error from the variable or its default, a memory source that is one of the four by its name, in
-- any case, and the address of Mem0 where that is the source.
pub load-Complete : (env : Env) (c : Config) → load env ≡ inl c → Complete env c
unfolding load
load-Complete env c h =
    let name = to_lower (env_or env (text "MEMORY_SOURCE") (text "mem0")) in
    let number = atoi (env_or env (text "EMBEDDER_DIMS") (text "768")) in
    let (dims, positive_dims, given, kind, known, same, located) =
      checked_dims-inl env name (positive number) c h in
    let (read, above) = positive-read number dims positive_dims in
    subst (Complete env) same (record {
      has_database = given;
      dims_positive = above;
      dims_read = read;
      named = kind_of-named name kind known;
      mem0_located = located;
    })
