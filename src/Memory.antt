-- ===== src/Memory.antt =====
-- internal/memory: the port to a memory back end, and internal/memory/null, which has none.
pub mod Mem0
use baseline.Json.{Json}
use baseline.Prelude.{ℕ, Bool, ◌⊎◌, inl, inr, Option, List, [], Text}

-- The neutral memory that crosses the port.
pub record Memory : Type 0 where
  pub id : Text
  pub actor_id : Text
  pub content : Text
  pub metadata : List (Text × Json)
  pub created_at : ℕ

pub data MemoryError : Type 0 where
  memory_not_found request_failed bad_body : MemoryError
  bad_status : ℕ → MemoryError

-- The read-only port. A limit of 0 is none.
pub record MemorySource : Type 0 where
  pub list : Text → ℕ → List Memory ⊎ MemoryError
  pub search : Text → Text → ℕ → List Memory ⊎ MemoryError
  pub get : Text → Memory ⊎ MemoryError

pub record AddOpts : Type 0 where
  pub metadata : List (Text × Json)
  pub infer : Option Bool

abbrev pub Writer : Type 0
Writer = Text → Text → AddOpts → Memory ⊎ MemoryError

-- The source of the standards-only mode.
abbrev pub null_source : MemorySource
null_source = record {
  list = λ actor limit. inl [];
  search = λ actor query limit. inl [];
  get = λ id. inr memory_not_found;
}
