-- ===== src/Examples/Clients.antt =====
-- The programs, their configuration and their clients at concrete inputs.
use baseline.ContextSvc.Merged.{facts_of, resolve-facts}
use baseline.ContextSvc.{Query, resolve}
use baseline.Embed.{Client, embedder_of, new_client}
use baseline.Examples.Reads.{stored}
use baseline.Facts.Repo.{has_width}
use baseline.HttpClient.{ClientRequest, Transport}
use baseline.McpClient.{split_tool_and_flags}
use baseline.Memory.Mem0.ReadOnly.{reads, source_of-read_only}
use baseline.Memory.Mem0.{Mem0, source_of}
use baseline.Memory.{Memory, MemorySource, memory_not_found}
use baseline.Platform.Closed.{Complete, load-Complete}
use baseline.Platform.{Config, Env, load, memory_none, config_of, env_or}
use baseline.Prelude.{
  ◌≡◌, refl, inl, inr, true, false, none, some, List, [], ◌∷◌, ◌==◌, text_eq, Text, text,
  ℕ_discrete, Text-discrete, if◌then◌else◌,
}
use baseline.Programs.Wiring.{build_embedder-has_width}
use baseline.Programs.{build_embedder}
use baseline.Requests.{open_session}
use baseline.Server.Respond.{scan_uint}
use baseline.Store.{Session}

-- A back end with one memory.
abbrev note : Memory
note = record {
  id = text "m";
  actor_id = text "ann";
  content = text "prefers tea";
  metadata = [];
  created_at = 0;
}

abbrev one_note : MemorySource
one_note = record {
  list = λ actor limit. inl (note ∷ []);
  search = λ actor query limit. inl [];
  get = λ id. inr memory_not_found;
}

abbrev asked : Query
asked = record {
  actor_id = text "ann";
  namespaces = 0 ∷ [];
  include_memories = true;
  limit = 0;
  tags = [];
}

abbrev reading : Session
reading = open_session stored 10 (λ n. false)

resolve-facts_example :
    facts_of (resolve (some one_note) asked reading) ≡ resolve none asked reading
resolve-facts_example = resolve-facts (some one_note) asked reading

-- One that answers every request alike, and one that does so for those that only read.
abbrev empty_answer : Transport
empty_answer req = some (record { status = 200; body = text "{}" })

abbrev read_answer : Transport
read_answer req = if reads (text "http://mem0") req then empty_answer req else none

abbrev mem0 : Mem0
mem0 = record {
  base_url = text "http://mem0";
  api_key = [];
  send = empty_answer;
  decode_list = λ body. some [];
  decode_memory = λ body. none;
}

alike :
    (req : ClientRequest) → reads (text "http://mem0") req ≡ true → mem0.send req ≡ read_answer req
alike req h = rw h refl

source_of-read_only_example : source_of mem0 ≡ source_of (record mem0 { send = read_answer })
source_of-read_only_example = source_of-read_only mem0 read_answer alike

abbrev env : Env
env key =
    if key == text "DATABASE_URL"
    then text "postgres://db"
    else if key == text "MEMORY_SOURCE"
    then text "None"
    else if key == text "EMBEDDER_URL"
    then text "http://ollama/"
    else []

abbrev config : Config
config = config_of env memory_none 768

loaded : load env ≡ inl config
unfolding load scan_uint ℕ_discrete Text-discrete
loaded = refl

load-Complete_example : Complete env config
load-Complete_example = load-Complete env config loaded

abbrev client : Client
client =
    new_client empty_answer (λ body. some (1 ∷ 2 ∷ [])) (text "http://ollama/")
      (text "nomic-embed-text") 768

no_dims : env (text "EMBEDDER_DIMS") ≡ []
unfolding ℕ_discrete Text-discrete
no_dims = refl

built : build_embedder empty_answer (λ body. some (1 ∷ 2 ∷ [])) config ≡ some client
unfolding build_embedder env_or ℕ_discrete Text-discrete
built = refl

build_embedder-has_width_example : has_width (embedder_of client (text "eu-west")) ≡ true
build_embedder-has_width_example =
    build_embedder-has_width env config empty_answer (λ body. some (1 ∷ 2 ∷ [])) client
      (text "eu-west") loaded no_dims built

abbrev argv : List Text
argv = text "--principal" ∷ text "ann" ∷ text "list_namespaces" ∷ text "--raw" ∷ []

split_argv :
    split_tool_and_flags argv
    ≡ (text "list_namespaces", text "--principal" ∷ text "ann" ∷ text "--raw" ∷ [])
unfolding split_tool_and_flags ℕ_discrete Text-discrete
split_argv = refl
