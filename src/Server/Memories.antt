-- ===== src/Server/Memories.antt =====
-- internal/server/handlers_memory.go: a memory goes to the back end, if it can write.
use baseline.Memory.{Memory, MemoryError, Writer}
use baseline.Json.{Json}
use baseline.Prelude.{
  Bool, ◌⊎◌, inl, inr, Option, none, some, List, [], if◌then◌else◌, ◌==◌, nat_eq, Text, text_eq,
  text,
}
use baseline.Server.Reading.{actor_of}
use baseline.Server.{Server, Context, Reply, write_json, write_error, memory_body, write_failed}

pub record AddMemoryReq : Type 0 where
  pub content : Text
  pub actor_id : Text
  pub metadata : List (Text × Json)
  pub infer : Option Bool

abbrev pub written : Memory ⊎ MemoryError → Reply
written (inl m) = write_json 201 (memory_body m)
written (inr err) = write_json 502 (write_failed err)

abbrev pub capture : Context → Writer → AddMemoryReq → Reply
capture ctx add req =
    let actor = actor_of ctx req.actor_id in
    if req.content == []
    then write_error 400 (text "content is required")
    else if actor == []
    then write_error 400 (text "no actor_id and no authenticated principal")
    else written (add actor req.content (record { metadata = req.metadata; infer = req.infer }))

abbrev pub capture_body : Context → Writer → Option AddMemoryReq → Reply
capture_body ctx add none = write_error 400 (text "invalid JSON body")
capture_body ctx add (some req) = capture ctx add req

abbrev pub capture_with : Context → Option Writer → Option AddMemoryReq → Reply
capture_with ctx none body =
    write_error 501 (text "memory backend is read-only (standards-only mode); no capture path")
capture_with ctx (some add) body = capture_body ctx add body

unfoldable pub add_memory : Server → Context → Option AddMemoryReq → Reply
add_memory srv ctx body = capture_with ctx srv.writer body
