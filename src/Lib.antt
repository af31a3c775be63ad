-- ===== src/Lib.antt =====
-- The governance core of baseline: facts that a team agrees on, the promotion workflow through which
-- they become active, and what surrounds it.
--
-- A proposal (internal/promotions) inserts a fact (internal/facts) and a promotion request into the
-- shared tables (internal/store/migrations/00001_init.sql); reviewers approve it, send it back or
-- reject it; an approval that completes the required number activates the fact and supersedes the
-- active one under its canonical key. An engine (internal/autopromote) may approve in place of the
-- reviewers. The reaper (internal/reaper) expires facts. Every step writes to the audit log
-- (internal/audit) in its own transaction. Namespaces (internal/namespaces) hold the policies, and
-- internal/rbac says who may do what.
--
-- Each package is a module of its name:
--   Facts          fact.go; Facts/Lifecycle is statemachine.go, Facts/Key subject.go and EmbedText,
--                  Facts/Repo the statements of repo.go, Facts/Service service.go.
--   Promotions     promotion.go; Promotions/Repo is repo.go, Promotions/Workflow service.go, with
--                  Propose in Workflow/Propose and the other calls in Workflow/Reviews.
--   Namespaces, Rbac, AutoPromote, Audit, Reaper
--                  the files of those packages, one statement or method per function.
--   AutoPromote/Simple
--                  the engine of internal/autopromote/simple.
--   ContextSvc     internal/contextsvc/contextsvc.go: what an agent is shown.
--   Facts/Listing, Facts/Backfill
--                  List of internal/facts/repo.go, and internal/facts/backfill.go.
--   Rbac/Resolve   Resolve of internal/rbac/repo.go: the recursive query, in rounds.
--   Server         internal/server: a module for each file of handlers, the middleware in Server/Auth,
--                  and the routes of server.go in Server/Routes.
--   Bridge         internal/mcpbridge: Bridge/Tools has the tools, each of which sends one request to the
--                  handler that Server/Routes/Dispatch makes of the routes.
--   Memory         internal/memory, with internal/memory/null; Memory/Mem0 is the client of Mem0.
--   Embed          internal/embed/embed.go; HttpClient is what the clients use of net/http.
--   Metrics        the gauges of internal/metrics/metrics.go.
--   Platform       internal/platform/config.go.
--   Programs       cmd/baseline/main.go: the mode and the adapters; McpClient is cmd/baseline-mcp.
--   Url            what the bridge and the server use of net/url, on texts of ASCII.
--   Store          the tables as a record of lists (Db), and the session in which statements run.
--   Invariant      what every call keeps of the tables: Invariant/Laws is what a property owes to the
--                  statements, Invariant/Calls that every call keeps a property that pays it.
--   Requests       the calls of all packages, one after the other.
--   Examples       the theorems at concrete inputs.
-- Prelude holds the shared names, Json the documents that the program does not decode.
--
-- A call is a function from a session to an outcome: a result or an error, with the session after
-- it. The session carries a function that says which statements the connection fails, so that a
-- statement about all sessions is one about every failure. Inside a transaction a failed statement
-- aborts it, as in PostgreSQL, also where the code drops the error. UUIDs and times are numbers; a new
-- row takes the next number, and the clock stands still during a call. Calls run one after the
-- other, since the row lock of an approval and the unique indexes are what the code relies on.
-- Texts are lists of code points; the lower-casing is that of ASCII, and the spaces are those up to
-- code point 255. The map of qualifiers is a list in the order in which one loop meets its entries.
--
-- A request under /v1 is authenticated (internal/server/auth.go), its principal's entitlements are
-- resolved from the memberships and the namespaces, and a handler runs on both. The rounds of the
-- recursive query take fuel, one for each namespace, which Rbac/Resolve/Climb proves enough.
--
-- Not modelled: the choice of a route from a path, the SDK of the MCP bridge, the parsing of flags, the
-- instruments, logs and spans, the start and stop of the servers, and the JSON form of rows in the
-- database: third-party code and I/O.
-- The transport of the HTTP clients, the decoding of JSON texts, the distance of vectors and the engines
-- are parameters. The int columns have no upper bound.
pub mod Platform
pub mod Prelude
pub mod HttpClient
pub mod Json
pub mod McpClient
pub mod Memory
pub mod Facts
pub mod Programs
pub mod Promotions
pub mod Metrics
pub mod Namespaces
pub mod Rbac
pub mod AutoPromote
pub mod Bridge
pub mod Audit
pub mod Server
pub mod Store
pub mod Url
pub mod Reaper
pub mod Invariant
pub mod Requests
pub mod ContextSvc
pub mod Embed
pub mod Examples
