-- ===== src/Lib.antt =====
-- The server of the context store, server/src: a graph of context nodes that changes only through
-- proposals, which are reviewed and applied, behind HTTP routes for people and agents.
--
-- Parts and files:
-- - Types (server/src/types): nodes, proposals with their operations, comments and reviews, audit
--   events, queries, conflicts. Types/Json is `serde_json::Value` as far as the server inspects it.
-- - Sensitivity (server/src/sensitivity.rs): levels and what an agent may read.
-- - Runtime: what the source takes from elsewhere, as a record that the operations take: the clock,
--   fresh ids, SHA-256, the derived reading of comments, the Unicode table of lower case, and the
--   order in which a hash table or a set is iterated.
-- - Store (server/src/store/in_memory.rs, context_store.rs): the in-memory store as a record with a
--   field for each lock. Store/Apply has `apply_operation` and `apply_proposal`, a function for each
--   section of a lock; Store/Proposals the other calls on proposals, Store/Queries the queries,
--   Store/AuditLog the log and `reset`, Store/Conflicts `detect_conflicts` and `is_proposal_stale`,
--   Store/Merge `merge_proposals`. Store/Interface is the trait `ContextStore` as a record, with the
--   in-memory store as its instance. Store/Commands has sequences of calls.
-- - Policy (server/src/policy.rs): the rules and their evaluation when a proposal is created,
--   reviewed and applied.
-- - Auth (server/src/auth.rs, rbac.rs): roles, the checks of the handlers, and in Auth/Token the
--   bearer tokens, with Base64, HMAC and serde as parameters.
-- - Api (server/src/api/routes.rs, events.rs): the handlers, over any store, as functions from the
--   shared state to a result and the state that is left; the event bus is the list of what was
--   published. Api/Events is the stream of events; Api/Requests is the router behind the
--   authentication layer, as a step of a request on that state, and sequences of requests.
-- - Retention (server/src/retention.rs): the rules and the background task, over its ticks.
-- - Prelude: vectors, hash tables as association lists, results, Boolean tests.
-- - Tests: runs at concrete inputs.
--
-- A method is a function from a store to its result and the store that it leaves, on errors too.
-- Counters wrap at their width, as in a release build. `none` is a panic where a query can have one.
-- All loops are structural recursion; `decimal` runs on fuel, `n + 1` divisions by ten for `n`, of
-- which there are never more than the digits of `n`. The stable sort of the standard library is an
-- insertion sort.
--
-- Store/Apply/Sections takes the sections of apply_proposal, each under its own locks, as steps that
-- several clients run in any order.
--
-- The file store, its disk, and opening:
-- - Disk: `std::fs` and `std::path` as far as the file store and the configuration use them. A
--   directory is a table of texts. Each call fares as a list of faults says, and succeeds when none
--   is listed; a call that fails may leave a part of what it was to write. A path is a directory and
--   a file name: `.`, `..`, links and directories inside directories are not modelled.
-- - FileStore (server/src/store/file_store.rs): a record of the tables in memory and the disk.
--   `serde_json` is a `Codec`, a printer and a parser for each type of file. FileStore/Loading is
--   `new` and `load_from_disk`, FileStore/Calls the methods, FileStore/Apply `apply_proposal`,
--   FileStore/Commands sequences of calls. An `Answer` is what a call returned or `blocked`, for a
--   call that asks for a lock which it holds itself: `std::sync::RwLock` then waits for ever or
--   panics.
-- - Config (server/src/config.rs, server/src/main.rs): `load_config` over an `Environment`, which has
--   the variables, `str::trim` and the parser of the file, and the choice of the store in `main`.
-- - Startup (server/src/main.rs): what `main` makes of the environment and the files.
-- - Bridge (server/src/h3_server.rs): `handle_request`. The stream is the list of the chunks that it
--   delivers and of how its sends fare, the router a function.
-- - Telemetry (server/src/telemetry.rs): the trace headers, the endpoints of the exporters, and the
--   future that records metrics, whose inner future is the list of what its polls give.
--
-- Not modelled: poisoned locks and the interleaving of the sections of other calls; the matching of
-- paths and JSON bodies; TLS, accepting connections, the layers of telemetry and its exporters,
-- which are calls of other libraries; the TypeScript client.
mod Prelude
pub mod Sensitivity
pub mod Types
pub mod Runtime
pub mod Store
pub mod Policy
pub mod Auth
pub mod Disk
pub mod FileStore
pub mod Config
pub mod Bridge
pub mod Telemetry
pub mod Startup
pub mod Api
pub mod Retention
pub mod Tests
