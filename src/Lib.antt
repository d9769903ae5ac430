-- ===== src/Lib.antt =====
-- longhaul: the types, the stores and the server of a Model Context Protocol implementation.
--
-- The program has two library crates, a test runner and an example server that are modelled here.
-- longhaul-core holds the types of the wire and the task life cycle; longhaul-server holds the task
-- stores, the tool registry, the JSON-RPC dispatch and the HTTP layers in front of it. A request
-- passes `mcp_method_check`, then `mcp_response_headers`, then `dispatch`, which routes it to a
-- handler; the task handlers call a `TaskStore`, and a store keeps to the life cycle of
-- longhaul-core.
--
-- Base        Booleans, results, maps with text keys, integers, state with errors, order of texts
-- Json        `serde_json::Value`, and its methods and the derived conversions as parameters
-- Core        longhaul-core/src, a module for each file: Tag (tag.rs), Http (http.rs), Meta
--             (meta.rs), Errors (error.rs), Tasks (tasks.rs), Tools (tools.rs), Discover
--             (discover.rs), Jsonrpc (jsonrpc.rs)
-- Server      longhaul-server/src: Store (store.rs), Registry (registry.rs), Handlers
--             (handlers.rs), Http (middleware.rs), Router (router.rs); Histories serves requests
--             one after the other (lib.rs), Instances several processes on one database file, as
--             in tests/stateless.rs
-- Conformance longhaul-conformance/src/main.rs, the runner that tests a server over HTTP: Suites
--             has the cases, Results and Exit what their counts and the exit status say, Schema
--             the validators, Report and Main what is printed; Served and Passes put the runner
--             in front of the modelled server, with Steady for the suites of discovery and tools
-- Indexer     examples/indexer/src/main.rs: `walk_and_index`, and Walk says which files are
--             indexed; Worker has the monitor and the worker of a task, System their
--             interleavings with the clients, Tool the tool `index_directory`, Finish the end of
--             its tasks, Start the server around it
--
-- Functions keep the names of the code; a method `Type::f` is `f` in the module of its type. A
-- method on `&mut self` or under a lock is an action of `Base.Exec`: the state comes back beside
-- the result, and beside an error too. Core.Tools.Schema holds `validate_schema`,
-- Core.Tools.Outcome the reading of `ToolCallOutcome` and Core.Jsonrpc.Untagged that of `Message`.
-- Server.Store.Contract is what the trait `TaskStore` promises, as operations on a map from ids to
-- tasks; Memory and Sqlite are the two stores, and Refines and Sqlite.Implements relate them to the
-- contract. Server.Store.Race is about several instances on one database file, and Migration is
-- `open` with `migrate`. Server.Handlers.Refines and ToolCalls say what the methods of tasks and
-- tools answer. Server.Http.Checks is about the two layers. Server.Handlers.Effects is what a
-- request can do to the state, Unordered that nobody sees the order of a `HashMap`, and Idempotence
-- a second `tasks/cancel`; Server.Registry.Toolset has registries as a quotient of the lists that
-- they are made from. A module Suite holds the unit tests of a file of the program, as functions
-- that say whether their assertions hold; those of store.rs are programs over any store, and
-- Server.Store.Suite.Laws is about any that keeps the contract.
--
-- Every function but one is total by the structure of its argument. The loop of the monitor,
-- `monitor_loop`, has fuel for its turns, and `monitor_loop-ends` says how much is enough.
-- `check_depth` recurses on the document, and its bound is the argument `max_depth` of the code.
--
-- Code of other packages is a parameter with what the program relies on: the statements of SQLite
-- (`Engine`), axum and http (`Transport`, `Axum`), the methods of `Value` (`ValueMethods`), what
-- serde derives (`Serde`, `Payloads`, `Envelopes`, `Wire`), the runner's client and clock (`Host`,
-- `Client`), its validators (`Validation`), the connection to a database file (`Connection`), paths
-- and the token's codec (`Platform`), the file system as a tree with the readings of the
-- cancellation channel, the order in which a `HashMap` is visited, and the texts of foreign errors.
-- Integers on the wire are 64-bit, but the code only compares them, so they are unbounded here; the
-- counters of the indexer wrap round at 64 bits. Not modelled are the sockets and signals of the
-- start, the tests that read or print JSON text, the parsing of the command lines, the log, and
-- what becomes of a request whose handler panics.
pub mod Base
pub mod Json
pub mod Core
pub mod Server
pub mod Conformance
pub mod Indexer
