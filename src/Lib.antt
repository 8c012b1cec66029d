-- ===== src/Lib.antt =====
-- Verification of the Rust matching engine: a limit order book exchange core.
--
-- The program takes signed orders, numbers them, matches them against the order book of their market
-- by price and time, records what happened in an append-only log and in a state store, and can rebuild
-- its state from that log. The parts, and the files that model them:
--
-- - Domain (src/domain): Domain.Market has markets and their price and size rules, Domain.Order orders,
--   fills, the checks of a signed order and the bytes that it signs. SHA-256, ed25519 and hex are the
--   functions of the record Crypto, on which nothing is assumed.
-- - Events (src/events/mod.rs), Sequencer (src/sequencer/mod.rs): the events, their numbering and the
--   idempotency table. The wall clock at an append is an argument.
-- - StateStore (src/db/mod.rs): filled amounts, cancelled hashes, nonces and balances.
-- - Engine.Orderbook (src/engine/orderbook.rs): the book of a market; Engine.Matching
--   (src/engine/matching.rs): the matching loop; Engine.Residual and Engine (src/engine/mod.rs):
--   process_order and process_cancel, split into the steps that the code numbers; Engine.Queries: the queries.
-- - Risk (src/risk/mod.rs): the checks in front of the engine. Admin (src/ops/admin.rs): pause, resume
--   and cancel-all. Replay (src/replay/mod.rs): rebuilding books and state store from a log.
-- - Restore: restore_from_events of src/engine/mod.rs. Engine.Trace and Admin.Trace: what every call
--   keeps of the log, the state store and the index. StateStore.Checksum: the fingerprint of the store.
-- - Run: sequences of calls on an engine, and what every one of them keeps.
-- - Snapshot (src/snapshot/mod.rs): snapshot files and the search for the latest one; the file system
--   and serde_json are the functions of the record Files.
-- - Pg (src/pg/mod.rs): writing and loading the log; the table is the record Database, serde_json the
--   record Json. What PostgreSQL and serde_json document is IsTable and IsCodec (Pg.Holds).
-- - Api (src/api/mod.rs): the envelopes of an event, the shared state, publishing and persisting.
--   Api.Errors, Api.Rest, Api.Handlers and Api.Router (src/api/rest.rs): errors, bodies, handlers and
--   router. A handler takes the state and returns its answer and the state; what it meets (clocks,
--   whether try_lock succeeds, the answer of the database) is the record Turn. Api.Races: handlers
--   that run at the same time. Api.Ws (src/api/ws.rs): one connection, over the list of what its loop
--   finds; the socket is the record Transport.
-- - Startup (src/main.rs): the markets, the restored engine and the first shared state.
-- - Prelude, HashMap and BTreeMap: numbers, lists, results, loops and the standard maps. A HashMap is an
--   association list with one entry for each key; no modelled code depends on its order but the replay,
--   whose sort makes it matter only for orders of one sequence number.
-- - Tests: a concrete run and the theorems at it.
--
-- A `u64` is a natural number; sums and differences wrap at 2 ^ 64 as in a release build, and the
-- theorems name the bounds that they need. A `&mut` argument is an argument and a part of the result; a
-- call that may panic returns an Option, of which `none` is the panic. The loops with `break` run over a
-- list that is fixed before, by structural recursion. Only the printing of a number in a file name runs
-- on fuel: 20 digits, enough for every `u64` (Snapshot.Names.Decimal). A text is its bytes.
--
-- Not modelled: JSON and what axum reads from a request; the runtime of tokio; connecting to Postgres
-- and creating the table; the upgrade of a WebSocket; the snapshot task, the listener and the
-- environment of the server; the command-line client.
pub mod Prelude
pub mod HashMap
pub mod BTreeMap
pub mod Domain
pub mod Events
pub mod Sequencer
pub mod StateStore
pub mod Engine
pub mod Risk
pub mod Admin
pub mod Replay
pub mod Restore
pub mod Snapshot
pub mod Pg
pub mod Api
pub mod Run
pub mod Startup
pub mod Tests
