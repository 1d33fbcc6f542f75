-- ===== src/Lib.antt =====
-- Logryph: a ledger of what agents do, as a chain of hashed and signed events.
--
-- The program. A proxy (internal/interceptor) observes the calls of an agent, asks the policies of
-- an observer (internal/observer) what to make of each, and hands an event to the ledger's worker
-- (internal/ledger/worker.go) without waiting. The event lies in a ring buffer (internal/ring) until
-- the worker's loop takes it out, and the processor (internal/ledger/processor.go) gives it an index
-- and the hash of its predecessor, hashes it (internal/crypto/engine.go), signs it
-- (internal/crypto/signer.go), and stores it in SQLite (internal/ledger/store). Events come from a
-- pool and go back to it (internal/pool). The audit (internal/ledger/audit) reads a run again and
-- verifies every hash, link and signature.
--
-- The files.
--   Base: what the other files share. Base/Result is what a Go call ends in: a value, an error, or a
--     panic. Base/Exec is a method that changes an object and may fail; Base/Post gives its rules.
--     Base/Sort is ORDER BY.
--   Assert: internal/assert/assert.go (check, not_nil, in_range). `strict` is the global StrictMode.
--   Json, Event: dynamic values, and internal/models/event.go.
--   Externals: what comes from outside, as one record: JSON, RFC 8785, SHA-256, Ed25519, time and
--     identifiers. Its laws are in JsonLaws and CryptoLaws; a theorem that relies on them takes them.
--   Ring: internal/ring/buffer.go (New, Push, Pop, IsFull, IsEmpty, Len, Cap).
--   Pool: internal/pool/pool.go (GetEvent, PutEvent), and in Pool/Buffers GetBuffer,
--     PutBuffer and GetMetrics. What `sync.Pool` takes at each Get is in the pool, as `choices`.
--   Crypto: CalculateEventHash, SignHash, VerifySignature, GetPublicKey; Crypto/Hex is encoding/hex.
--     Crypto/Keys is NewSigner, RotateKey and the key file, whose writes can fail, also in the middle.
--   Repository: internal/ledger/interface.go, with the laws that the ledger relies on.
--   Store: internal/ledger/store. The tables are lists of rows in insertion order, a query is what
--     its SQL text asks of them, and each call of the driver can fail, as `faults` of Db says.
--   Processor: internal/ledger/processor.go, operation by operation.
--   Genesis: internal/ledger/genesis.go. Whether the Bitcoin anchor was fetched is an argument.
--     Genesis/Begun is about the run that it begins, Genesis/Kept about the pool and
--     the signer, and Worker/Started about `Start`.
--   Worker: NewWorker (in Worker/New), Start, Submit, processEvents, drainBuffer, recordLatency, Shutdown of
--     internal/ledger/worker.go. The mutexes make each call of the buffer and of the counters one
--     step; what other goroutines do in the sleeps of a blocking Submit, and between the
--     last look at the buffer and Push, is an argument. Worker/System has the look and the Push of
--     a Submit, and the rounds of the goroutines, as steps in any order, as long as each returns; the
--     closing of the database at the end of Shutdown is not one of them. Worker/Anchors is
--     anchorLoop, and Worker/Stop waitForStop and Close.
--   Audit: VerifyChain, VerifyEvent and, in Audit/Anchors, VerifyAnchors of
--     internal/ledger/audit/verify.go, where the live anchors are a parameter. Audit/Fetch is
--     FetchBitcoinAnchor of internal/ledger/audit/anchor.go and FetchBitcoinAnchorAtHeight, where
--     what the network answers during a call is a function of the address.
--   Trace: buildTree of cmd/logyctl/commands/trace.go, and in Trace/Print its printTraceTree. The
--     bound of 100000 rounds is the source's own, and is enough for a forest of as many events.
--   Interceptor: internal/interceptor/server.go with the state of internal/core/engine.go and the
--     messages of internal/mcp/types.go. Bodies are texts, and encoding/json on the two messages is a
--     parameter. Interceptor/Response is InterceptResponse.
--   Api: HandleRekey, HandleReady and collectMetrics of internal/api/handlers.go, and in
--     Api/Prometheus HandlePrometheus on a writer that can fail.
--   KeyFiles: BackupKeyCommand, RestoreKeyCommand and the test of ListBackupsCommand of
--     cmd/logyctl/commands/system.go.
--   Observer, Policy: MatchPattern and CheckConditions of internal/observer/engine.go, and
--     evaluatePolicy of internal/interceptor/server.go. Floating point is a parameter.
--     Observer/Engine is the engine with its policy file, Observer/Watch what becomes of it, of the
--     file and of the watching goroutine as steps; YAML is a parameter.
--   Logging: internal/logging/logger.go.
--   Logyctl: in Logyctl/Verify, cmd/logyctl/commands/verify.go, with its exit status. Logyctl/Reports
--     is EventsCommand and RiskCommand of cmd/logyctl/commands/analytics.go, and StatusCommand.
--   Program: main.go, up to the start of the servers, and gracefulShutdown.
--   Samples, Tests: concrete values on which the theorems apply.
--
-- Numbers are natural numbers. `int` and `uint64` additions wrap around at 2^64, written out, in
-- the buffer, the pool and the counters. The fuel of the loops of the
-- worker, 2^20 rounds, and of printTraceTree, 100000, is the source's own bound: a buffer of more
-- is refused before the loops.
--
-- Not modelled: the other commands of logyctl and the HTML report, which are output; the start and
-- the stop of the HTTP servers, and the signals; the bytes that a body shares with a pooled buffer;
-- the mock agents, which are test clients. The calls of the log and the texts of formatted errors
-- are left out; an error keeps its constant text and its contexts. The loops that wake up to 2^30
-- times, of the watching goroutine and of the anchors, have the ticks that are left in their state.
pub mod Base
pub mod Assert
pub mod Ring
pub mod Json
pub mod Event
pub mod Externals
pub mod Crypto
pub mod Pool
pub mod Repository
pub mod Store
pub mod Processor
pub mod Audit
pub mod Samples
pub mod Tests
pub mod Genesis
pub mod Interceptor
pub mod Api
pub mod KeyFiles
pub mod Logyctl
pub mod Worker
pub mod Observer
pub mod Policy
pub mod Trace
pub mod Program
pub mod Logging
