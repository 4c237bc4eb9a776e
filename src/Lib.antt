-- ===== src/Lib.antt =====
-- A verification library for gometrics: a server that keeps metrics (gauges and counters) in memory
-- or in a database, and an agent that measures and sends them.
--
-- How the parts interact. The agent's pollers write into a collector; its reporter and the last
-- flush put snapshots of the collector into a queue, from which workers take batches, pack, encrypt
-- and sign them and send them with retries. On the server a request passes the middleware
-- (signature, decryption, gzip, logging) and reaches a handler, which reads or writes the storage,
-- saves it to a file at once where that is configured, and publishes an audit event, which a worker
-- goroutine delivers.
--
-- Which file models which part:
-- - Models: internal/models/metrics.go. An int64 or a float64 is its 64 bits, a natural number
--   below 2^64; addition of counters wraps there.
-- - Storage: the interface of internal/storage/storage.go. Storage/Mem: MemStorage, one function
--   per method, each a critical section of its mutex. Storage/File: internal/storage/file.go over a
--   disk of named files; what each system call answers is an argument. Storage/Db:
--   internal/storage/db.go over what database/sql answers; what PostgreSQL promises of its tables
--   is a hypothesis (IsDatabase), by which a statement or a commit that reports an error has taken
--   place whole or not at all. Storage/Db/History is about the writes, Storage/Db/Reads and
--   Storage/Db/Listing about the reads.
-- - Retry: internal/retry/retry.go over any operation and any context; the recursion is on the list
--   of the pauses that are left, so it ends without fuel.
-- - Crypto: Encrypt and Decrypt of internal/crypto/crypto.go. A slice out of range is a value of
--   its own. Crypto/Keys: the reading of key files.
-- - Hash: internal/hash/hash.go.
-- - Http: what the handlers use of net/http; a reply is the list of calls on the ResponseWriter.
-- - Middleware and Handler: internal/handler/handler.go, with Handler/Plain for the handlers of
--   path parameters, Handler/Json and Handler/Batch for those of JSON bodies, Handler/Page for the
--   page and Handler/Setup for the setters. Middleware/Reader: compressReader.
-- - Audit: the Subject of internal/audit/audit.go. Audit/Worker: its goroutine beside the callers
--   of Notify and Close, as a run over a list of atomic steps in any order. Audit/Observers: the
--   observers that write to a file and to a URL.
-- - Config: internal/config/config.go, with Config/Server for cmd/server/config.go and
--   loadConfigFrom of cmd/server/main.go, and Config/Agent for the same of cmd/agent.
-- - Pool: internal/pool/pool.go. Objects lie in a memory, and the pool holds their addresses.
-- - Router: buildRouter of cmd/server/main.go, the order of the middleware. Router/Routes: the
--   table of routes, and the whole server over it.
-- - Agent: the collector of internal/agent/agent.go. Agent/Queue: its pollers, its reporter and the
--   flush on stopping, as a run over a list of atomic steps. Agent/Send: from a batch to the
--   judgement of the answer, with internal/agent/retry.go. Agent/Run: Run and its workers beside
--   all that, up to its return. Agent/Start: NewAgent and run of cmd/agent/main.go.
-- - Serve: serve of cmd/server/main.go without a database, and RunPeriodicSave, as a run over a
--   list of atomic steps of the requests, the periodic saver and serve itself. Serve/Saving: a save
--   in two steps. Serve/Start: what serve sets up before. Serve/Closing: what it has deferred.
-- - Noosexit: internal/analysis/noosexit/noosexit.go.
-- - Loadgen: internal/loadgen/loadgen.go, with Loadgen/Phases for the seeding and the requests of
--   one worker, and Loadgen/Workers for any number of workers as a run over a list of atomic steps.
--   The seeding runs on fuel, the number of metrics to seed, of which each round seeds one or more.
-- - Reset: cmd/reset/main.go, with Reset/Scan for the search of the sources, Reset/Render for the
--   text, and Reset/Generate for the run.
-- - Profiler: internal/profiler/profiler.go. Loadgen/Command: _tools/loadgen/main.go.
-- - Staticlint: the list of analyzers of cmd/staticlint/main.go.
-- - Prelude: names, tests and lemmas that the modules share. Tests: concrete runs.
--
-- Parameters. JSON, gzip, HMAC, RSA-OAEP, AES-GCM, strconv, time.ParseDuration, the file system,
-- the clock, the HTTP client, database/sql, x509, chi, go/parser, what is measured and the order in
-- which a map is visited are arguments; what a theorem relies on of them is a named hypothesis
-- (ReadsBack, IsOrder, IsPair, IsGzip, IsDatabase, IsMux).
--
-- Where the model is wider or narrower than the source: a String is Unicode text, so a name that is
-- not valid UTF-8, which JSON would replace in part, is left out; the counters of the load generator
-- (atomic.Int64) are natural numbers that do not wrap.
--
-- Not modelled: the listener, chi's Recoverer and serve over a database, where nothing is saved to
-- a file; the clock of Run, whose timers may fire at any moment; the printing of the build's
-- version. Log output is left out, and so are the texts of most errors.
mod Prelude
pub mod Models
pub mod Retry
pub mod Storage
pub mod Crypto
pub mod Http
pub mod Hash
pub mod Middleware
pub mod Audit
pub mod Handler
pub mod Config
pub mod Pool
pub mod Router
pub mod Agent
pub mod Loadgen
pub mod Reset
pub mod Serve
pub mod Noosexit
pub mod Staticlint
pub mod Profiler
mod Tests
