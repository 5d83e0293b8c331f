-- ===== src/Lib.antt =====
-- Keziah, a queue of inference jobs: its parts as functions, and theorems on them.
--
-- The program accepts jobs, alone or in batches, orders them by scheduling class, score and client,
-- hands them to workers under leases, and keeps their results. A service thread claims jobs from a
-- queue and settles them; the queue is kept in memory, in SQLite, or in SQLite behind a ready index in
-- memory.
--
-- Types: src/keziah/types.py. The records of jobs and batches, states, classes, candidates.
-- Scheduler: src/keziah/scheduler.py. `select` picks a class by credit and a job by score.
--   Scheduler.Numbers is the interface of the floating-point numbers, which are a parameter;
--   Scheduler.Invert is the tie-break; Scheduler.Choice and Scheduler.Winner are about the winner.
-- Ready: src/keziah/queue/ready.py. Heaps by lane with lazy deletion; a heap is the list of its
--   entries in order. Ready.Heaps and Ready.Heads are about what it shows.
-- Memory: src/keziah/queue/memory.py, common.py and the records of backend.py. The state is the
--   record `Memory`; each method is a function from it to a result and the next state, since a lock
--   makes each method one step. Children: Submit, Batches, Lease, Settle, Maintain, Read. Run has the
--   histories of requests; Invariant, Loops, Matching and Keeps the lemmas that each method keeps the
--   invariant; Staged how a batch counts its jobs; Claims what a caller relies on.
-- Sqlite: src/keziah/queue/sqlite.py. The state is the tables `jobs`, `batches` and `events`; each
--   method is the body of one transaction, and `tx` begins, commits and rolls back. Rows has the columns
--   and `_to_job`; Statements the SQL; Lease, Settle, Submit, Batches, Maintain and Read the methods;
--   Abstract reads the table as the dictionary of the in-memory queue, Writes, Releases, Claim and Stats
--   compare the methods; Atomic is about transactions. Run has the histories of calls, Ids and Run.Kept
--   what they keep. Whether the database is locked is a parameter, and so is JSON text. `tx_on` has a
--   commit that fails; the methods run `tx`, where commits succeed.
-- Hybrid: src/keziah/queue/hybrid.py, over a store given by an interface whose calls may raise; Durable
--   fills it with the model of the SQLite queue.
-- Registry: src/keziah/registry.py and `_validate_graph` of src/keziah/config.py.
-- Config: `_deep_merge`, `_env_overlay` and `load_settings` of src/keziah/config.py; Merge and Port are
--   about them. YAML, the default settings and their validation are parameters.
-- Service: src/keziah/service.py on the in-memory queue. The slots of the models and `_settle_failure`;
--   Build is `_build_job`, Dispatch `_dispatch_available`, Batching `submit_batch`, Views `_to_result`,
--   `_receipt` and `_batch_dict`, Targets `_execution_target`, Execute `_execute` and
--   `_settle_success`; Accepted, Bounded, Launched, Running, Answered, Failures and Caps are about them.
--   The heartbeat, the adapter's answer and the time of a commit are parameters; threads do not
--   interleave.
-- Questions: `normalise_questions` and `validate_state` of src/keziah/types.py.
-- Adapters: `info_from` of src/keziah/adapters/base.py and the mapping of errors and
--   payloads of src/keziah/adapters/http_common.py. Metrics: `Histogram` of
--   src/keziah/telemetry/metrics.py.
-- Base: shared names, dictionaries as association lists, tests, integers. Tests: concrete runs.
--
-- A time is a number of milliseconds: the texts of src/keziah/clock.py have a fixed width, so that
-- their order is that of the numbers. An exception is a value, with the state as it is when it is
-- raised. Messages are left out. An empty idempotency key counts as none, as the source tests it.
--
-- The claim loop makes 64 turns, as in the source; it drops one stale hint a turn, so that 64 turns
-- are enough for 64 live hints. `follow` has a turn for each alias and one more, which is proved
-- enough; the other loops run over lists.
--
-- Not modelled: from src/keziah/queue/sqlite.py the connection and the migrations; the adapters' calls,
-- the HTTP interface and client, the command line, telemetry but its histogram, and the callbacks,
-- waiting and threads of the service, which are transport, storage or not yet done.
pub mod Base
pub mod Types
pub mod Scheduler
pub mod Ready
pub mod Memory
pub mod Metrics
pub mod Adapters
pub mod Questions
pub mod Registry
pub mod Config
pub mod Hybrid
pub mod Sqlite
pub mod Service
pub mod Tests
