-- ===== src/Sqlite.antt =====
-- src/keziah/queue/sqlite.py: the durable queue. The state is the three tables, and each method is a
-- body that runs in one transaction: it takes the tables and returns its result, or an exception, and
-- the tables. `busy n` tells whether attempt `n` to begin a transaction meets a locked database. The
-- methods run with commits that succeed; `tx_on` has those that do not.
pub mod Rows
pub mod Statements
pub mod Lease
pub mod Settle
pub mod Submit
pub mod Batches
pub mod Maintain
pub mod Read
pub mod Atomic
pub mod Abstract
pub mod Refines
pub mod Writes
pub mod Run
pub mod Ids
pub mod Stats
pub mod Claim
pub mod Releases
use keziah.Base.{
  ℕ, zero, suc, ◌+◌, String, Bool, true, false, ◌&&◌, ◌||◌, not, Option, none, some, List, [], ◌∷◌,
  ◌++◌, ltb, leb, if◌then◌else◌, count, ◌==◌, string_eq, option_eq,
}
use keziah.Types.{State, Job, Batch, Counts, Fields, Candidate, is_incomplete, is_active, state_is}
use keziah.Memory.{Result, ok, err, Error, EventKind, Limits, is_after, is_due}
use keziah.Memory.Batches.{empty_counts}
use keziah.Sqlite.Rows.{Codec, Row, BatchRow, to_job, row_of}
use keziah.Sqlite.Statements.{update_where, delete_where, first_where, any_row}

-- How a COMMIT ends: well, on a locked database, or with another error such as a full disk.
pub data Commit : Type 0 where
  commits locks fails : Commit

module _ (C : Codec) where
  -- A row of `events`.
  pub record EventRow : Type 0 where
    pub id : ℕ
    pub job_id : Option String
    pub batch_id : Option String
    pub at : ℕ
    pub kind : EventKind
    pub detail_json : C.Text

  -- The tables, and the fields of `SQLiteBackend` beside the connection.
  pub record Db : Type 0 where
    pub limits : Limits
    pub jobs : List (Row C)
    pub batches : List BatchRow
    pub events : List EventRow
    pub event_id : ℕ
    pub closed : Bool

  -- A function `run` that a transaction calls.
  abbrev pub Body {ℓ} : Type ℓ → Type ℓ
  Body A = Db → Result A × Db

  -- The connection: its tables, and whether a transaction is open on it.
  pub record Connection : Type 0 where
    pub db : Db
    pub in_transaction : Bool

  -- The end of `_tx_once`: a commit that fails is not rolled back, and the transaction stays open. One
  -- that fails on a lock is tried again by `_tx`.
  unfoldable pub end_tx {ℓ} :
      {A : Type ℓ}
      → Commit
      → (Connection → Result A × Connection)
      → A
      → Connection
      → Result A × Connection
  end_tx commits again a c = (ok a, record c { in_transaction = false })
  end_tx locks again a c = again c
  end_tx fails again a c = (err Error.operational_error, c)

  -- `_tx_once`. `locked` tells whether BEGIN meets a lock, which `_tx` tries again; BEGIN inside a
  -- transaction raises. An exception of the body rolls the tables back.
  unfoldable pub tx_once {ℓ} :
      {A : Type ℓ}
      → Bool
      → Commit
      → (Connection → Result A × Connection)
      → Body A
      → Connection
      → Result A × Connection
  unfolding end_tx
  tx_once locked commit again body c =
      let retried = again c in
      if c.db.closed
      then (err Error.queue_closed, c)
      else if c.in_transaction
      then (err Error.operational_error, c)
      else if locked
      then retried
      else elim (body c.db).0 [
        | err e ↦ (err e, c)
        | ok a ↦ end_tx commit again a (record { db = (body c.db).1; in_transaction = true })
      ]

  -- The loop of `_tx`: attempt `n` begins under `busy n` and ends with `commit n`.
  unfoldable pub tx_from {ℓ} :
      {A : Type ℓ} → (ℕ → Bool) → (ℕ → Commit) → ℕ → ℕ → Body A → Connection → Result A × Connection
  unfolding tx_once
  tx_from busy commit zero attempt body c = (err Error.database_locked, c)
  tx_from busy commit (suc left) attempt body c =
      let again = tx_from busy commit left (suc attempt) body in
      tx_once (busy attempt) (commit attempt) again body c

  -- `_tx`: six attempts.
  unfoldable pub tx_on {ℓ} :
      {A : Type ℓ} → (ℕ → Bool) → (ℕ → Commit) → Body A → Connection → Result A × Connection
  unfolding tx_from
  tx_on busy commit body c = tx_from busy commit 6 0 body c

  -- `_tx` on the tables alone, where every commit succeeds, so that no transaction stays open.
  unfoldable pub tx {ℓ} : {A : Type ℓ} → (ℕ → Bool) → Body A → Body A
  unfolding tx_on
  tx busy body db =
      let r = tx_on busy (λ n. commits) body (record { db = db; in_transaction = false }) in
      (r.0, r.1.db)

  -- `_auto`: a read outside a transaction.
  unfoldable pub auto {ℓ} : {A : Type ℓ} → (Db → A) → Db → Result A
  auto read db = if db.closed then err Error.queue_closed else ok (read db)

  -- `_emit`.
  unfoldable pub emit : EventKind → ℕ → Option String → Option String → Fields → Db → Db
  emit kind now job_id batch_id detail db = record db {
    events =
        db.events
        ++ record {
          id = suc db.event_id;
          job_id = job_id;
          batch_id = batch_id;
          at = now;
          kind = kind;
          detail_json = C.dumps detail;
        }
          ∷ [];
    event_id = suc db.event_id;
  }

  abbrev pub has_id : String → Row C → Bool
  has_id job_id row = row.job_id == job_id

  abbrev pub batch_has_id : String → BatchRow → Bool
  batch_has_id batch_id row = row.batch_id == batch_id

  -- `_job_row` and `_batch_row`.
  unfoldable pub job_row : String → Db → Option (Row C)
  job_row job_id db = first_where (has_id job_id) db.jobs

  unfoldable pub batch_row : String → Db → Option BatchRow
  batch_row batch_id db = first_where (batch_has_id batch_id) db.batches

  -- `_require_job`.
  unfoldable pub require_job : String → Db → Result Job
  unfolding job_row
  require_job job_id db = elim (job_row job_id db) [
    | none ↦ err Error.not_found
    | some row ↦ ok (to_job C row)
  ]

  -- `UPDATE jobs SET ... WHERE ...`, and its `rowcount`.
  abbrev pub update_jobs : (Row C → Bool) → (Row C → Row C) → Db → Db
  update_jobs p f db = record db { jobs = update_where p f db.jobs }

  abbrev pub rowcount : (Row C → Bool) → Db → ℕ
  rowcount p db = count p db.jobs

  abbrev pub delete_jobs : (Row C → Bool) → Db → Db
  delete_jobs p db = record db { jobs = delete_where p db.jobs }

  abbrev pub update_batches : (BatchRow → Bool) → (BatchRow → BatchRow) → Db → Db
  update_batches p f db = record db { batches = update_where p f db.batches }

  abbrev pub of_batch : String → Row C → Bool
  of_batch batch_id row = row.batch_id == some batch_id

  -- `batch_id IS NULL OR EXISTS (SELECT 1 FROM batches b WHERE ... AND b.status=?)`.
  abbrev pub gate_open : List BatchRow → Option String → Bool
  gate_open batches none = true
  gate_open batches (some batch_id) =
      any_row (λ b. batch_has_id batch_id b && is_active b.status) batches

  -- The conditions of a claim in `_claim_sql`, `_candidates` and `claim_compatible`.
  abbrev pub row_claimable : ℕ → List BatchRow → Row C → Bool
  row_claimable now batches row =
      state_is row.state State.queued
      && not (is_after row.not_before now)
      && not (is_due row.deadline_at now)
      && not row.cancel_requested
      && gate_open batches row.batch_id

  -- The columns that `SELECT`s of candidates read: `_candidate_row`.
  abbrev pub candidate_row : Row C → Candidate
  candidate_row row = record {
    job_id = row.job_id;
    scheduling_class = row.scheduling_class;
    priority = row.priority;
    created_at = row.created_at;
    client_id = row.client_id;
    model = row.resolved_model;
    questions_hash = row.questions_hash;
  }

  -- `SELECT state, COUNT(*) ... GROUP BY state`, put over `empty_counts()`.
  abbrev pub state_count : State → List (Row C) → ℕ
  state_count state rows = count (λ row. state_is row.state state) rows

  unfoldable pub group_states : List (Row C) → Counts
  group_states rows = record {
    staged = state_count State.staged rows;
    queued = state_count State.queued rows;
    leased = state_count State.leased rows;
    running = state_count State.running rows;
    succeeded = state_count State.succeeded rows;
    retry_wait = state_count State.retry_wait rows;
    failed = state_count State.failed rows;
    dead_letter = state_count State.dead_letter rows;
    cancelled = state_count State.cancelled rows;
  }
