-- ===== src/Types.antt =====
-- src/keziah/types.py: job states, the records of jobs and batches, the scheduling view of a job.
-- Identifiers, names and keys are strings. A timestamp is the number of milliseconds since the
-- epoch: `clock.isoformat` writes fixed-width UTC text whose lexical order is that of the numbers.
-- A JSON value is `Value`, and a `dict[str, Any]` is its `Fields`.
pub mod Json
unfoldable pub use Json.*
use keziah.Base.{
  ℕ, String, Bool, true, false, Option, List, [], ◌∷◌, ◌+◌, ◌&&◌, ltb, nat_eqb, if◌then◌else◌,
}
use keziah.Base.Int.{ℤ}

pub data State : Type 0 where
  staged queued leased running succeeded retry_wait failed dead_letter cancelled : State

-- `TERMINAL_STATES`.
abbrev pub is_terminal : State → Bool
is_terminal State.succeeded = true
is_terminal State.failed = true
is_terminal State.dead_letter = true
is_terminal State.cancelled = true
is_terminal _ = false

-- `INCOMPLETE_STATES`.
abbrev pub is_incomplete : State → Bool
is_incomplete State.staged = true
is_incomplete State.queued = true
is_incomplete State.leased = true
is_incomplete State.running = true
is_incomplete State.retry_wait = true
is_incomplete _ = false

abbrev pub rank : State → ℕ
rank State.staged = 0
rank State.queued = 1
rank State.leased = 2
rank State.running = 3
rank State.succeeded = 4
rank State.retry_wait = 5
rank State.failed = 6
rank State.dead_letter = 7
rank State.cancelled = 8

-- `==` on state names.
abbrev pub state_is : State → State → Bool
state_is a b = nat_eqb (rank a) (rank b)

-- The test `state in {LEASED, RUNNING}`.
abbrev pub is_held : State → Bool
is_held State.leased = true
is_held State.running = true
is_held _ = false

-- `BATCH_STAGING`, `BATCH_ACTIVE`, `BATCH_ABORTED`.
pub data BatchStatus : Type 0 where
  staging active aborted : BatchStatus

abbrev pub is_staging : BatchStatus → Bool
is_staging BatchStatus.staging = true
is_staging _ = false

abbrev pub is_active : BatchStatus → Bool
is_active BatchStatus.active = true
is_active _ = false

-- `SCHEDULING_CLASSES`.
abbrev pub scheduling_classes : List String
scheduling_classes = "interactive" ∷ "normal" ∷ "batch" ∷ "bulk" ∷ []

-- `Job`. An empty idempotency key, which the source tests as false, is `none`.
pub record Job : Type 0 where
  pub job_id : String
  pub batch_id : Option String
  pub batch_ordinal : Option ℕ
  pub idempotency_key : Option String
  pub idempotency_hash : Option String
  pub client_id : String
  pub created_at : ℕ
  pub updated_at : ℕ
  pub started_at : Option ℕ
  pub finished_at : Option ℕ
  pub not_before : Option ℕ
  pub priority : ℤ
  pub scheduling_class : String
  pub requested_model : String
  pub resolved_model : String
  pub model_version : Option String
  pub state : State
  pub payload : Fields
  pub questions_hash : String
  pub attempt_count : ℕ
  pub max_attempts : ℕ
  pub lease_owner : Option String
  pub lease_expires_at : Option ℕ
  pub execution_timeout_ms : Option ℤ
  pub deadline_at : Option ℕ
  pub result : Option Fields
  pub error : Option Fields
  pub queue_ms : Option ℕ
  pub execution_ms : Option ℕ
  pub total_ms : Option ℕ
  pub cancel_requested : Bool
  pub fallback : Option Fields
  pub replayed : Bool

-- `counts`, the number of jobs of a batch by state, with a field for each name of `empty_counts`.
pub record Counts : Type 0 where
  pub staged : ℕ
  pub queued : ℕ
  pub leased : ℕ
  pub running : ℕ
  pub succeeded : ℕ
  pub retry_wait : ℕ
  pub failed : ℕ
  pub dead_letter : ℕ
  pub cancelled : ℕ

-- `Batch`.
pub record Batch : Type 0 where
  pub batch_id : String
  pub client_id : String
  pub status : BatchStatus
  pub requested_model : Option String
  pub job_count : ℕ
  pub created_at : ℕ
  pub activated_at : Option ℕ
  pub idempotency_key : Option String
  pub idempotency_hash : Option String
  pub deadline_at : Option ℕ
  pub counts : Counts
  pub replayed : Bool

pub data Progress : Type 0 where
  aborted staging complete ongoing : Progress

-- The sum over `INCOMPLETE_STATES` in `Batch.completion`.
abbrev pub pending : Counts → ℕ
pending c = c.staged + c.queued + c.leased + c.running + c.retry_wait

abbrev pub settled_progress : ℕ → ℕ → Progress
settled_progress job_count left =
    if ltb 0 job_count && nat_eqb left 0 then Progress.complete else Progress.ongoing

abbrev pub progress : BatchStatus → ℕ → ℕ → Progress
progress BatchStatus.aborted job_count left = Progress.aborted
progress BatchStatus.staging job_count left = Progress.staging
progress BatchStatus.active job_count left = settled_progress job_count left

-- `Batch.completion`.
unfoldable pub completion : Batch → Progress
completion b = progress b.status b.job_count (pending b.counts)

-- `Candidate`.
pub record Candidate : Type 0 where
  pub job_id : String
  pub scheduling_class : String
  pub priority : ℤ
  pub created_at : ℕ
  pub client_id : String
  pub model : String
  pub questions_hash : String
