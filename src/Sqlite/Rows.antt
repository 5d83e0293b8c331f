-- ===== src/Sqlite/Rows.antt =====
-- The rows of src/keziah/queue/sqlite.py. A column that holds JSON text is a text of `Codec`, written
-- by `jsonutil.dumps` and read by `jsonutil.loads`, which call Python's `json`; the tables hold only
-- texts that `dumps` wrote, so a text that `json` would reject has no model. A column of 0 and 1 is a
-- Boolean, and a state is one of `State`.
use keziah.Base.{ℕ, ◌≡◌, refl, ap, String, Bool, false, Option, none, some}
use keziah.Base.Int.{ℤ}
use keziah.Types.{State, Job, BatchStatus, Fields, end}

pub record Codec : Type 1 where
  pub Text : Type 0
  pub dumps : Fields → Text
  pub loads : Text → Option Fields

-- What the columns rely on: a value that was written is read back.
pub record IsCodec (C : Codec) : Type 0 where
  pub loads-dumps : (m : Fields) → C.loads (C.dumps m) ≡ some m

-- A row of `batches`.
pub record BatchRow : Type 0 where
  pub batch_id : String
  pub client_id : String
  pub status : BatchStatus
  pub requested_model : Option String
  pub job_count : ℕ
  pub created_at : ℕ
  pub activated_at : Option ℕ
  pub idempotency_key : Option String
  pub idempotency_hash : Option String
  pub deadline_at : Option ℕ

module _ (C : Codec) where
  open C use {Text, dumps, loads}

  -- A row of `jobs`.
  pub record Row : Type 0 where
    pub job_id : String
    pub batch_id : Option String
    pub batch_ordinal : Option ℕ
    pub idempotency_key : Option String
    pub idempotency_hash : Option String
    pub client_id : String
    pub created_at : ℕ
    pub updated_at : ℕ
    pub started_at : Option ℕ
    pub finished_at : Option ℕ
    pub not_before : Option ℕ
    pub priority : ℤ
    pub scheduling_class : String
    pub requested_model : String
    pub resolved_model : String
    pub model_version : Option String
    pub state : State
    pub payload_json : Text
    pub questions_hash : String
    pub attempt_count : ℕ
    pub max_attempts : ℕ
    pub lease_owner : Option String
    pub lease_expires_at : Option ℕ
    pub execution_timeout_ms : Option ℤ
    pub deadline_at : Option ℕ
    pub result_json : Option Text
    pub error_json : Option Text
    pub queue_ms : Option ℕ
    pub execution_ms : Option ℕ
    pub total_ms : Option ℕ
    pub cancel_requested : Bool
    pub fallback_json : Option Text

  -- `dumps(value) if value is not None else None`.
  abbrev pub maybe_dumps : Option Fields → Option Text
  maybe_dumps none = none
  maybe_dumps (some m) = some (dumps m)

  -- `loads`, which maps NULL to None.
  abbrev pub maybe_loads : Option Text → Option Fields
  maybe_loads none = none
  maybe_loads (some text) = loads text

  -- `loads(text) or {}`.
  abbrev pub loads_or_empty : Text → Fields
  loads_or_empty text = elim (loads text) [ none ↦ end | some m ↦ m ]

  -- The values of `_insert_job`, which the statement gives by the places of the columns. The flag, 1 or
  -- 0, is a Boolean here.
  abbrev pub row_of : Job → Row
  row_of job = record {
    job_id = job.job_id;
    batch_id = job.batch_id;
    batch_ordinal = job.batch_ordinal;
    idempotency_key = job.idempotency_key;
    idempotency_hash = job.idempotency_hash;
    client_id = job.client_id;
    created_at = job.created_at;
    updated_at = job.updated_at;
    started_at = job.started_at;
    finished_at = job.finished_at;
    not_before = job.not_before;
    priority = job.priority;
    scheduling_class = job.scheduling_class;
    requested_model = job.requested_model;
    resolved_model = job.resolved_model;
    model_version = job.model_version;
    state = job.state;
    payload_json = dumps job.payload;
    questions_hash = job.questions_hash;
    attempt_count = job.attempt_count;
    max_attempts = job.max_attempts;
    lease_owner = job.lease_owner;
    lease_expires_at = job.lease_expires_at;
    execution_timeout_ms = job.execution_timeout_ms;
    deadline_at = job.deadline_at;
    result_json = maybe_dumps job.result;
    error_json = maybe_dumps job.error;
    queue_ms = job.queue_ms;
    execution_ms = job.execution_ms;
    total_ms = job.total_ms;
    cancel_requested = job.cancel_requested;
    fallback_json = maybe_dumps job.fallback;
  }

  -- `_to_job`: `bool` and `int` of a column that holds such a value leave it as it is.
  abbrev pub to_job : Row → Job
  to_job row = record {
    job_id = row.job_id;
    batch_id = row.batch_id;
    batch_ordinal = row.batch_ordinal;
    idempotency_key = row.idempotency_key;
    idempotency_hash = row.idempotency_hash;
    client_id = row.client_id;
    created_at = row.created_at;
    updated_at = row.updated_at;
    started_at = row.started_at;
    finished_at = row.finished_at;
    not_before = row.not_before;
    priority = row.priority;
    scheduling_class = row.scheduling_class;
    requested_model = row.requested_model;
    resolved_model = row.resolved_model;
    model_version = row.model_version;
    state = row.state;
    payload = loads_or_empty row.payload_json;
    questions_hash = row.questions_hash;
    attempt_count = row.attempt_count;
    max_attempts = row.max_attempts;
    lease_owner = row.lease_owner;
    lease_expires_at = row.lease_expires_at;
    execution_timeout_ms = row.execution_timeout_ms;
    deadline_at = row.deadline_at;
    result = maybe_loads row.result_json;
    error = maybe_loads row.error_json;
    queue_ms = row.queue_ms;
    execution_ms = row.execution_ms;
    total_ms = row.total_ms;
    cancel_requested = row.cancel_requested;
    fallback = maybe_loads row.fallback_json;
    replayed = false;
  }

module _ (C : Codec) (codec : IsCodec C) where
  pub maybe_loads-dumps : (o : Option Fields) → maybe_loads C (maybe_dumps C o) ≡ o
  maybe_loads-dumps none = refl
  maybe_loads-dumps (some m) = codec.loads-dumps m

  loads_or_empty-dumps : (m : Fields) → loads_or_empty C (C.dumps m) ≡ m
  loads_or_empty-dumps m =
      ap (λ (o : Option Fields). elim o [ none ↦ end | some v ↦ v ]) (codec.loads-dumps m)
