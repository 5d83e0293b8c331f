-- ===== src/Service/Views.antt =====
-- What src/keziah/service.py shows of jobs and batches: `_to_result`, `_receipt`, `_job_dict`,
-- `_batch_dict`, and the records of src/keziah/results.py.
use keziah.Base.{
  ℕ, suc, ◌+◌, ◌≡◌, ap, ◌∙◌, arith, String, Bool, true, false, Option, none, some, List, [], ◌∷◌,
  if◌then◌else◌, count, lookup, values, string_eq,
}
use keziah.Base.Int.{ℤ, pos}
use keziah.Types.{
  State, BatchStatus, Job, Batch, Counts, Progress, completion, Value, Fields, end, field, null,
  num, str, dict, get,
}
use keziah.Registry.{Settings}
use keziah.Memory.{Memory, in_batch}
use keziah.Memory.Batches.{count_state, count_states, empty_counts, batch_view}
use keziah.Service.Execute.{text_or_null, of_fallback, is_used}

-- `Result`; a field that is read from the stored result is a JSON value, with `null` for None.
pub record View : Type 0 where
  pub job_id : String
  pub status : State
  pub batch_id : Option String
  pub batch_ordinal : Option ℕ
  pub requested_model : String
  pub resolved_model : Value
  pub adapter : Value
  pub model_version : Value
  pub fallback_used : Bool
  pub fallback_reason : Value
  pub attempts : ℤ
  pub timings : Fields
  pub request : Fields
  pub response : Option Fields
  pub error : Option Fields
  pub finished_at : Value
  pub client_id : String
  pub scheduling_class : String
  pub priority : ℤ

abbrev pub number_or_null : Option ℕ → Value
number_or_null none = null
number_or_null (some n) = num (pos n)

abbrev pub fields_or_null : Option Fields → Value
fields_or_null none = null
fields_or_null (some m) = dict m

-- `stored.get(name, default)`.
abbrev pub get_or : String → Value → Fields → Value
get_or name default stored = elim (get name stored) [ none ↦ default | some v ↦ v ]

-- `stored.get(name) if isinstance(stored.get(name), dict) else None`.
abbrev pub object_at : String → Fields → Option Fields
object_at name stored = elim (get name stored) [
  | none ↦ none
  | some v ↦ elim v [ dict m ↦ some m | _ ↦ none ]
]

-- `int(...)` of the attempts, which `_settle_success` stores as a number.
abbrev pub attempts_or : ℤ → Value → ℤ
attempts_or default (num n) = n
attempts_or default _ = default

abbrev pub own_timings : Job → Fields
own_timings job = field "queue_ms" (number_or_null job.queue_ms) (
    field "execution_ms" (number_or_null job.execution_ms)
      (field "total_ms" (number_or_null job.total_ms) end))

-- The stored timings, unless there are none.
abbrev pub timings_of : Job → Option Fields → Fields
timings_of job none = own_timings job
timings_of job (some end) = own_timings job
timings_of job (some (field k v rest)) = field k v rest

abbrev pub request_of : Job → Option Fields → Fields
request_of job none = job.payload
request_of job (some m) = m

-- `job.finished_at or stored.get("finished_at")`.
abbrev pub finished_of : Option ℕ → Fields → Value
finished_of none stored = get_or "finished_at" null stored
finished_of (some t) stored = num (pos t)

-- The result of a job that stored none: the `else` branch.
unfoldable pub bare_view : Settings → Job → View
bare_view settings job = record {
  job_id = job.job_id;
  status = job.state;
  batch_id = job.batch_id;
  batch_ordinal = job.batch_ordinal;
  requested_model = job.requested_model;
  resolved_model = str job.resolved_model;
  adapter = elim (lookup job.resolved_model settings.models) [
    | none ↦ null
    | some spec ↦ str spec.adapter
  ];
  model_version = text_or_null job.model_version;
  fallback_used = is_used (of_fallback "used" job.fallback);
  fallback_reason = of_fallback "reason" job.fallback;
  attempts = pos job.attempt_count;
  timings = own_timings job;
  request = job.payload;
  response = none;
  error = job.error;
  finished_at = finished_of job.finished_at end;
  client_id = job.client_id;
  scheduling_class = job.scheduling_class;
  priority = job.priority;
}

-- The result of a job that stored one.
unfoldable pub stored_view : Settings → Job → Fields → View
unfolding bare_view
stored_view settings job stored = record (bare_view settings job) {
  resolved_model = get_or "resolved_model" (str job.resolved_model) stored;
  adapter = get_or "adapter" null stored;
  model_version = get_or "model_version" (text_or_null job.model_version) stored;
  fallback_used = is_used (get_or "fallback_used" (of_fallback "used" job.fallback) stored);
  fallback_reason = get_or "fallback_reason" (of_fallback "reason" job.fallback) stored;
  attempts =
      attempts_or (pos job.attempt_count) (get_or "attempts" (num (pos job.attempt_count)) stored);
  timings = timings_of job (object_at "timings" stored);
  request = request_of job (object_at "request" stored);
  response = object_at "response" stored;
  finished_at = finished_of job.finished_at stored;
}

-- `_to_result`; an empty stored result counts as none.
unfoldable pub to_result : Settings → Job → View
unfolding stored_view
to_result settings job = elim job.result [
  | none ↦ bare_view settings job
  | some stored ↦ elim stored [
    | end ↦ bare_view settings job
    | field k v rest ↦ stored_view settings job (field k v rest)
  ]
]

-- `BatchReceipt`.
pub record Receipt : Type 0 where
  pub batch_id : String
  pub job_count : ℕ
  pub status : BatchStatus
  pub created_at : ℕ
  pub completion : Progress
  pub idempotent_replay : Bool
  pub counts : Counts

-- `_receipt`.
unfoldable pub receipt : Batch → Receipt
unfolding completion
receipt batch = record {
  batch_id = batch.batch_id;
  job_count = batch.job_count;
  status = batch.status;
  created_at = batch.created_at;
  completion = completion batch;
  idempotent_replay = batch.replayed;
  counts = batch.counts;
}

-- The fields of `_batch_dict` that are not those of the batch.
pub record BatchView : Type 0 where
  pub batch : Batch
  pub completion : Progress
  pub queued : ℕ
  pub running : ℕ
  pub succeeded : ℕ
  pub failed : ℕ
  pub dead_letter : ℕ
  pub cancelled : ℕ

-- `_batch_dict`.
unfoldable pub batch_dict : Batch → BatchView
unfolding completion
batch_dict batch = record {
  batch = batch;
  completion = completion batch;
  queued = batch.counts.queued + batch.counts.retry_wait + batch.counts.staged;
  running = batch.counts.running + batch.counts.leased;
  succeeded = batch.counts.succeeded;
  failed = batch.counts.failed;
  dead_letter = batch.counts.dead_letter;
  cancelled = batch.counts.cancelled;
}

abbrev pub shown : BatchView → ℕ
shown v = v.queued + v.running + v.succeeded + v.failed + v.dead_letter + v.cancelled

-- One job more is shown once.
bumped :
    (state : State) (batch : Batch) (c : Counts)
    → shown (batch_dict (record batch { counts = count_state state c }))
      ≡ suc (shown (batch_dict (record batch { counts = c })))
unfolding batch_dict count_state
bumped state batch c = ground arith

counted-count :
    (p : Job → Bool) (jobs : List Job) (batch : Batch) (c : Counts)
    → shown (batch_dict (record batch { counts = count_states p jobs c }))
      ≡ shown (batch_dict (record batch { counts = c })) + count p jobs
unfolding batch_dict count_states
counted-count p [] batch c = omega arith
counted-count p (job ∷ jobs) batch c = go (p job) (λ d. counted-count p jobs batch d)
  where
    go :
        (b : Bool)
        → ((d : Counts)
            → shown (batch_dict (record batch { counts = count_states p jobs d }))
              ≡ shown (batch_dict (record batch { counts = d })) + count p jobs)
        → shown (
            batch_dict (record batch {
              counts = count_states p jobs (if b then count_state job.state c else c);
            }))
          ≡ shown (batch_dict (record batch { counts = c }))
            + (if b then suc (count p jobs) else count p jobs)
    go true rest =
        rest (count_state job.state c)
        ∙ (ap (λ n. n + count p jobs) (bumped job.state batch c) ∙ omega arith)
    go false rest = rest c

-- The numbers that `get_batch` shows of a batch add up to the number of its jobs in the queue.
pub batch_dict-batch_view :
    (batch : Batch) (s : Memory)
    → shown (batch_dict (batch_view batch s)) ≡ count (in_batch batch.batch_id) (values s.jobs)
unfolding batch_dict batch_view
batch_dict-batch_view batch s =
    counted-count (in_batch batch.batch_id) (values s.jobs) batch empty_counts ∙ omega arith
