-- ===== src/Memory.antt =====
-- src/keziah/queue/memory.py and src/keziah/queue/common.py: the state of the in-memory queue.
-- A method takes the state and returns its result and the new state; an exception is an `Error`,
-- with the state as it stands when it is raised. The lock makes each method one step. A `Job` that
-- the source mutates in place is the entry of `jobs` under its key; a copy needs no model.
pub mod Submit
pub mod Batches
pub mod Staged
pub mod Lease
pub mod Settle
pub mod Maintain
pub mod Read
pub mod Loops
pub mod Matching
pub mod Invariant
pub mod Keeps
pub mod Run
pub mod Claims
use keziah.Base.{
  ℕ, suc, ◌+◌, String, Bool, true, false, ◌&&◌, not, Option, none, some, List, [], ◌∷◌, ◌++◌, ltb,
  leb, if◌then◌else◌, Dict, lookup, insert, erase, keys, values, count, ◌==◌, string_eq, option_eq,
}
use keziah.Types.{
  State, Job, Batch, Candidate, Fields, end, field, null, num, get, is_active, is_incomplete,
  is_held, state_is,
}
use keziah.Base.Int.{pos}
use keziah.Ready.{Index, add, remove}

-- The exceptions of the queue. `key_error` is Python's own, from a subscript of a dictionary;
-- `integrity_error`, `database_locked` and `operational_error`, any other of its operational errors,
-- are SQLite's.
pub data Error : Type 0 where
  queue_closed not_found wrong_batch_status wrong_job_status not_in_batch : Error
  batch_too_large queue_full client_full key_error integrity_error database_locked : Error
  operational_error : Error
  conflict : (existing : String) → Error

pub data Result {ℓ} (A : Type ℓ) : Type ℓ where
  ok : A → Result A
  err : Error → Result A

pub data EventKind : Type 0 where
  submitted claimed started succeeded failed dead_lettered cancelled retry_scheduled : EventKind
  promoted requeued released lease_expired : EventKind

-- `event(...)`, with the row's id.
pub record Event : Type 0 where
  pub id : ℕ
  pub job_id : Option String
  pub batch_id : Option String
  pub at : ℕ
  pub kind : EventKind
  pub detail : Fields

-- `Limits`.
pub record Limits : Type 0 where
  pub max_queued_jobs : ℕ
  pub max_batch_size : ℕ
  pub max_active_jobs_per_client : ℕ

-- The fields of `MemoryBackend`. The clock is an argument of the method that reads it.
pub record Memory : Type 0 where
  pub limits : Limits
  pub jobs : Dict String Job
  pub batches : Dict String Batch
  pub idemp : Dict (String × String) String
  pub batch_idemp : Dict (String × String) String
  pub events : List Event
  pub event_id : ℕ
  pub index : Index
  pub closed : Bool

-- `candidate_from_job`.
abbrev pub candidate_from_job : Job → Candidate
candidate_from_job job = record {
  job_id = job.job_id;
  scheduling_class = job.scheduling_class;
  priority = job.priority;
  created_at = job.created_at;
  client_id = job.client_id;
  model = job.resolved_model;
  questions_hash = job.questions_hash;
}

abbrev pub is_some {ℓ} : {A : Type ℓ} → Option A → Bool
is_some none = false
is_some (some a) = true

-- `value is not None and value > now` and `value is not None and value <= now`.
abbrev pub is_after : Option ℕ → ℕ → Bool
is_after none now = false
is_after (some t) now = ltb now t

abbrev pub is_due : Option ℕ → ℕ → Bool
is_due none now = false
is_due (some t) now = leb t now

-- `claimable`.
unfoldable pub claimable : Job → ℕ → Bool → Bool
claimable job now batch_active =
    if not (state_is job.state State.queued)
    then false
    else if job.cancel_requested
    then false
    else if not batch_active
    then false
    else if is_after job.not_before now
    then false
    else not (is_due job.deadline_at now)

-- `owned_running`.
abbrev pub owned_running : Job → String → Bool
owned_running job owner = state_is job.state State.running && job.lease_owner == some owner

-- `event(...)` and the row's id.
abbrev pub event_row : ℕ → EventKind → ℕ → Option String → Option String → Fields → Event
event_row id kind now job_id batch_id detail = record {
  id = id;
  job_id = job_id;
  batch_id = batch_id;
  at = now;
  kind = kind;
  detail = detail;
}

-- `self._emit(...)`.
unfoldable pub emit : EventKind → ℕ → Option String → Option String → Fields → Memory → Memory
emit kind now job_id batch_id detail s = record s {
  event_id = suc s.event_id;
  events = s.events ++ event_row (suc s.event_id) kind now job_id batch_id detail ∷ [];
}

-- An event about a job.
abbrev pub emit_job : EventKind → ℕ → Job → Fields → Memory → Memory
emit_job kind now job detail s = emit kind now (some job.job_id) job.batch_id detail s

-- The detail `{"attempt": job.attempt_count}`.
abbrev pub attempt_detail : Job → Fields
attempt_detail job = field "attempt" (num (pos job.attempt_count)) end

-- `error.get("code")` in an event's detail.
abbrev pub code_detail : Fields → Fields
code_detail error = field "code" (elim (get "code" error) [ none ↦ null | some v ↦ v ]) end

-- The job under a key, changed in place.
abbrev pub put : String → Job → Memory → Memory
put key job s = record s { jobs = insert key job s.jobs }

abbrev pub index_add : Job → Memory → Memory
index_add job s = record s { index = add (candidate_from_job job) s.index }

abbrev pub index_remove : String → Memory → Memory
index_remove job_id s = record s { index = remove job_id s.index }

-- `_batch_is_active`.
unfoldable pub batch_is_active : Option String → Dict String Batch → Bool
batch_is_active none batches = true
batch_is_active (some b) batches = elim (lookup b batches) [
  | none ↦ false
  | some batch ↦ is_active batch.status
]

-- `for job in list(...)`: a loop over jobs that were listed before it starts. The objects are those
-- of the table, so each turn reads the job as it is then. `R` is what the loop accumulates.
unfoldable pub for_each {ℓ} :
    {R : Type ℓ} → List String → (String → Job → Memory × R → Memory × R) → Memory × R → Memory × R
for_each [] body s = s
for_each (key ∷ rest) body s =
    for_each rest body (elim (lookup key s.0.jobs) [ none ↦ s | some job ↦ body key job s ])

-- The keys of the jobs that pass a test, in order.
unfoldable pub keys_where : (Job → Bool) → Dict String Job → List String
keys_where p [] = []
keys_where p ((key, job) ∷ m) = let rest = keys_where p m in if p job then key ∷ rest else rest

-- `_jobs_for_batch`.
abbrev pub in_batch : String → Job → Bool
in_batch batch_id job = job.batch_id == some batch_id

-- `_mark_cancelled` on the job.
unfoldable pub cancelled_job : ℕ → Job → Job
cancelled_job now job = record job {
  state = State.cancelled;
  finished_at = some now;
  updated_at = now;
  lease_owner = none;
  lease_expires_at = none;
  cancel_requested = true;
}

-- `_mark_cancelled`.
unfoldable pub mark_cancelled : ℕ → String → Job → Memory → Memory
unfolding cancelled_job emit
mark_cancelled now key job s =
    emit_job EventKind.cancelled now job end
      (index_remove job.job_id (put key (cancelled_job now job) s))

-- `_finish_failure` on the job, once its guard has passed.
unfoldable pub failed_job : Fields → Bool → ℕ → Job → Job
failed_job error dead_letter now job = record job {
  state = if dead_letter then State.dead_letter else State.failed;
  error = some error;
  finished_at = some now;
  updated_at = now;
  lease_owner = none;
  lease_expires_at = none;
}

-- `_finish_failure`.
unfoldable pub finish_failure : Fields → Bool → ℕ → Bool → String → Job → Memory → Memory
unfolding failed_job emit
finish_failure error dead_letter now force key job s =
    if not force && not (state_is job.state State.running)
    then s
    else emit_job (if dead_letter then EventKind.dead_lettered else EventKind.failed) now job
        (code_detail error)
        (index_remove job.job_id (put key (failed_job error dead_letter now job) s))
