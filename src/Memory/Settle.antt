-- ===== src/Memory/Settle.antt =====
-- The end of an attempt in src/keziah/queue/memory.py: `complete`, `fail`, `retry`, `finish_cancel`,
-- `cancel`, `cancel_batch`, `requeue`, `release_leases`, `release_to_queue`, `close`.
use text.Mathlib.Text.{starts_with}
use keziah.Base.{
  ℕ, suc, ◌-◌, String, Bool, true, false, ◌&&◌, not, Option, none, some, List, [], ◌∷◌, ◌++◌,
  if◌then◌else◌, lookup, keys, ◌==◌, string_eq, option_eq,
}
use keziah.Base.Int.{pos}
use keziah.Types.{State, Job, Fields, end, field, num, is_held, state_is}
use keziah.Ready.{empty_index}
use keziah.Memory.{
  Memory, Result, ok, err, Error, EventKind, emit, emit_job, attempt_detail, put, index_add,
  index_remove, for_each, keys_where, in_batch, owned_running, mark_cancelled, finish_failure,
}
use keziah.Memory.Lease.{holds_lease}

-- The arguments of `complete` that it stores.
pub record Completion : Type 0 where
  pub result : Fields
  pub model_version : Option String
  pub queue_ms : Option ℕ
  pub execution_ms : Option ℕ
  pub total_ms : Option ℕ

unfoldable pub completed_job : Completion → ℕ → Job → Job
completed_job c now job = record job {
  state = State.succeeded;
  result = some c.result;
  model_version = c.model_version;
  queue_ms = c.queue_ms;
  execution_ms = c.execution_ms;
  total_ms = c.total_ms;
  finished_at = some now;
  updated_at = now;
  lease_owner = none;
  lease_expires_at = none;
  error = none;
}

unfoldable pub complete : String → String → Completion → ℕ → Memory → Bool × Memory
unfolding completed_job emit
complete job_id owner c now s = elim (lookup job_id s.jobs) [
  | none ↦ (false, s)
  | some job ↦
      if owned_running job owner
      then (true, emit_job EventKind.succeeded now job end (put job_id (completed_job c now job) s))
      else (false, s)
]

unfoldable pub fail : String → String → Fields → Bool → ℕ → Memory → Bool × Memory
unfolding finish_failure
fail job_id owner error dead_letter now s = elim (lookup job_id s.jobs) [
  | none ↦ (false, s)
  | some job ↦
      if owned_running job owner
      then (true, finish_failure error dead_letter now false job_id job s)
      else (false, s)
]

-- The arguments of `retry` that it stores.
pub record Retry : Type 0 where
  pub error : Fields
  pub not_before : ℕ
  pub resolved_model : String
  pub fallback : Option Fields

unfoldable pub retrying_job : Retry → ℕ → Job → Job
retrying_job r now job = record job {
  state = State.retry_wait;
  error = some r.error;
  not_before = some r.not_before;
  resolved_model = r.resolved_model;
  fallback = r.fallback;
  lease_owner = none;
  lease_expires_at = none;
  updated_at = now;
}

unfoldable pub retry : String → String → Retry → ℕ → Memory → Bool × Memory
unfolding retrying_job emit
retry job_id owner r now s = elim (lookup job_id s.jobs) [
  | none ↦ (false, s)
  | some job ↦
      if owned_running job owner
      then (
        true,
        emit_job EventKind.retry_scheduled now job (field "not_before" (num (pos r.not_before)) end)
            (index_remove job_id (put job_id (retrying_job r now job) s)),
      )
      else (false, s)
]

unfoldable pub finish_cancel : String → String → ℕ → Memory → Bool × Memory
unfolding mark_cancelled
finish_cancel job_id owner now s = elim (lookup job_id s.jobs) [
  | none ↦ (false, s)
  | some job ↦ if holds_lease owner job then (true, mark_cancelled now job_id job s) else (false, s)
]

-- `state in {QUEUED, RETRY_WAIT, STAGED, LEASED}`.
abbrev pub is_cancellable : State → Bool
is_cancellable State.queued = true
is_cancellable State.retry_wait = true
is_cancellable State.staged = true
is_cancellable State.leased = true
is_cancellable _ = false

-- A running job is only asked to stop.
unfoldable pub asked_job : ℕ → Job → Job
asked_job now job = record job { cancel_requested = true; updated_at = now }

-- The branches of `cancel` on the job.
unfoldable pub cancel_job : ℕ → String → Job → Memory → Memory
unfolding mark_cancelled asked_job
cancel_job now key job s =
    if is_cancellable job.state
    then mark_cancelled now key job s
    else if state_is job.state State.running
    then put key (asked_job now job) s
    else s

-- `cancel` returns a copy of the job as it is afterwards.
unfoldable pub cancel : String → ℕ → Memory → Result (Option Job) × Memory
unfolding cancel_job
cancel job_id now s = elim (lookup job_id s.jobs) [
  | none ↦ (err Error.not_found, s)
  | some job ↦ let t = cancel_job now job_id job s in (ok (lookup job_id t.jobs), t)
]

-- The loop body of `cancel_batch`, with the number of changes.
unfoldable pub cancel_turn : ℕ → String → Job → Memory × ℕ → Memory × ℕ
unfolding mark_cancelled asked_job
cancel_turn now key job r =
    if is_cancellable job.state
    then (mark_cancelled now key job r.0, suc r.1)
    else if state_is job.state State.running && not job.cancel_requested
    then (put key (asked_job now job) r.0, suc r.1)
    else r

unfoldable pub cancel_batch : String → ℕ → Memory → Result ℕ × Memory
unfolding cancel_turn
cancel_batch batch_id now s = elim (lookup batch_id s.batches) [
  | none ↦ (err Error.not_found, s)
  | some batch ↦
      let r = for_each (keys_where (in_batch batch_id) s.jobs) (cancel_turn now) (s, 0) in
      (ok r.1, r.0)
]

abbrev pub is_requeueable : State → Bool
is_requeueable State.failed = true
is_requeueable State.dead_letter = true
is_requeueable _ = false

unfoldable pub requeued_job : ℕ → Job → Job
requeued_job now job = record job {
  state = State.queued;
  attempt_count = 0;
  error = none;
  result = none;
  started_at = none;
  finished_at = none;
  lease_owner = none;
  lease_expires_at = none;
  not_before = none;
  cancel_requested = false;
  queue_ms = none;
  execution_ms = none;
  total_ms = none;
  updated_at = now;
}

unfoldable pub requeue : String → ℕ → Memory → Result Job × Memory
unfolding requeued_job emit
requeue job_id now s = elim (lookup job_id s.jobs) [
  | none ↦ (err Error.not_found, s)
  | some job ↦
      if not (is_requeueable job.state)
      then (err Error.wrong_job_status, s)
      else let fresh = requeued_job now job in
        (ok fresh, emit_job EventKind.requeued now fresh end (index_add fresh (put job_id fresh s)))
]

-- `if resolved_model:`; an empty name counts as none.
abbrev pub retarget : Option String → String → String
retarget none old = old
retarget (some new) old = if new == "" then old else new

unfoldable pub released_job : Option String → Bool → ℕ → Job → Job
released_job resolved_model decrement now job = record job {
  attempt_count = if decrement then job.attempt_count - 1 else job.attempt_count;
  resolved_model = retarget resolved_model job.resolved_model;
  state = State.queued;
  lease_owner = none;
  lease_expires_at = none;
  updated_at = now;
}

-- `_release_unlocked`.
unfoldable pub release_unlocked :
    String → Job → String → ℕ → Option String → Bool → EventKind → Memory → Bool × Memory
unfolding released_job emit
release_unlocked key job owner now resolved_model decrement kind s =
    if holds_lease owner job
    then (let fresh = released_job resolved_model decrement now job in
        (true, index_add fresh (emit_job kind now fresh (attempt_detail fresh) (put key fresh s))))
    else (false, s)

unfoldable pub release_to_queue :
    String → String → ℕ → Option String → Bool → EventKind → Memory → Bool × Memory
unfolding release_unlocked
release_to_queue job_id owner now resolved_model decrement kind s = elim (lookup job_id s.jobs) [
  | none ↦ (false, s)
  | some job ↦ release_unlocked job_id job owner now resolved_model decrement kind s
]

-- The loop body of `release_leases`, with the ids released.
abbrev pub release_owned :
    String → ℕ → String → Job → Option String → Memory × List String → Memory × List String
release_owned prefix now key job none r = r
release_owned prefix now key job (some owner) r =
    if not (owner == "") && starts_with owner prefix
    then (
      (release_unlocked key job owner now none true EventKind.released r.0).1,
      r.1 ++ job.job_id ∷ [],
    )
    else r

unfoldable pub release_turn :
    String → ℕ → String → Job → Memory × List String → Memory × List String
unfolding release_unlocked
release_turn prefix now key job r =
    if not (is_held job.state) then r else release_owned prefix now key job job.lease_owner r

unfoldable pub release_leases : String → ℕ → Memory → List String × Memory
unfolding release_turn
release_leases prefix now s =
    let r = for_each (keys s.jobs) (release_turn prefix now) (s, []) in (r.1, r.0)

unfoldable pub close : Memory → Memory
close s = record s { closed = true; jobs = []; batches = []; index = empty_index }
