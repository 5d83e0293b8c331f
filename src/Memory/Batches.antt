-- ===== src/Memory/Batches.antt =====
-- Batches in src/keziah/queue/memory.py: a batch is begun, staged in chunks, and then activated or
-- aborted.
use keziah.Base.{
  ℕ, suc, ◌+◌, String, Bool, true, ◌||◌, not, Option, none, some, List, [], ◌∷◌, ltb, if◌then◌else◌,
  Dict, lookup, insert, erase, values, length, ◌==◌, string_eq, option_eq, pair_eq,
}
use keziah.Base.Int.{pos}
use keziah.Types.{
  State, Job, Batch, BatchStatus, Counts, end, field, num, bool, str, is_active, is_staging,
  state_is,
}
use keziah.Memory.{
  Memory, Result, ok, err, Error, EventKind, emit, put, index_add, index_remove, for_each,
  keys_where, in_batch,
}
use keziah.Memory.Submit.{existing_job, reserve_capacity, remember_job, remember_key}

abbrev pub empty_counts : Counts
empty_counts = record {
  staged = 0;
  queued = 0;
  leased = 0;
  running = 0;
  succeeded = 0;
  retry_wait = 0;
  failed = 0;
  dead_letter = 0;
  cancelled = 0;
}

-- `counts[job.state] += 1`.
unfoldable pub count_state : State → Counts → Counts
count_state State.staged c = record c { staged = suc c.staged }
count_state State.queued c = record c { queued = suc c.queued }
count_state State.leased c = record c { leased = suc c.leased }
count_state State.running c = record c { running = suc c.running }
count_state State.succeeded c = record c { succeeded = suc c.succeeded }
count_state State.retry_wait c = record c { retry_wait = suc c.retry_wait }
count_state State.failed c = record c { failed = suc c.failed }
count_state State.dead_letter c = record c { dead_letter = suc c.dead_letter }
count_state State.cancelled c = record c { cancelled = suc c.cancelled }

-- The loop of `fill_counts`, over the jobs that pass a test.
unfoldable pub count_states : (Job → Bool) → List Job → Counts → Counts
unfolding count_state
count_states p [] c = c
count_states p (job ∷ jobs) c = count_states p jobs (if p job then count_state job.state c else c)

-- `_batch_view` of a batch that is there.
unfoldable pub batch_view : Batch → Memory → Batch
unfolding count_states
batch_view batch s = record batch {
  counts = count_states (in_batch batch.batch_id) (values s.jobs) empty_counts;
}

-- The batch under a key, changed in place.
abbrev pub put_batch : String → Batch → Memory → Memory
put_batch key batch s = record s { batches = insert key batch s.batches }

-- `find_batch_idempotency`.
unfoldable pub find_batch_idempotency : String → String → Memory → Result (Option Batch)
unfolding batch_view
find_batch_idempotency client key s = elim (lookup (client, key) s.batch_idemp) [
  | none ↦ ok none
  | some found ↦ elim (lookup found s.batches) [
    | none ↦ err Error.key_error
    | some batch ↦ ok (some (batch_view batch s))
  ]
]

-- `_existing_batch`.
unfoldable pub existing_batch : Batch → Memory → Result (Option Batch)
unfolding batch_view
existing_batch batch s = elim batch.idempotency_key [
  | none ↦ ok none
  | some key ↦ elim (lookup (batch.client_id, key) s.batch_idemp) [
    | none ↦ ok none
    | some found ↦ elim (lookup found s.batches) [
      | none ↦ err Error.key_error
      | some current ↦
          if current.idempotency_hash == batch.idempotency_hash
          then ok (some (record (batch_view current s) { replayed = true }))
          else err (Error.conflict current.batch_id)
    ]
  ]
]

abbrev pub status_text : BatchStatus → String
status_text BatchStatus.staging = "staging"
status_text BatchStatus.active = "active"
status_text BatchStatus.aborted = "aborted"

-- A new batch is stored without its key: the key is taken at activation.
unfoldable pub open_batch : Batch → Memory → Memory
unfolding emit
open_batch batch s =
    emit EventKind.submitted batch.created_at none (some batch.batch_id)
      (field "status" (str (status_text batch.status)) end)
      (put_batch batch.batch_id (record batch { idempotency_key = none; idempotency_hash = none })
        s)

unfoldable pub begin_batch : Batch → Memory → Result Batch × Memory
unfolding existing_batch open_batch
begin_batch batch s =
    if s.closed then (err Error.queue_closed, s) else elim (existing_batch batch s) [
      | err e ↦ (err e, s)
      | ok (some replay) ↦ (ok replay, s)
      | ok none ↦
          if ltb s.limits.max_batch_size batch.job_count then (err Error.batch_too_large, s) else (
            ok (
                batch_view (record batch { idempotency_key = none; idempotency_hash = none })
                  (open_batch batch s)),
            open_batch batch s,
          )
    ]

-- One job of a chunk is stored.
unfoldable pub stage_one : String → Job → Memory → Memory
unfolding remember_job emit
stage_one batch_id job s =
    emit EventKind.submitted job.created_at (some job.job_id) (some batch_id)
      (field "staged" (bool true) end) (remember_job job s)

-- The loop of `stage_jobs`. An exception leaves the jobs before it in place.
unfoldable pub stage_loop : String → List Job → Memory → Result (Unit {0}) × Memory
unfolding existing_job stage_one
stage_loop batch_id [] s = (ok tt, s)
stage_loop batch_id (job ∷ jobs) s =
    if not (in_batch batch_id job) || not (state_is job.state State.staged)
    then (err Error.not_in_batch, s)
    else elim (existing_job job s) [
      | err e ↦ (err e, s)
      | ok (some dup) ↦ (err (Error.conflict dup.job_id), s)
      | ok none ↦ stage_loop batch_id jobs (stage_one batch_id job s)
    ]

-- `if jobs: self._reserve_capacity(jobs[0].client_id, len(jobs))`.
abbrev pub reserve_for : List Job → Memory → Result (Unit {0})
reserve_for [] s = ok tt
reserve_for (job ∷ jobs) s = reserve_capacity job.client_id (length (job ∷ jobs)) s

-- `batch.job_count += len(jobs)`.
abbrev pub grow_batch : String → Batch → ℕ → Memory → Memory
grow_batch key batch n s = put_batch key (record batch { job_count = batch.job_count + n }) s

-- The end of `stage_jobs`: the count grows unless the loop raised.
abbrev pub close_stage : String → Batch → ℕ → Result (Unit {0}) × Memory → Result ℕ × Memory
close_stage key batch n (err e, t) = (err e, t)
close_stage key batch n (ok _, t) = (ok (batch.job_count + n), grow_batch key batch n t)

unfoldable pub stage_jobs : String → List Job → Memory → Result ℕ × Memory
unfolding reserve_capacity stage_loop
stage_jobs batch_id jobs s =
    if s.closed then (err Error.queue_closed, s) else elim (lookup batch_id s.batches) [
      | none ↦ (err Error.not_found, s)
      | some batch ↦
          if not (is_staging batch.status)
          then (err Error.wrong_batch_status, s)
          else if ltb s.limits.max_batch_size (batch.job_count + length jobs)
          then (err Error.batch_too_large, s)
          else elim (reserve_for jobs s) [
            | err e ↦ (err e, s)
            | ok _ ↦ close_stage batch_id batch (length jobs) (stage_loop batch_id jobs s)
          ]
    ]

-- `_abort_unlocked` on one job of the batch. `pop` of its key drops whatever stands there.
abbrev pub forget_key :
    Option String → String → Dict (String × String) String → Dict (String × String) String
forget_key none client idemp = idemp
forget_key (some key) client idemp = erase (client, key) idemp

-- `_forget_job`, and the loop body of `_abort_unlocked`.
unfoldable pub forget_job : String → Job → Memory → Memory
forget_job key job s = index_remove job.job_id (record s {
  jobs = erase key s.jobs;
  idemp = forget_key job.idempotency_key job.client_id s.idemp;
})

-- The end of `_abort_unlocked`, on the batch.
unfoldable pub aborted_batch : Batch → Batch
aborted_batch batch = record batch {
  status = BatchStatus.aborted;
  job_count = 0;
  idempotency_key = none;
  idempotency_hash = none;
}

-- The loop of `_abort_unlocked`.
abbrev pub forget_all : String → Memory → Memory
forget_all batch_id s =
    (for_each {0} (keys_where (in_batch batch_id) s.jobs)
      (λ key job r. (forget_job key job r.0, tt)) (s, tt)).0

unfoldable pub abort_unlocked : String → Memory → Memory
unfolding forget_job aborted_batch
abort_unlocked batch_id s = elim (lookup batch_id s.batches) [
  | none ↦ s
  | some batch ↦
      if not (is_staging batch.status)
      then s
      else let t = forget_all batch_id s in
        put_batch batch_id (aborted_batch batch) (record t {
          batch_idemp = forget_key batch.idempotency_key batch.client_id t.batch_idemp;
        })
]

unfoldable pub abort_batch : String → Memory → Result (Unit {0}) × Memory
unfolding abort_unlocked
abort_batch batch_id s =
    if s.closed then (err Error.queue_closed, s) else (ok tt, abort_unlocked batch_id s)

-- The loop body of `activate_batch`.
unfoldable pub activated_job : ℕ → Job → Job
activated_job now job = record job { state = State.queued; updated_at = now }

unfoldable pub activate_job : ℕ → String → Job → Memory → Memory
unfolding activated_job
activate_job now key job s =
    if state_is job.state State.staged
    then index_add (activated_job now job) (put key (activated_job now job) s)
    else s

abbrev pub activated_batch : ℕ → Option String → Option String → Batch → Batch
activated_batch now none hash batch = record batch {
  status = BatchStatus.active;
  activated_at = some now;
}
activated_batch now (some key) hash batch = record batch {
  status = BatchStatus.active;
  activated_at = some now;
  idempotency_key = some key;
  idempotency_hash = hash;
}

-- The loop of `activate_batch`.
abbrev pub activate_all : String → ℕ → Memory → Memory
activate_all batch_id now s =
    (for_each {0} (keys_where (in_batch batch_id) s.jobs)
      (λ id job r. (activate_job now id job r.0, tt)) (s, tt)).0

-- `activate_batch` once the batch is known to be staging.
unfoldable pub open_gate : String → ℕ → Option String → Option String → Batch → Memory → Memory
unfolding activate_job emit
open_gate batch_id now key hash batch s =
    let opened =
      put_batch batch_id (activated_batch now key hash batch)
        (record s { batch_idemp = remember_key key batch.client_id batch_id s.batch_idemp }) in
    let t = activate_all batch_id now opened in
    emit EventKind.submitted now none (some batch_id)
      (field "activated" (bool true) (field "jobs" (num (pos batch.job_count)) end)) t

-- The part of `activate_batch` after the check of the key.
abbrev pub activate_plain :
    String → ℕ → Option String → Option String → Batch → Memory → Result Batch × Memory
activate_plain batch_id now key hash batch s =
    if is_active batch.status
    then (ok (batch_view batch s), s)
    else if not (is_staging batch.status)
    then (err Error.wrong_batch_status, s)
    else (
      ok (
          batch_view (activated_batch now key hash batch)
            (open_gate batch_id now key hash batch s)),
      open_gate batch_id now key hash batch s,
    )

-- Another batch holds the key: the new one is aborted and the other is returned as a replay.
abbrev pub replay_batch : String → String → Option String → Memory → Result Batch × Memory
replay_batch batch_id found hash s = elim (lookup found s.batches) [
  | none ↦ (err Error.key_error, s)
  | some other ↦ if not (other.idempotency_hash == hash) then (err (Error.conflict found), s) else (
    ok (record (batch_view other (abort_unlocked batch_id s)) { replayed = true }),
    abort_unlocked batch_id s,
  )
]

-- The batch that another submission took this key for.
abbrev pub key_holder : String → Option String → Batch → Memory → Option String
key_holder batch_id none batch s = none
key_holder batch_id (some key) batch s = elim (lookup (batch.client_id, key) s.batch_idemp) [
  | none ↦ none
  | some found ↦ if found == batch_id then none else some found
]

unfoldable pub activate_batch :
    String → Option String → Option String → ℕ → Memory → Result Batch × Memory
unfolding batch_view abort_unlocked open_gate
activate_batch batch_id key hash now s =
    if s.closed then (err Error.queue_closed, s) else elim (lookup batch_id s.batches) [
      | none ↦ (err Error.not_found, s)
      | some batch ↦ elim (key_holder batch_id key batch s) [
        | none ↦ activate_plain batch_id now key hash batch s
        | some found ↦ replay_batch batch_id found hash s
      ]
    ]
