-- ===== src/Memory/Submit.antt =====
-- Submission in src/keziah/queue/memory.py: `enqueue`, and the batch that is begun, staged in
-- chunks, and then activated or aborted.
use keziah.Base.{
  ℕ, ◌+◌, String, true, ◌&&◌, Option, none, some, ltb, if◌then◌else◌, Dict, lookup, insert, values,
  count, ◌==◌, string_eq, option_eq, pair_eq,
}
use keziah.Types.{State, Job, end, is_incomplete, state_is}
use keziah.Memory.{Memory, Result, ok, err, Error, EventKind, emit, emit_job, index_add}

-- `_existing_job`. The replay is the stored job, marked as such.
unfoldable pub existing_job : Job → Memory → Result (Option Job)
existing_job job s = elim job.idempotency_key [
  | none ↦ ok none
  | some key ↦ elim (lookup (job.client_id, key) s.idemp) [
    | none ↦ ok none
    | some found ↦ elim (lookup found s.jobs) [
      | none ↦ err Error.key_error
      | some current ↦
          if current.idempotency_hash == job.idempotency_hash
          then ok (some (record current { replayed = true }))
          else err (Error.conflict current.job_id)
    ]
  ]
]

-- The jobs that `_reserve_capacity` counts.
abbrev pub depth : Dict String Job → ℕ
depth jobs = count (λ job. is_incomplete job.state) (values jobs)

abbrev pub client_depth : String → Dict String Job → ℕ
client_depth client jobs =
    count (λ job. job.client_id == client && is_incomplete job.state) (values jobs)

-- `_reserve_capacity` raises or does nothing.
unfoldable pub reserve_capacity : String → ℕ → Memory → Result (Unit {0})
reserve_capacity client additional s =
    if ltb s.limits.max_queued_jobs (depth s.jobs + additional)
    then err Error.queue_full
    else if ltb s.limits.max_active_jobs_per_client (client_depth client s.jobs + additional)
    then err Error.client_full
    else ok tt

abbrev pub remember_key :
    Option String → String → String → Dict (String × String) String → Dict (String × String) String
remember_key none client job_id idemp = idemp
remember_key (some key) client job_id idemp = insert (client, key) job_id idemp

-- `_remember_job`.
unfoldable pub remember_job : Job → Memory → Memory
remember_job job s = record s {
  jobs = insert job.job_id job s.jobs;
  idemp = remember_key job.idempotency_key job.client_id job.job_id s.idemp;
}

-- What `enqueue` does with a new job once there is room for it.
unfoldable pub accept_job : Job → Memory → Memory
unfolding remember_job emit
accept_job job s =
    let stored = emit_job EventKind.submitted job.created_at job end (remember_job job s) in
    if state_is job.state State.queued then index_add job stored else stored

unfoldable pub enqueue : Job → Memory → Result Job × Memory
unfolding existing_job reserve_capacity accept_job
enqueue job s = if s.closed then (err Error.queue_closed, s) else elim (existing_job job s) [
  | err e ↦ (err e, s)
  | ok (some replay) ↦ (ok replay, s)
  | ok none ↦ elim (reserve_capacity job.client_id 1 s) [
    | err e ↦ (err e, s)
    | ok _ ↦ (ok job, accept_job job s)
  ]
]
