-- ===== src/Service/Failures.antt =====
-- A failed attempt, as `_settle_failure` of src/keziah/service.py leaves the job.
use keziah.Base.{
  ℕ, ◌+◌, ◌≤◌, ◌<◌, ◌≡◌, ◌⊎◌, refl, inl, inr, String, Bool, true, false, Option, none, some, arith,
  if◌then◌else◌, lookup, lookup-insert, leb, Bool-cases, ◌==◌, string_eq, option_eq,
}
use keziah.Types.{State, Job, Fields, field, end, str, bool}
use keziah.Ready.{remove}
use keziah.Memory.{Memory, is_due, owned_running, emit, failed_job, finish_failure}
use keziah.Memory.Settle.{fail, retry, retrying_job}
use keziah.Service.{Failure, is_final, failure_error, delay_of, settle_failure}

-- The two jobs that `_settle_failure` may leave.
settled_job : Failure → ℕ → ℕ → String × Option Fields → Job → Job
settled_job exc now backoff target job =
    if is_final exc job now
    then failed_job (failure_error exc) exc.retryable now job
    else retrying_job
        (record {
          error = failure_error exc;
          not_before = now + delay_of exc.retry_after backoff;
          resolved_model = target.0;
          fallback = target.1;
        })
        now job

-- A deadline that has passed, and one that has not.
abbrev pub Late : Option ℕ → ℕ → Type 0
Late deadline now = (t : ℕ) × (deadline ≡ some t) × (t ≤ now)

abbrev pub Early : Option ℕ → ℕ → Type 0
Early deadline now = (deadline ≡ none) ⊎ ((t : ℕ) × (deadline ≡ some t) × (now < t))

deadline-cases :
    (deadline : Option ℕ) (now : ℕ)
    → ((is_due deadline now ≡ true) × Late deadline now)
      ⊎ ((is_due deadline now ≡ false) × Early deadline now)
deadline-cases none now = inr (refl, inl refl)
deadline-cases (some t) now = elim (Bool-cases (leb t now)) [
  | inl e ↦ inl (e, (t, refl, ground (arith, e)))
  | inr e ↦ inr (e, inr (t, refl, ground (arith, e)))
]

-- The error that is recorded.
abbrev pub recorded : Failure → Fields
recorded exc =
    field "code" (str exc.code)
      (field "message" (str exc.message) (field "retryable" (bool exc.retryable) end))

-- A job whose last attempt failed.
abbrev pub over : State → Failure → ℕ → Job → Job
over state exc now job = record job {
  state = state;
  error = some (recorded exc);
  finished_at = some now;
  updated_at = now;
  lease_owner = none;
  lease_expires_at = none;
}

-- A job that waits for its next attempt.
abbrev pub waiting : Failure → ℕ → ℕ → String × Option Fields → Job → Job
waiting exc now delay target job = record job {
  state = State.retry_wait;
  error = some (recorded exc);
  not_before = some (now + delay);
  resolved_model = target.0;
  fallback = target.1;
  lease_owner = none;
  lease_expires_at = none;
  updated_at = now;
}

-- The delay that the server asked for, or else the backoff.
abbrev pub Delay : Failure → ℕ → ℕ → Type 0
Delay exc backoff delay =
    (exc.retry_after ≡ some delay) ⊎ ((exc.retry_after ≡ none) × (delay ≡ backoff))

-- What becomes of a job, and whether it has ended: it failed for good; it is a dead letter, as its
-- attempts are used up or its deadline has passed; or it waits.
abbrev pub AttemptEnd : Failure → ℕ → ℕ → String × Option Fields → Job → Bool → Job → Type 0
AttemptEnd exc now backoff target job ended next =
    ((exc.retryable ≡ false) × (ended ≡ true) × (next ≡ over State.failed exc now job))
    ⊎ ((exc.retryable ≡ true)
        × ((job.max_attempts ≤ job.attempt_count) ⊎ Late job.deadline_at now)
        × (ended ≡ true)
        × (next ≡ over State.dead_letter exc now job))
    ⊎ ((exc.retryable ≡ true)
        × (job.attempt_count < job.max_attempts)
        × Early job.deadline_at now
        × (ended ≡ false)
        × ((delay : ℕ) × Delay exc backoff delay × (next ≡ waiting exc now delay target job)))

module _ (job : Job) (owner : String) (exc : Failure) (now backoff : ℕ)
    (target : String × Option Fields) (s : Memory) where
  ended-settled_job :
      lookup job.job_id s.jobs ≡ some job
      → owned_running job owner ≡ true
      → (k : String)
      → lookup k (settle_failure job owner exc now backoff target s).1.jobs ≡ (
          if job.job_id == k
          then some (settled_job exc now backoff target job)
          else lookup k s.jobs)
  unfolding settle_failure settled_job fail retry finish_failure emit remove
  ended-settled_job there owned k = ground (
    arith,
    there,
    owned,
    lookup-insert job.job_id k (failed_job (failure_error exc) exc.retryable now job) s.jobs,
    lookup-insert job.job_id k
        (retrying_job
          (record {
            error = failure_error exc;
            not_before = now + delay_of exc.retry_after backoff;
            resolved_model = target.0;
            fallback = target.1;
          })
          now job)
        s.jobs,
  )

  delay_of-Delay :
      (after : Option ℕ)
      → exc.retry_after ≡ after
      → Delay exc backoff (delay_of exc.retry_after backoff)
  delay_of-Delay none e = inr (e, rw (e, delay_of) refl)
  delay_of-Delay (some t) e = inl (rw (e, delay_of) refl)

  settled_job-AttemptEnd :
      AttemptEnd exc now backoff target job
        (settle_failure job owner exc now backoff target s).0
        (settled_job exc now backoff target job)
  unfolding settle_failure settled_job is_final failed_job retrying_job
  settled_job-AttemptEnd = elim (Bool-cases exc.retryable) [
    | inr e ↦ inl (e, rw e refl, rw e refl)
    | inl e ↦ elim (Bool-cases (leb job.max_attempts job.attempt_count)) [
      | inl f ↦ inr (inl (e, inl (ground (arith, f)), rw (e, f) refl, rw (e, f) refl))
      | inr f ↦ elim (deadline-cases job.deadline_at now) [
        | inl (due, late) ↦ inr (inl (e, inr late, rw (e, f, due) refl, rw (e, f, due) refl))
        | inr (due, early) ↦ inr (
            inr (
              e,
              ground (arith, f),
              early,
              rw (e, f, due) refl,
              (
                delay_of exc.retry_after backoff,
                delay_of-Delay exc.retry_after refl,
                rw (e, f, due) refl,
              ),
            ))
      ]
    ]
  ]

  -- When the worker still owns the running job, `_settle_failure` replaces that job alone: by a failed
  -- one if the error is permanent, by a dead letter if it is retryable and the attempts are used up or
  -- the deadline has passed, and otherwise by one that waits on its new target for the server's delay or
  -- else the backoff. It answers whether the job has ended.
  pub settle_failure-settled :
      lookup job.job_id s.jobs ≡ some job
      → owned_running job owner ≡ true
      → (next : Job) × AttemptEnd exc now backoff target job
          (settle_failure job owner exc now backoff target s).0
          next
        × ((k : String)
            → lookup k (settle_failure job owner exc now backoff target s).1.jobs
              ≡ (if job.job_id == k then some next else lookup k s.jobs))
  settle_failure-settled there owned = (
    settled_job exc now backoff target job,
    settled_job-AttemptEnd,
    ended-settled_job there owned,
  )
