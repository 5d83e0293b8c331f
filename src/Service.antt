-- ===== src/Service.antt =====
-- Parts of src/keziah/service.py: the slots of a model, and the end of a failed attempt. The queue is
-- the in-memory one. The exception that an adapter raises is a `Failure`; the backoff, which draws a
-- random number, and the registry's answer to `_retry_target` are parameters of the call.
pub mod Execute
pub mod Running
pub mod Answered
pub mod Dispatch
pub mod Launched
pub mod Views
pub mod Batching
pub mod Bounded
pub mod Build
pub mod Accepted
pub mod Caps
pub mod Failures
pub mod Targets
use keziah.Base.{
  ℕ, suc, ◌+◌, ◌-◌, String, Bool, true, false, ◌&&◌, ◌||◌, not, Option, none, some, leb,
  if◌then◌else◌, Dict, lookup, insert, string_eq,
}
use keziah.Types.{Job, Fields, end, field, str, bool, null}
use keziah.Registry.{Resolution, Outcome, done, raised}
use keziah.Memory.{Memory, is_due}
use keziah.Memory.Settle.{Retry, fail, retry}

-- `_active` and `_inflight`.
pub record Slots : Type 0 where
  pub active : Dict String ℕ
  pub inflight : ℕ

-- `self._active.get(model_id, default)`.
abbrev pub active_or : ℕ → String → Dict String ℕ → ℕ
active_or default model m = elim (lookup model m) [ none ↦ default | some n ↦ n ]

-- `_try_reserve`; `cap` is the model's `max_concurrency`.
unfoldable pub try_reserve : ℕ → String → Slots → Bool × Slots
try_reserve cap model s = if leb cap (active_or 0 model s.active) then (false, s) else (
  true,
  record {
    active = insert model (suc (active_or 0 model s.active)) s.active;
    inflight = suc s.inflight;
  },
)

-- `_release`; the subtraction stops at 0 as `max(0, ...)` does.
unfoldable pub release : String → Slots → Slots
release model s = record {
  active = insert model (active_or 1 model s.active - 1) s.active;
  inflight = s.inflight - 1;
}

-- An `InferenceError`, or another exception with its `code`; a retryable one may carry a delay.
pub record Failure : Type 0 where
  pub code : String
  pub message : String
  pub retryable : Bool
  pub retry_after : Option ℕ

abbrev pub failure_error : Failure → Fields
failure_error exc =
    field "code" (str exc.code)
      (field "message" (str exc.message) (field "retryable" (bool exc.retryable) end))

-- The test of `_settle_failure` that ends the job.
unfoldable pub is_final : Failure → Job → ℕ → Bool
is_final exc job now =
    not exc.retryable || leb job.max_attempts job.attempt_count || is_due job.deadline_at now

-- `delay`, in milliseconds: the server's, or else the backoff.
abbrev pub delay_of : Option ℕ → ℕ → ℕ
delay_of none backoff = backoff
delay_of (some after) backoff = after

-- The new `fallback` of `_retry_target`, where the group has resolved.
abbrev pub refallback : Job → Resolution → Option Fields
refallback job r =
    if r.fallback_used
    then some (
        field "used" (bool true) (
          field "reason" (elim r.fallback_reason [ none ↦ null | some text ↦ str text ])
            (field "requested" (str job.requested_model)
              (field "resolved" (str r.resolved) (field "from" (str job.resolved_model) end)))))
    else job.fallback

-- `_retry_target`: `group` is `is_group` of the requested model, which may raise, and `resolved` is
-- what `resolve` gives for it.
abbrev pub retry_target : Job → Bool → Outcome Resolution → String × Option Fields
retry_target job false resolved = (job.resolved_model, job.fallback)
retry_target job true (raised e) = (job.resolved_model, job.fallback)
retry_target job true (done r) = (r.resolved, refallback job r)

-- `_settle_failure`, with one clock read; true when the job has ended.
unfoldable pub settle_failure :
    Job → String → Failure → ℕ → ℕ → String × Option Fields → Memory → Bool × Memory
unfolding is_final fail retry
settle_failure job owner exc now backoff target s =
    if is_final exc job now
    then (true, (fail job.job_id owner (failure_error exc) exc.retryable now s).1)
    else (
      false,
      (retry job.job_id owner
          (record {
            error = failure_error exc;
            not_before = now + delay_of exc.retry_after backoff;
            resolved_model = target.0;
            fallback = target.1;
          })
          now s).1,
    )
