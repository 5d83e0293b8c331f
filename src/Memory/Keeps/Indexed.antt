-- ===== src/Memory/Keeps/Indexed.antt =====
-- Every method keeps the heaps of the ready index in order.
use keziah.Base.{
  ℕ, String, Bool, true, false, ◌&&◌, not, Option, none, some, List, leb, split_if, split_option,
  lookup, string_eq, option_eq, ◌==◌,
}
use text.Mathlib.Text.{starts_with}
use keziah.Types.{State, Job, Fields, is_held, state_is}
use keziah.Ready.Heaps.{IndexOk, add-IndexOk, remove-IndexOk}
use keziah.Memory.{Memory, Result, EventKind, mark_cancelled, finish_failure, is_due, owned_running}
use keziah.Memory.Batches.{forget_job, activate_job}
use keziah.Memory.Lease.{holds_lease, extend_lease, mark_running}
use keziah.Memory.Settle.{
  Completion, Retry, complete, fail, retry, finish_cancel, is_cancellable, cancel_job, cancel,
  is_requeueable, requeue, release_unlocked, release_to_queue, release_owned,
}
use keziah.Memory.Maintain.{Report, expire_lease, is_ripe, is_idle, maintain_turn, deadline_error}
use keziah.Memory.Keeps.Shapes.{one_job}

abbrev pub Indexed : Memory → Type 0
Indexed s = IndexOk s.index

module _ (s : Memory) (ok : Indexed s) (key : String) (job : Job) where
  pub mark_cancelled-Indexed : (t : ℕ) → Indexed (mark_cancelled t key job s)
  unfolding mark_cancelled
  mark_cancelled-Indexed t = remove-IndexOk job.job_id s.index ok

  finish_failure-Indexed :
      (error : Fields) (dead : Bool) (t : ℕ) (force : Bool)
      → Indexed (finish_failure error dead t force key job s)
  unfolding finish_failure
  finish_failure-Indexed error dead t force =
      split_if Indexed (not force && not (state_is job.state State.running)) (λ _. ok)
        (λ _. remove-IndexOk job.job_id s.index ok)

  cancel_job-Indexed : (t : ℕ) → Indexed (cancel_job t key job s)
  unfolding cancel_job
  cancel_job-Indexed t =
      split_if Indexed (is_cancellable job.state) (λ _. mark_cancelled-Indexed t)
        (λ _. split_if Indexed (state_is job.state State.running) (λ _. ok) (λ _. ok))

  release_unlocked-Indexed :
      (owner : String) (t : ℕ) (model : Option String) (decrement : Bool) (kind : EventKind)
      → Indexed (release_unlocked key job owner t model decrement kind s).1
  unfolding release_unlocked
  release_unlocked-Indexed owner t model decrement kind =
      split_if (λ (r : Bool × Memory). Indexed r.1) (holds_lease owner job)
        (λ _. add-IndexOk _ s.index ok) (λ _. ok)

  pub release_owned-Indexed :
      (prefix : String) (t : ℕ) (owner : Option String) (ids : List String)
      → Indexed (release_owned prefix t key job owner (s, ids)).0
  release_owned-Indexed prefix t none ids = ok
  release_owned-Indexed prefix t (some owner) ids =
      split_if (λ (r : Memory × List String). Indexed r.0)
        (not (owner == "") && starts_with owner prefix)
        (λ _. release_unlocked-Indexed owner t none true EventKind.released) (λ _. ok)

  pub forget_job-Indexed : Indexed (forget_job key job s)
  unfolding forget_job
  forget_job-Indexed = remove-IndexOk job.job_id s.index ok

  pub activate_job-Indexed : (t : ℕ) → Indexed (activate_job t key job s)
  unfolding activate_job
  activate_job-Indexed t =
      split_if Indexed (state_is job.state State.staged) (λ _. add-IndexOk _ s.index ok) (λ _. ok)

  expire_lease-Indexed :
      (now : ℕ) (report : Report) → Indexed (expire_lease now key job (s, report)).0
  unfolding expire_lease
  expire_lease-Indexed now report =
      split_if P job.cancel_requested (λ _. remove-IndexOk job.job_id s.index ok)
        (λ _.
          split_if P (leb job.max_attempts job.attempt_count)
            (λ _. remove-IndexOk job.job_id s.index ok) (λ _. add-IndexOk _ s.index ok))
    where
      P : Memory × Report → Type 0
      P r = Indexed r.0

  pub maintain_turn-Indexed :
      (now : ℕ) (report : Report) → Indexed (maintain_turn now key job (s, report)).0
  unfolding maintain_turn
  maintain_turn-Indexed now report =
      split_if P (is_held job.state && is_due job.lease_expires_at now)
        (λ _. expire_lease-Indexed now report)
        λ _.
          split_if P (state_is job.state State.retry_wait && is_ripe job.not_before now)
            (λ _. add-IndexOk _ s.index ok)
            λ _.
              split_if P (state_is job.state State.queued && is_due job.deadline_at now)
                (λ _. finish_failure-Indexed deadline_error false now true)
                λ _.
                  split_if P (is_idle job.state && job.cancel_requested)
                    (λ _. mark_cancelled-Indexed now) (λ _. ok)
    where
      P : Memory × Report → Type 0
      P r = Indexed r.0

module _ (s : Memory) (ok : Indexed s) (key : String) where
  pub complete-Indexed :
      (owner : String) (c : Completion) (t : ℕ) → Indexed (complete key owner c t s).1
  unfolding complete
  complete-Indexed owner c t =
      one_job Indexed (lookup key s.jobs) (λ job. owned_running job owner) _ true false s ok
        (λ _ _ _. ok)

  pub fail-Indexed :
      (owner : String) (error : Fields) (dead : Bool) (t : ℕ)
      → Indexed (fail key owner error dead t s).1
  unfolding fail
  fail-Indexed owner error dead t =
      one_job Indexed (lookup key s.jobs) (λ job. owned_running job owner) _ true false s ok
        (λ job _ _. finish_failure-Indexed s ok key job error dead t false)

  pub retry-Indexed : (owner : String) (r : Retry) (t : ℕ) → Indexed (retry key owner r t s).1
  unfolding retry
  retry-Indexed owner r t =
      one_job Indexed (lookup key s.jobs) (λ job. owned_running job owner) _ true false s ok
        (λ job _ _. remove-IndexOk key s.index ok)

  pub finish_cancel-Indexed : (owner : String) (t : ℕ) → Indexed (finish_cancel key owner t s).1
  unfolding finish_cancel
  finish_cancel-Indexed owner t =
      one_job Indexed (lookup key s.jobs) (holds_lease owner) _ true false s ok
        (λ job _ _. mark_cancelled-Indexed s ok key job t)

  pub cancel-Indexed : (t : ℕ) → Indexed (cancel key t s).1
  unfolding cancel
  cancel-Indexed t =
      split_option (λ (r : Result (Option Job) × Memory). Indexed r.1) (lookup key s.jobs) (λ _. ok)
        (λ job _. cancel_job-Indexed s ok key job t)

  pub requeue-Indexed : (t : ℕ) → Indexed (requeue key t s).1
  unfolding requeue
  requeue-Indexed t =
      split_option (λ (r : Result Job × Memory). Indexed r.1) (lookup key s.jobs) (λ _. ok)
        λ job _.
          split_if (λ (r : Result Job × Memory). Indexed r.1) (not (is_requeueable job.state))
            (λ _. ok) (λ _. add-IndexOk _ s.index ok)

  pub release_to_queue-Indexed :
      (owner : String) (t : ℕ) (model : Option String) (decrement : Bool) (kind : EventKind)
      → Indexed (release_to_queue key owner t model decrement kind s).1
  unfolding release_to_queue
  release_to_queue-Indexed owner t model decrement kind =
      split_option (λ (r : Bool × Memory). Indexed r.1) (lookup key s.jobs) (λ _. ok)
        (λ job _. release_unlocked-Indexed s ok key job owner t model decrement kind)

  pub extend_lease-Indexed :
      (owner : String) (until t : ℕ) → Indexed (extend_lease key owner until t s).1
  unfolding extend_lease
  extend_lease-Indexed owner until t =
      one_job Indexed (lookup key s.jobs) (holds_lease owner) _ true false s ok (λ _ _ _. ok)

  pub mark_running-Indexed :
      (owner : String) (until t : ℕ) → Indexed (mark_running key owner until t s).1
  unfolding mark_running
  mark_running-Indexed owner until t =
      one_job Indexed (lookup key s.jobs)
        (λ job. state_is job.state State.leased && job.lease_owner == some owner) _ true false s ok
        (λ _ _ _. ok)
