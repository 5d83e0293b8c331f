-- ===== src/Memory/Keeps/Maintain.antt =====
-- Maintenance and clean-up keep the invariant.
use keziah.Base.{
  ℕ, ◌≡◌, String, true, false, ◌&&◌, none, some, arith, leb, split_if, lookup, string_eq,
}
use keziah.Types.{State, Job, is_held, state_is}
use keziah.Ready.{remove, add}
use keziah.Memory.{Memory, is_due, cancelled_job, failed_job}
use keziah.Memory.Batches.{forget_job}
use keziah.Memory.Maintain.{
  Report, unleased_job, queued_job, expire_lease, is_ripe, is_idle, maintain_turn, maintenance,
  is_stale, cleanup_turn, cleanup, lease_error, deadline_error, empty_report,
}
use keziah.Memory.Invariant.{
  Inv, CellOk, lane_of_job, cell_at, list-CellsOk, forget-CellsOk, drop_twice-CellsOk,
  list_twice-CellsOk, for_each_inv,
}
use keziah.Memory.Keeps.Settle.{mark_cancelled-Inv, finish_failure-Inv}

module _ {now : ℕ} (s : Memory) (inv : Inv now s) (key : String) (job : Job)
    (there : lookup key s.jobs ≡ some job) where
  -- A job whose lease has run out, as `_expire_lease` leaves it on each of its branches.
  expired_cancelled-Cell :
      (t : ℕ)
      → is_held job.state ≡ true
      → CellOk now s.batches key (some (cancelled_job t (unleased_job t job))) none
  unfolding cancelled_job unleased_job
  expired_cancelled-Cell t h = let (j, l) = cell_at inv key job there in ground arith

  expired_dead-Cell :
      (t : ℕ)
      → is_held job.state ≡ true
      → CellOk now s.batches key (some (failed_job lease_error true t (unleased_job t job))) none
  unfolding failed_job unleased_job
  expired_dead-Cell t h = let (j, l) = cell_at inv key job there in ground arith

  expired_queued-Cell :
      (t : ℕ)
      → is_held job.state ≡ true
      → CellOk now s.batches key (some (queued_job t (unleased_job t job))) (some (lane_of_job job))
  unfolding queued_job unleased_job
  expired_queued-Cell t h = let (j, l) = cell_at inv key job there in ground arith

  -- A retry that is due.
  promoted-Cell :
      state_is job.state State.retry_wait ≡ true
      → is_ripe job.not_before now ≡ true
      → CellOk now s.batches key (some (queued_job now job)) (some (lane_of_job job))
  unfolding queued_job
  promoted-Cell h r = let (j, l) = cell_at inv key job there in ground arith

  expire_lease-Inv :
      (report : Report)
      → is_held job.state ≡ true
      → Inv now (expire_lease now key job (s, report)).0
  unfolding expire_lease remove add
  expire_lease-Inv report h =
      let (j, l) = cell_at inv key job there in
      split_if (λ (r : Memory × Report). Inv now r.0) job.cancel_requested
        (λ c. drop_twice-CellsOk inv key _ _ job.job_id j.named (expired_cancelled-Cell now h))
        (λ c.
          split_if (λ (r : Memory × Report). Inv now r.0) (leb job.max_attempts job.attempt_count)
            (λ d. drop_twice-CellsOk inv key _ _ job.job_id j.named (expired_dead-Cell now h))
            (λ d.
              list_twice-CellsOk inv key _ _ job.job_id (lane_of_job job) j.named
                (expired_queued-Cell now h)))

  maintain_turn-Inv : (report : Report) → Inv now (maintain_turn now key job (s, report)).0
  unfolding maintain_turn add remove
  maintain_turn-Inv report =
      let (j, l) = cell_at inv key job there in
      split_if (λ (r : Memory × Report). Inv now r.0)
        (is_held job.state && is_due job.lease_expires_at now)
        (λ e. expire_lease-Inv report (ground arith))
        λ _.
          split_if (λ (r : Memory × Report). Inv now r.0)
            (state_is job.state State.retry_wait && is_ripe job.not_before now)
            (λ e.
              list-CellsOk inv key _ job.job_id (lane_of_job job) j.named
                (promoted-Cell (ground arith) (ground arith)))
            λ _.
              split_if (λ (r : Memory × Report). Inv now r.0)
                (state_is job.state State.queued && is_due job.deadline_at now)
                (λ e.
                  finish_failure-Inv s inv key job there deadline_error false now true
                    (ground arith))
                λ _.
                  split_if (λ (r : Memory × Report). Inv now r.0)
                    (is_idle job.state && job.cancel_requested)
                    (λ e. mark_cancelled-Inv s inv key job there now) (λ _. inv)

  pub forget_job-Inv : Inv now (forget_job key job s)
  unfolding forget_job remove
  forget_job-Inv =
      let (j, l) = cell_at inv key job there in forget-CellsOk inv key job.job_id j.named

module _ {now : ℕ} (s : Memory) (inv : Inv now s) where
  pub maintenance-Inv : Inv now (maintenance now s).1
  unfolding maintenance
  maintenance-Inv =
      for_each_inv (Inv now) (maintain_turn now)
        (λ key job r e v. maintain_turn-Inv r.0 v key job e r.1) _ (s, empty_report) inv

  cleanup_turn-Inv :
      (success failure : ℕ) (key : String) (job : Job) (r : Memory × ℕ)
      → lookup key r.0.jobs ≡ some job
      → Inv now r.0
      → Inv now (cleanup_turn success failure key job r).0
  unfolding cleanup_turn
  cleanup_turn-Inv success failure key job r e v =
      split_if (λ (x : Memory × ℕ). Inv now x.0) (is_stale success failure job)
        (λ _. forget_job-Inv r.0 v key job e) (λ _. v)

  pub cleanup-Inv : (success failure before : ℕ) → Inv now (cleanup success failure before s).1
  unfolding cleanup
  cleanup-Inv success failure before =
      for_each_inv (Inv now) (cleanup_turn success failure) (cleanup_turn-Inv success failure) _
        (s, 0) inv
