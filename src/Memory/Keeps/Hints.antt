-- ===== src/Memory/Keeps/Hints.antt =====
-- The methods that loop or that look at the heads keep the heaps of the ready index in order.
use keziah.Base.{
  ℕ, String, ◌&&◌, not, Option, none, some, List, [], ltb, if◌then◌else◌, split_if, split_option,
  lookup, string_eq, option_eq, ◌==◌,
}
use keziah.Types.{State, Job, Batch, is_held, is_active, is_staging, state_is}
use keziah.Ready.Heaps.{add-IndexOk}
use keziah.Memory.{Memory, Result, ok, err, Error}
use keziah.Memory.Submit.{accept_job, enqueue, existing_job, reserve_capacity, remember_job}
use keziah.Memory.Batches.{
  begin_batch, open_batch, batch_view, existing_batch, forget_job, forget_all, abort_unlocked,
  abort_batch, activate_job, open_gate, activate_plain, key_holder, activate_batch,
}
use keziah.Memory.Settle.{is_cancellable, cancel_turn, cancel_batch, release_turn, release_leases}
use keziah.Memory.Maintain.{
  maintain_turn, maintenance, is_stale, cleanup_turn, cleanup, empty_report,
}
use keziah.Memory.Invariant.{for_each_inv}
use keziah.Memory.Keeps.Indexed.{
  Indexed, mark_cancelled-Indexed, release_owned-Indexed, forget_job-Indexed, activate_job-Indexed,
  maintain_turn-Indexed,
}

module _ (s : Memory) (good : Indexed s) where
  cancel_turn-Indexed :
      (t : ℕ) (key : String) (job : Job) (r : Memory × ℕ)
      → Indexed r.0
      → Indexed (cancel_turn t key job r).0
  unfolding cancel_turn
  cancel_turn-Indexed t key job r v =
      split_if P (is_cancellable job.state) (λ _. mark_cancelled-Indexed r.0 v key job t)
        (λ _.
          split_if P (state_is job.state State.running && not job.cancel_requested) (λ _. v)
            (λ _. v))
    where
      P : Memory × ℕ → Type 0
      P x = Indexed x.0

  pub cancel_batch-Indexed : (batch : String) (t : ℕ) → Indexed (cancel_batch batch t s).1
  unfolding cancel_batch
  cancel_batch-Indexed batch t =
      split_option (λ (r : Result ℕ × Memory). Indexed r.1) (lookup batch s.batches) (λ _. good)
        (λ b _.
          for_each_inv Indexed (cancel_turn t) (λ k j r _ v. cancel_turn-Indexed t k j r v) _ (s, 0)
            good)

  release_turn-Indexed :
      (prefix : String) (t : ℕ) (key : String) (job : Job) (r : Memory × List String)
      → Indexed r.0
      → Indexed (release_turn prefix t key job r).0
  unfolding release_turn
  release_turn-Indexed prefix t key job r v =
      split_if (λ (x : Memory × List String). Indexed x.0) (not (is_held job.state)) (λ _. v)
        (λ _. release_owned-Indexed r.0 v key job prefix t job.lease_owner r.1)

  pub release_leases-Indexed : (prefix : String) (t : ℕ) → Indexed (release_leases prefix t s).1
  unfolding release_leases
  release_leases-Indexed prefix t =
      for_each_inv Indexed (release_turn prefix t)
        (λ k j r _ v. release_turn-Indexed prefix t k j r v) _ (s, []) good

  pub maintenance-Indexed : (now : ℕ) → Indexed (maintenance now s).1
  unfolding maintenance
  maintenance-Indexed now =
      for_each_inv Indexed (maintain_turn now)
        (λ k j r _ v. maintain_turn-Indexed r.0 v k j now r.1) _ (s, empty_report) good

  cleanup_turn-Indexed :
      (success failure : ℕ) (key : String) (job : Job) (r : Memory × ℕ)
      → Indexed r.0
      → Indexed (cleanup_turn success failure key job r).0
  unfolding cleanup_turn
  cleanup_turn-Indexed success failure key job r v =
      split_if (λ (x : Memory × ℕ). Indexed x.0) (is_stale success failure job)
        (λ _. forget_job-Indexed r.0 v key job) (λ _. v)

  pub cleanup-Indexed : (success failure before : ℕ) → Indexed (cleanup success failure before s).1
  unfolding cleanup
  cleanup-Indexed success failure before =
      for_each_inv Indexed (cleanup_turn success failure)
        (λ k j r _ v. cleanup_turn-Indexed success failure k j r v) _ (s, 0) good

  accept_job-Indexed : (job : Job) → Indexed (accept_job job s)
  unfolding accept_job remember_job
  accept_job-Indexed job =
      split_if Indexed (state_is job.state State.queued) (λ _. add-IndexOk _ s.index good)
        (λ _. good)

  enqueued :
      (job : Job) (found : Result (Option Job)) (room : Result (Unit {0}))
      → let r : Result Job × Memory = elim found [
        | err e ↦ (err e, s)
        | ok (some replay) ↦ (ok replay, s)
        | ok none ↦ elim room [ err e ↦ (err e, s) | ok _ ↦ (ok job, accept_job job s) ]
      ] in
        Indexed r.1
  enqueued job (err e) room = good
  enqueued job (ok (some replay)) room = good
  enqueued job (ok none) (err e) = good
  enqueued job (ok none) (ok _) = accept_job-Indexed job

  pub enqueue-Indexed : (job : Job) → Indexed (enqueue job s).1
  unfolding enqueue
  enqueue-Indexed job =
      split_if (λ (r : Result Job × Memory). Indexed r.1) s.closed (λ _. good)
        (λ _. enqueued job (existing_job job s) (reserve_capacity job.client_id 1 s))

  forget_all-Indexed : (batch : String) → Indexed (forget_all batch s)
  forget_all-Indexed batch =
      for_each_inv {R = Unit {0}} Indexed (λ key job r. (forget_job key job r.0, tt))
        (λ k j r _ v. forget_job-Indexed r.0 v k j) _ (s, tt) good

  pub abort_unlocked-Indexed : (batch : String) → Indexed (abort_unlocked batch s)
  unfolding abort_unlocked
  abort_unlocked-Indexed batch =
      split_option Indexed (lookup batch s.batches) (λ _. good)
        (λ b _.
          split_if Indexed (not (is_staging b.status)) (λ _. good) (λ _. forget_all-Indexed batch))

  pub abort_batch-Indexed : (batch : String) → Indexed (abort_batch batch s).1
  unfolding abort_batch
  abort_batch-Indexed batch =
      split_if (λ (r : Result (Unit {0}) × Memory). Indexed r.1) s.closed (λ _. good)
        (λ _. abort_unlocked-Indexed batch)

  begun :
      (batch : Batch) (found : Result (Option Batch))
      → let r : Result Batch × Memory = elim found [
        | err e ↦ (err e, s)
        | ok (some replay) ↦ (ok replay, s)
        | ok none ↦
            if ltb s.limits.max_batch_size batch.job_count
            then (err Error.batch_too_large, s)
            else (
              ok (
                  batch_view
                    (record batch { idempotency_key = none; idempotency_hash = none })
                    (open_batch batch s)),
              open_batch batch s,
            )
      ] in
        Indexed r.1
  unfolding open_batch
  begun batch (err e) = good
  begun batch (ok (some replay)) = good
  begun batch (ok none) =
      split_if (λ (r : Result Batch × Memory). Indexed r.1)
        (ltb s.limits.max_batch_size batch.job_count) (λ _. good) (λ _. good)

  pub begin_batch-Indexed : (batch : Batch) → Indexed (begin_batch batch s).1
  unfolding begin_batch
  begin_batch-Indexed batch =
      split_if (λ (r : Result Batch × Memory). Indexed r.1) s.closed (λ _. good)
        (λ _. begun batch (existing_batch batch s))

  open_gate-Indexed :
      (batch : String) (t : ℕ) (key hash : Option String) (b : Batch)
      → Indexed (open_gate batch t key hash b s)
  unfolding open_gate
  open_gate-Indexed batch t key hash b =
      for_each_inv {R = Unit {0}} Indexed (λ id job r. (activate_job t id job r.0, tt))
        (λ k j r _ v. activate_job-Indexed r.0 v k j t) _ _ good

  activate_plain-Indexed :
      (batch : String) (t : ℕ) (key hash : Option String) (b : Batch)
      → Indexed (activate_plain batch t key hash b s).1
  activate_plain-Indexed batch t key hash b =
      split_if P (is_active b.status) (λ _. good)
        (λ _.
          split_if P (not (is_staging b.status)) (λ _. good)
            (λ _. open_gate-Indexed batch t key hash b))
    where
      P : Result Batch × Memory → Type 0
      P r = Indexed r.1

  pub activate_batch-Indexed :
      (batch : String) (t : ℕ) (key hash : Option String)
      → Indexed (activate_batch batch key hash t s).1
  unfolding activate_batch
  activate_batch-Indexed batch t key hash =
      split_if P s.closed (λ _. good)
        λ _.
          split_option P (lookup batch s.batches) (λ _. good)
            λ b _.
              split_option P (key_holder batch key b s)
                (λ _. activate_plain-Indexed batch t key hash b)
                λ found _.
                  split_option P (lookup found s.batches) (λ _. good)
                    λ other _.
                      split_if P (not (other.idempotency_hash == hash)) (λ _. good)
                        (λ _. abort_unlocked-Indexed batch)
    where
      P : Result Batch × Memory → Type 0
      P r = Indexed r.1
