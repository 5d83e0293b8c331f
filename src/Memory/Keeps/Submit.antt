-- ===== src/Memory/Keeps/Submit.antt =====
-- Submission keeps the invariant, for jobs that are new to the queue.
use keziah.Base.{
  ℕ, ◌≡◌, refl, String, true, false, Option, none, some, arith, split_if, Dict, lookup, string_eq,
  option_eq,
}
use keziah.Types.{State, Job, Batch, state_is}
use keziah.Ready.{remove, add, Lane}
use keziah.Memory.{Memory, Result, ok, err}
use keziah.Memory.Submit.{existing_job, reserve_capacity, accept_job, enqueue}
use keziah.Memory.Batches.{stage_one}
use keziah.Memory.Invariant.{Inv, JobOk, CellOk, lane_of_job, put-CellsOk, list-CellsOk}

-- A job that `enqueue` or `stage_jobs` is given: its id is not in the table yet, and its fields are
-- those of a new job.
pub record IsNew (now : ℕ) (batches : Dict String Batch) (jobs : Dict String Job) (job : Job)
    : Type 0 where
  pub fresh : lookup job.job_id jobs ≡ none
  pub sound : JobOk now batches job.job_id job

-- No job, no lane.
no_lane :
    (now : ℕ) (batches : Dict String Batch) (key : String) (job : Option Job) (lane : Option Lane)
    → CellOk now batches key job lane
    → job ≡ none
    → lane ≡ none
no_lane now batches key none none c e = refl
no_lane now batches key none (some lane) c e = absurd c
no_lane now batches key (some job) lane c e = cc

module _ {now : ℕ} (s : Memory) (inv : Inv now s) (job : Job)
    (new : IsNew now s.batches s.jobs job) where
  no_hint : lookup job.job_id s.index.live ≡ none
  no_hint = no_lane now s.batches job.job_id _ _ (inv.cell job.job_id) new.fresh

  queued-Cell :
      state_is job.state State.queued ≡ true
      → CellOk now s.batches job.job_id (some job) (some (lane_of_job job))
  queued-Cell e = let j = new.sound in (j, ground arith)

  other-Cell :
      state_is job.state State.queued ≡ false
      → CellOk now s.batches job.job_id (some job) (lookup job.job_id s.index.live)
  other-Cell e = let j = new.sound in (j, ground (arith, no_hint))

  accept_job-Inv : Inv now (accept_job job s)
  unfolding accept_job add remove
  accept_job-Inv =
      split_if (Inv now) (state_is job.state State.queued)
        (λ e. list-CellsOk inv job.job_id job job.job_id (lane_of_job job) refl (queued-Cell e))
        (λ e. put-CellsOk inv job.job_id job (other-Cell e))

  -- `enqueue` of a new job.
  pub enqueue-Inv : Inv now (enqueue job s).1
  unfolding enqueue
  enqueue-Inv =
      split_if (λ (r : Result Job × Memory). Inv now r.1) s.closed (λ _. inv)
        (λ _. after (existing_job job s) (reserve_capacity job.client_id 1 s))
    where
      after :
          (found : Result (Option Job)) (room : Result (Unit {0}))
          → let r : Result Job × Memory = elim found [
            | err e ↦ (err e, s)
            | ok (some replay) ↦ (ok replay, s)
            | ok none ↦ elim room [ err e ↦ (err e, s) | ok _ ↦ (ok job, accept_job job s) ]
          ] in
            Inv now r.1
      after (err e) room = inv
      after (ok (some replay)) room = inv
      after (ok none) (err e) = inv
      after (ok none) (ok _) = accept_job-Inv

  pub stage_one-Inv :
      (batch : String) → state_is job.state State.staged ≡ true → Inv now (stage_one batch job s)
  unfolding stage_one
  stage_one-Inv batch e = put-CellsOk inv job.job_id job (other-Cell (ground arith))
