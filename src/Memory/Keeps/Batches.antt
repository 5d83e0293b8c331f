-- ===== src/Memory/Keeps/Batches.antt =====
-- Beginning, staging, activating and aborting a batch keep the invariant.
use keziah.Base.{
  ℕ, ◌+◌, ◌≡◌, refl, String, true, false, ◌||◌, not, Option, none, some, List, [], ◌∷◌, arith, ltb,
  if◌then◌else◌, split_if, split_option, Dict, lookup, insert, length, string_eq, option_eq,
  lookup-insert,
}
use keziah.Types.{State, Job, Batch, is_staging, is_active, state_is}
use keziah.Memory.{Memory, Result, ok, err, Error, batch_is_active, in_batch}
use keziah.Memory.Submit.{existing_job}
use keziah.Memory.Batches.{
  existing_batch, open_batch, begin_batch, batch_view, stage_one, stage_loop, reserve_for,
  close_stage, stage_jobs, forget_job, forget_all, aborted_batch, abort_unlocked, abort_batch,
  put_batch,
}
use keziah.Memory.Invariant.{Inv, regate-CellsOk, for_each_inv}
use keziah.Memory.Keeps.Submit.{IsNew, stage_one-Inv}
use keziah.Memory.Keeps.Maintain.{forget_job-Inv}

-- A batch that is no more active than the one before it under the same key takes nothing away, if
-- that one was not active; an active batch never takes anything away.
pub active_insert :
    (key : String) (batch : Batch) (batches : Dict String Batch)
    → is_active batch.status ≡ true
    → (b : Option String) → batch_is_active b batches ≡ true
    → batch_is_active b (insert key batch batches) ≡ true
unfolding batch_is_active
active_insert key batch batches a none h = refl
active_insert key batch batches a (some b) h = ground (arith, lookup-insert key b batch batches)

inactive_insert :
    (key : String) (batch : Batch) (batches : Dict String Batch)
    → batch_is_active (some key) batches ≡ false
    → (b : Option String) → batch_is_active b batches ≡ true
    → batch_is_active b (insert key batch batches) ≡ true
unfolding batch_is_active
inactive_insert key batch batches a none h = refl
inactive_insert key batch batches a (some b) h =
    ground (arith, lookup-insert key b batch batches, string_eq.beq_iff key b)

module _ {now : ℕ} (s : Memory) (inv : Inv now s) where
  put_batch-Inv :
      (key : String) (batch : Batch)
      → batch_is_active (some key) s.batches ≡ false
      → Inv now (put_batch key batch s)
  put_batch-Inv key batch h = regate-CellsOk inv _ (inactive_insert key batch s.batches h)

  -- A new batch has an id that no batch has.
  pub begin_batch-Inv :
      (batch : Batch) → lookup batch.batch_id s.batches ≡ none → Inv now (begin_batch batch s).1
  unfolding begin_batch open_batch batch_is_active
  begin_batch-Inv batch fresh =
      split_if (λ (r : Result Batch × Memory). Inv now r.1) s.closed (λ _. inv)
        (λ _. after (existing_batch batch s))
    where
      begun : Inv now (open_batch batch s)
      begun = put_batch-Inv batch.batch_id _ (rw (fresh, batch_is_active))

      after :
          (found : Result (Option Batch))
          → let r : Result Batch × Memory = elim found [
            | err e ↦ (err e, s)
            | ok (some replay) ↦ (ok replay, s)
            | ok none ↦
                if ltb s.limits.max_batch_size batch.job_count
                then (err Error.batch_too_large, s)
                else (
                  ok (
                      batch_view
                        (record batch { idempotency_key = none; idempotency_hash = none })
                        (open_batch batch s)),
                  open_batch batch s,
                )
          ] in
            Inv now r.1
      after (err e) = inv
      after (ok (some replay)) = inv
      after (ok none) =
          split_if (λ (r : Result Batch × Memory). Inv now r.1)
            (ltb s.limits.max_batch_size batch.job_count) (λ _. inv) (λ _. begun)

module _ (now : ℕ) (batch : String) where
  -- While the jobs of a batch go, the batch itself stays as it is.
  abbrev Aborting : Memory → Type 0
  Aborting t = Inv now t × (batch_is_active (some batch) t.batches ≡ false)

  forget_all-Aborting : (t : Memory) → Aborting t → Aborting (forget_all batch t)
  unfolding forget_job
  forget_all-Aborting t a =
      for_each_inv {R = Unit {0}} Aborting (λ key job r. (forget_job key job r.0, tt))
        (λ key job r e q. (forget_job-Inv r.0 q.0 key job e, q.1)) _ (t, tt) a

module _ {now : ℕ} (s : Memory) (inv : Inv now s) where
  pub abort_unlocked-Inv : (batch : String) → Inv now (abort_unlocked batch s)
  unfolding abort_unlocked batch_is_active
  abort_unlocked-Inv batch =
      split_option (Inv now) (lookup batch s.batches) (λ _. inv)
        λ b e.
          split_if (Inv now) (not (is_staging b.status)) (λ _. inv)
            λ h.
              let (q, off) = forget_all-Aborting now batch s (inv, ground arith) in
              put_batch-Inv (forget_all batch s) q batch (aborted_batch b) off

  pub abort_batch-Inv : (batch : String) → Inv now (abort_batch batch s).1
  unfolding abort_batch
  abort_batch-Inv batch =
      split_if (λ (r : Result (Unit {0}) × Memory). Inv now r.1) s.closed (λ _. inv)
        (λ _. abort_unlocked-Inv batch)

-- The jobs of a chunk are new, and their ids differ.
abbrev pub AllNew : ℕ → Dict String Batch → Dict String Job → List Job → Type 0
AllNew now batches jobs [] = Unit
AllNew now batches jobs (job ∷ rest) =
    IsNew now batches jobs job × AllNew now batches (insert job.job_id job jobs) rest

pub stage_loop-Inv :
    {now : ℕ} (batch : String) (jobs : List Job) (s : Memory)
    → Inv now s
    → AllNew now s.batches s.jobs jobs
    → Inv now (stage_loop batch jobs s).1
unfolding stage_loop stage_one
stage_loop-Inv batch [] s inv new = inv
stage_loop-Inv {now} batch (job ∷ jobs) s inv new =
    split_if (λ (r : Result (Unit {0}) × Memory). Inv now r.1)
      (not (in_batch batch job) || not (state_is job.state State.staged)) (λ _. inv)
      (λ h. after (existing_job job s) (
        stage_loop-Inv batch jobs (stage_one batch job s)
          (stage_one-Inv s inv job new.0 batch (ground arith)) new.1))
  where
    after :
        (found : Result (Option Job))
        → Inv now (stage_loop batch jobs (stage_one batch job s)).1
        → let r : Result (Unit {0}) × Memory = elim found [
          | err e ↦ (err e, s)
          | ok (some dup) ↦ (err (Error.conflict dup.job_id), s)
          | ok none ↦ stage_loop batch jobs (stage_one batch job s)
        ] in
          Inv now r.1
    after (err e) rest = inv
    after (ok (some dup)) rest = inv
    after (ok none) rest = rest

pub stage_loop-batches :
    (batch : String) (jobs : List Job) (s : Memory)
    → (stage_loop batch jobs s).1.batches ≡ s.batches
unfolding stage_loop stage_one
stage_loop-batches batch [] s = refl
stage_loop-batches batch (job ∷ jobs) s =
    split_if (λ (r : Result (Unit {0}) × Memory). r.1.batches ≡ s.batches)
      (not (in_batch batch job) || not (state_is job.state State.staged)) (λ _. refl)
      (λ _. after (existing_job job s) (stage_loop-batches batch jobs (stage_one batch job s)))
  where
    after :
        (found : Result (Option Job))
        → (stage_loop batch jobs (stage_one batch job s)).1.batches ≡ s.batches
        → let r : Result (Unit {0}) × Memory = elim found [
          | err e ↦ (err e, s)
          | ok (some dup) ↦ (err (Error.conflict dup.job_id), s)
          | ok none ↦ stage_loop batch jobs (stage_one batch job s)
        ] in
          r.1.batches ≡ s.batches
    after (err e) rest = refl
    after (ok (some dup)) rest = refl
    after (ok none) rest = rest

module _ {now : ℕ} (s : Memory) (inv : Inv now s) (batch : String) where
  close_stage-Inv :
      (b : Batch) (n : ℕ) (r : Result (Unit {0}) × Memory)
      → Inv now r.1
      → batch_is_active (some batch) r.1.batches ≡ false
      → Inv now (close_stage batch b n r).1
  close_stage-Inv b n (err e, t) v off = v
  close_stage-Inv b n (ok _, t) v off = put_batch-Inv t v batch _ off

  pub stage_jobs-Inv :
      (jobs : List Job) → AllNew now s.batches s.jobs jobs → Inv now (stage_jobs batch jobs s).1
  unfolding stage_jobs batch_is_active
  stage_jobs-Inv jobs new =
      split_if P s.closed (λ _. inv)
        λ _.
          split_option P (lookup batch s.batches) (λ _. inv)
            λ b e.
              split_if P (not (is_staging b.status)) (λ _. inv)
                λ h.
                  split_if P (ltb s.limits.max_batch_size (b.job_count + length jobs)) (λ _. inv)
                    λ _.
                      after b (reserve_for jobs s)
                        (rw (stage_loop-batches batch jobs s, batch_is_active) (ground arith))
    where
      P : Result ℕ × Memory → Type 0
      P r = Inv now r.1

      after :
          (b : Batch) (room : Result (Unit {0}))
          → batch_is_active (some batch) (stage_loop batch jobs s).1.batches ≡ false
          → let r : Result ℕ × Memory = elim room [
            | err e ↦ (err e, s)
            | ok _ ↦ close_stage batch b (length jobs) (stage_loop batch jobs s)
          ] in
            Inv now r.1
      after b (err e) off = inv
      after b (ok _) off =
          close_stage-Inv b (length jobs) _ (stage_loop-Inv batch jobs s inv new) off
