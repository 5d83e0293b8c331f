-- ===== src/Memory/Claims/Sound.antt =====
-- What `claim_next` of src/keziah/queue/memory.py changes when it claims a job.
use keziah.Base.{
  ℕ, zero, suc, ◌≡◌, refl, subst, String, true, Option, none, some, arith, if◌then◌else◌, split_if,
  split_option, Dict, lookup, lookup-insert, ◌==◌, string_eq,
}
use keziah.Types.{Job, Batch}
use keziah.Scheduler.Numbers.{Float}
use keziah.Scheduler.{Weights, PickerState}
use keziah.Ready.{propose, remove}
use keziah.Memory.{Memory, Result, ok, claimable, batch_is_active, index_remove, emit}
use keziah.Memory.Lease.{claimable_at, claimed_job, claim_job, claim_loop, claim_next}

-- What a claim is: the job under `key` could be claimed, it is now leased to `owner` with one attempt
-- more, and no other job has changed.
pub record Claim (owner : String) (until now : ℕ) (batches : Dict String Batch)
    (before after : Dict String Job) (claimed : Job) : Type 0 where
  pub key : String
  pub job : Job
  pub there : lookup key before ≡ some job
  pub free : claimable job now (batch_is_active job.batch_id batches) ≡ true
  pub copy : claimed ≡ claimed_job owner until now job
  pub frame : (k : String) → lookup k after ≡ (if key == k then some claimed else lookup k before)

-- A loop that claims makes one claim, and one that does not changes no job.
abbrev Outcome :
    String → ℕ → ℕ → Dict String Batch → Dict String Job → Dict String Job → Option Job → Type 0
Outcome owner until now batches before after none = after ≡ before
Outcome owner until now batches before after (some claimed) =
    Claim owner until now batches before after claimed

free_at :
    (key : String) (now : ℕ) (s : Memory) (job : Job)
    → claimable_at key now s ≡ some job
    → (lookup key s.jobs ≡ some job)
      × (claimable job now (batch_is_active job.batch_id s.batches) ≡ true)
unfolding claimable_at
free_at key now s job h = ground arith

module _ (F : Float) (settings : Weights F) (model owner : String) (until now : ℕ) where
  claim_loop-Outcome :
      (turns : ℕ) (picker : PickerState F) (s : Memory)
      → Outcome owner until now s.batches s.jobs
          (claim_loop F settings model owner until now turns picker s).1.jobs
          (claim_loop F settings model owner until now turns picker s).0.0
  unfolding claim_loop claim_job remove emit
  claim_loop-Outcome zero picker s = refl
  claim_loop-Outcome (suc turns) picker s =
      let proposal = propose F settings model picker now s.index in
      let t = record s { index = proposal.0 } in
      split_option P proposal.1.0 (λ _. refl)
        λ c _.
          split_option P (claimable_at c.job_id now t)
            (λ _. claim_loop-Outcome turns picker (index_remove c.job_id t))
            (λ job e. record {
              key = c.job_id;
              job = job;
              there = (free_at c.job_id now t job e).0;
              free = (free_at c.job_id now t job e).1;
              copy = refl;
              frame = λ k. lookup-insert c.job_id k (claimed_job owner until now job) s.jobs;
            })
    where
      P : (Option Job × PickerState F) × Memory → Type 0
      P x = Outcome owner until now s.batches s.jobs x.1.jobs x.0.0

  -- When `claim_next` returns a job, that job could be claimed before the call, under a key where it
  -- is now leased to the owner with one attempt more; every other job is as it was.
  pub claim_next-Claim :
      (picker next : PickerState F) (s : Memory) (claimed : Job)
      → (claim_next F settings model owner until now picker s).0 ≡ ok (some claimed, next)
      → Claim owner until now s.batches s.jobs
          (claim_next F settings model owner until now picker s).1.jobs
          claimed
  unfolding claim_next
  claim_next-Claim picker next s claimed e =
      split_if P s.closed (λ _ f. cc)
        (λ _ f.
          subst
            (Outcome owner until now s.batches s.jobs
              (claim_loop F settings model owner until now 64 picker s).1.jobs)
            (first f) (claim_loop-Outcome 64 picker s))
        e
    where
      P : Result (Option Job × PickerState F) × Memory → Type 0
      P r = r.0 ≡ ok (some claimed, next) → Claim owner until now s.batches s.jobs r.1.jobs claimed

      first : {r : Option Job × PickerState F} → ok r ≡ ok (some claimed, next) → r.0 ≡ some claimed
      first f = cc
