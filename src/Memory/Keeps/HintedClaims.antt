-- ===== src/Memory/Keeps/HintedClaims.antt =====
-- Staging and claims of src/keziah/queue/memory.py keep the ready index in order.
use keziah.Base.{
  ℕ, zero, suc, ◌+◌, sym, String, ◌||◌, not, Option, none, some, List, [], ◌∷◌, ltb, length,
  nat_eqb, split_if, split_option, lookup, string_eq, option_eq,
}
use keziah.Types.{State, Job, Batch, is_staging, state_is}
use keziah.Scheduler.Numbers.{Float}
use keziah.Scheduler.{Weights, PickerState}
use keziah.Ready.{propose, heads, Index}
use keziah.Ready.Heaps.{IndexOk, remove-IndexOk}
use keziah.Ready.Heads.{heads-HeadsOk, moved-HintsOk}
use keziah.Memory.{Memory, Result, ok, err, Error, in_batch, index_remove}
use keziah.Memory.Submit.{existing_job, remember_job}
use keziah.Memory.Batches.{stage_one, stage_loop, close_stage, stage_jobs, reserve_for}
use keziah.Memory.Lease.{
  claim_job, claimable_at, claim_loop, claim_next, claim_batch_job, claim_compatible,
}
use keziah.Memory.Invariant.{for_each_inv}
use keziah.Memory.Keeps.Indexed.{Indexed}

pub stage_loop-Indexed :
    (batch : String) (jobs : List Job) (s : Memory)
    → Indexed s
    → Indexed (stage_loop batch jobs s).1
unfolding stage_loop stage_one remember_job
stage_loop-Indexed batch [] s good = good
stage_loop-Indexed batch (job ∷ jobs) s good =
    split_if (λ (r : Result (Unit {0}) × Memory). Indexed r.1)
      (not (in_batch batch job) || not (state_is job.state State.staged)) (λ _. good)
      (λ _. after (existing_job job s) (stage_loop-Indexed batch jobs (stage_one batch job s) good))
  where
    after :
        (found : Result (Option Job))
        → Indexed (stage_loop batch jobs (stage_one batch job s)).1
        → let r : Result (Unit {0}) × Memory = elim found [
          | err e ↦ (err e, s)
          | ok (some dup) ↦ (err (Error.conflict dup.job_id), s)
          | ok none ↦ stage_loop batch jobs (stage_one batch job s)
        ] in
          Indexed r.1
    after (err e) rest = good
    after (ok (some dup)) rest = good
    after (ok none) rest = rest

module _ (s : Memory) (good : Indexed s) where
  close_stage-Indexed :
      (batch : String) (b : Batch) (n : ℕ) (r : Result (Unit {0}) × Memory)
      → Indexed r.1
      → Indexed (close_stage batch b n r).1
  close_stage-Indexed batch b n (err e, t) v = v
  close_stage-Indexed batch b n (ok _, t) v = v

  pub stage_jobs-Indexed : (batch : String) (jobs : List Job) → Indexed (stage_jobs batch jobs s).1
  unfolding stage_jobs
  stage_jobs-Indexed batch jobs =
      split_if P s.closed (λ _. good)
        λ _.
          split_option P (lookup batch s.batches) (λ _. good)
            λ b _.
              split_if P (not (is_staging b.status)) (λ _. good)
                λ _.
                  split_if P (ltb s.limits.max_batch_size (b.job_count + length jobs)) (λ _. good)
                    λ _. after b (reserve_for jobs s)
    where
      P : Result ℕ × Memory → Type 0
      P r = Indexed r.1

      after :
          (b : Batch) (room : Result (Unit {0}))
          → let r : Result ℕ × Memory = elim room [
            | err e ↦ (err e, s)
            | ok _ ↦ close_stage batch b (length jobs) (stage_loop batch jobs s)
          ] in
            Indexed r.1
      after b (err e) = good
      after b (ok _) =
          close_stage-Indexed batch b (length jobs) _ (stage_loop-Indexed batch jobs s good)

  pub claim_compatible-Indexed :
      (model hash : String) (exclude : List String) (limit t : ℕ) (owner : String) (until : ℕ)
      → Indexed (claim_compatible model hash exclude limit t owner until s).1
  unfolding claim_compatible claim_batch_job
  claim_compatible-Indexed model hash exclude limit t owner until =
      split_if P (nat_eqb limit 0) (λ _. good)
        λ _.
          split_if P s.closed (λ _. good)
            λ _.
              for_each_inv Indexed (claim_batch_job owner until t)
                (λ k j r _ v. remove-IndexOk j.job_id r.0.index v) _ (s, []) good
    where
      P : Result (List Job) × Memory → Type 0
      P r = Indexed r.1

module _ (F : Float) (settings : Weights F) (model owner : String) (until now : ℕ) where
  pub propose-Indexed :
      (picker : PickerState F) (i : Index)
      → IndexOk i
      → IndexOk (propose F settings model picker now i).0
  unfolding propose
  propose-Indexed picker i good =
      let h = heads-HeadsOk model i good in
      moved-HintsOk (heads model i).0.heaps i.live (heads model i).0.live i.meta
        (heads model i).0.meta (sym h.live_same) (sym h.meta_same) h.index_ok

  claim_loop-Indexed :
      (turns : ℕ) (picker : PickerState F) (s : Memory)
      → Indexed s
      → Indexed (claim_loop F settings model owner until now turns picker s).1
  unfolding claim_loop claim_job
  claim_loop-Indexed zero picker s good = good
  claim_loop-Indexed (suc turns) picker s good =
      let proposal = propose F settings model picker now s.index in
      let t = record s { index = proposal.0 } in
      let next = propose-Indexed picker s.index good in
      split_option P proposal.1.0 (λ _. next)
        λ choice _.
          split_option P (claimable_at choice.job_id now t)
            (λ _.
              claim_loop-Indexed turns picker (index_remove choice.job_id t)
                (remove-IndexOk choice.job_id proposal.0 next))
            (λ job _. remove-IndexOk job.job_id proposal.0 next)
    where
      P : (Option Job × PickerState F) × Memory → Type 0
      P r = Indexed r.1

  pub claim_next-Indexed :
      (picker : PickerState F) (s : Memory)
      → Indexed s
      → Indexed (claim_next F settings model owner until now picker s).1
  unfolding claim_next
  claim_next-Indexed picker s good =
      split_if (λ (r : Result (Option Job × PickerState F) × Memory). Indexed r.1) s.closed
        (λ _. good) (λ _. claim_loop-Indexed 64 picker s good)
