-- ===== src/Memory/Staged.antt =====
-- How many jobs a batch of src/keziah/queue/memory.py counts, from `stage_jobs` to `activate_batch`.
use keziah.Base.{
  ℕ, ◌+◌, ◌≡◌, ◌⊎◌, refl, sym, ap, ◌∙◌, inl, inr, String, true, not, Option, none, some, List, ltb,
  length, split_if, split_option, lookup, lookup-insert_self, ◌==◌, string_eq, option_eq,
}
use keziah.Types.{Job, Batch, is_staging, is_active}
use keziah.Memory.{Memory, Result, ok, err}
use keziah.Memory.Batches.{
  batch_view, stage_loop, reserve_for, close_stage, stage_jobs, activated_batch, activate_plain,
  replay_batch, key_holder, activate_batch,
}

module _ (batch_id : String) where
  -- A chunk that was staged leaves the batch with so many jobs.
  abbrev pub Counted : ℕ → Result ℕ × Memory → Type 0
  Counted n (err e, t) = Unit
  Counted n (ok k, t) = (b : Batch) × (lookup batch_id t.batches ≡ some b) × (b.job_count ≡ n)

  pub stage_jobs-Counted :
      (jobs : List Job) (s : Memory) (b : Batch)
      → lookup batch_id s.batches ≡ some b
      → Counted (b.job_count + length jobs) (stage_jobs batch_id jobs s)
  unfolding stage_jobs
  stage_jobs-Counted jobs s b there =
      split_if P s.closed (λ _. tt)
        (λ _.
          split_option P (lookup batch_id s.batches) (λ _. tt)
            λ other e.
              split_if P (not (is_staging other.status)) (λ _. tt)
                λ _.
                  split_if P (ltb s.limits.max_batch_size (other.job_count + length jobs)) (λ _. tt)
                    λ _. room other (value (sym e ∙ there)) (reserve_for jobs s))
    where
      P : Result ℕ × Memory → Type 0
      P = Counted (b.job_count + length jobs)

      value : {x y : Batch} → some x ≡ some y → x ≡ y
      value e = cc

      closed :
          (other : Batch)
          → other ≡ b
          → (r : Result (Unit {0}) × Memory) → P (close_stage batch_id other (length jobs) r)
      closed other same (err e, t) = tt
      closed other same (ok _, t) = (
        record other { job_count = other.job_count + length jobs },
        lookup-insert_self batch_id (record other { job_count = other.job_count + length jobs })
            t.batches,
        ap (λ (x : Batch). x.job_count + length jobs) same,
      )

      room :
          (other : Batch)
          → other ≡ b
          → (found : Result (Unit {0}))
          → let r : Result ℕ × Memory = elim found [
            | err e ↦ (err e, s)
            | ok _ ↦ close_stage batch_id other (length jobs) (stage_loop batch_id jobs s)
          ] in
            P r
      room other same (err e) = tt
      room other same (ok _) = closed other same (stage_loop batch_id jobs s)

  -- An activated batch shows the number of jobs that it counted, or replays another.
  abbrev pub Shows : ℕ → Result Batch × Memory → Type 0
  Shows n (err e, t) = Unit
  Shows n (ok shown, t) = (shown.replayed ≡ true) ⊎ (shown.job_count ≡ n)

  activated-counts :
      (now : ℕ) (key hash : Option String) (b : Batch)
      → (activated_batch now key hash b).job_count ≡ b.job_count
  activated-counts now none hash b = refl
  activated-counts now (some key) hash b = refl

  pub activate_batch-Shows :
      (key hash : Option String) (now : ℕ) (s : Memory) (b : Batch)
      → lookup batch_id s.batches ≡ some b
      → Shows b.job_count (activate_batch batch_id key hash now s)
  unfolding activate_batch batch_view
  activate_batch-Shows key hash now s b there =
      split_if P s.closed (λ _. tt)
        (λ _.
          split_option P (lookup batch_id s.batches) (λ _. tt)
            λ other e.
              split_option P (key_holder batch_id key other s)
                (λ _. plain other (value (sym e ∙ there))) (λ found _. replayed found))
    where
      P : Result Batch × Memory → Type 0
      P = Shows b.job_count

      value : {x y : Batch} → some x ≡ some y → x ≡ y
      value e = cc

      plain : (other : Batch) → other ≡ b → P (activate_plain batch_id now key hash other s)
      plain other same =
          split_if P (is_active other.status) (λ _. inr (ap (λ (x : Batch). x.job_count) same))
            λ _.
              split_if P (not (is_staging other.status)) (λ _. tt)
                λ _.
                  inr (activated-counts now key hash other ∙ ap (λ (x : Batch). x.job_count) same)

      replayed : (found : String) → P (replay_batch batch_id found hash s)
      replayed found =
          split_option P (lookup found s.batches) (λ _. tt)
            λ other _. split_if P (not (other.idempotency_hash == hash)) (λ _. tt) (λ _. inl refl)
