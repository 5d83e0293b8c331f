-- ===== src/Service/Bounded.antt =====
-- The bounds of a batch that `submit_batch` of src/keziah/service.py activates.
use keziah.Base.{
  ℕ, suc, ◌+◌, ◌≡◌, refl, ap, subst, ◌∙◌, arith, String, true, Option, List, [], ◌∷◌, ◌++◌, ltb,
  leb, length, length-append, if◌then◌else◌, split_if, nat_eqb, some, ◌⊎◌, ◌<◌, lookup, string_eq,
}
use keziah.Types.{Job, Batch, Value, Fields, dict, null, bool, num, decimal, str, list}
use keziah.Memory.{Memory, Result, ok, err}
use keziah.Memory.Batches.{stage_jobs, activate_batch}
use keziah.Memory.Staged.{Counted, stage_jobs-Counted, Shows, activate_batch-Shows}
use keziah.Service.Build.{Built, built, refused}
use keziah.Service.Batching.{
  Bounds, Reading, Submitted, accepted, rejected, BatchError, stage_full, check_size, read_built,
  read_one, read_all, stage_rest, close_batch, fill,
}

module _ (bounds : Bounds) (build : ℕ → Fields → Built Job) (size : ℕ → Job → ℕ)
    (batch_id : String) where
  -- The jobs that the batch counts and those of the chunk are all that was read.
  abbrev pub Read : Reading → Memory → Type 0
  Read r s =
      (b : Batch) × (lookup batch_id s.batches ≡ some b)
      × (b.job_count + length r.chunk ≡ r.ordinal)

  -- What was read, after so many jobs, is within the bounds.
  abbrev pub Within : ℕ → Reading → Memory → Type 0
  Within n r s =
      (r.ordinal ≡ n)
      × (leb r.ordinal bounds.max_size ≡ true)
      × (leb r.total_bytes bounds.max_bytes ≡ true)
      × Read r s

  abbrev After {ℓ} : {A : Type ℓ} → (A → Memory → Type 0) → Submitted A × Memory → Type 0
  After P (accepted a, s) = P a s
  After P (rejected e, s) = Unit

  -- Within the bytes, and one job more.
  abbrev More : ℕ → Reading → Memory → Type 0
  More n r s = (r.ordinal ≡ suc n) × (leb r.total_bytes bounds.max_bytes ≡ true) × Read r s

  check_size-Within :
      (n : ℕ) (r : Submitted Reading × Memory)
      → After (More n) r
      → After (Within (suc n)) (check_size bounds build size batch_id r)
  check_size-Within n (rejected e, s) a = tt
  check_size-Within n (accepted r, s) (a, bytes, all) =
      split_if (After (Within (suc n))) (ltb bounds.max_size r.ordinal) (λ _. tt)
        (λ h. (a, ground (arith, h), bytes, all))

  stage_full-More :
      (n : ℕ) (r : Reading) (s : Memory)
      → More n r s
      → After (More n) (stage_full bounds build size batch_id r s)
  unfolding stage_full
  stage_full-More n r s (a, bytes, (b, there, all)) =
      split_if (After (More n)) (leb 500 (length r.chunk))
        (λ _.
          staged (stage_jobs batch_id r.chunk s) (stage_jobs-Counted batch_id r.chunk s b there))
        (λ _. (a, bytes, (b, there, all)))
    where
      staged :
          (x : Result ℕ × Memory)
          → Counted batch_id (b.job_count + length r.chunk) x
          → After (More n) (elim x.0 [
            | err e ↦ (rejected (BatchError.by_queue e), x.1)
            | ok k ↦ (accepted (record r { chunk = [] }), x.1)
          ])
      staged (err e, t) c = tt
      staged (ok k, t) (d, found, counted) = (a, bytes, (d, found, ground (arith, counted, all)))

  read_one-Within :
      (n : ℕ) (raw : Value) (r : Reading) (s : Memory)
      → Within n r s
      → After (Within (suc n)) (read_one bounds build size batch_id raw r s)
  unfolding read_one read_built
  read_one-Within n (dict raw) r s (a, _, _, (b, there, all)) = go (build r.ordinal raw)
    where
      go :
          (x : Built Job)
          → After (Within (suc n)) (elim x [
            | refused e ↦ (rejected (BatchError.not_built e), s)
            | built job ↦ read_built bounds build size batch_id job r s
          ])
      go (refused e) = tt
      go (built job) =
          split_if (After (Within (suc n)))
            (ltb bounds.max_bytes (r.total_bytes + size r.ordinal job)) (λ _. tt)
            λ h. check_size-Within n (stage_full bounds build size batch_id (next job) s) (
              stage_full-More n (next job) s (
                ap (λ k. suc k) a,
                ground (arith, h),
                (b, there, omega (arith, all, length-append r.chunk (job ∷ []))),
              ))
        where
          next : Job → Reading
          next job = record {
            ordinal = suc r.ordinal;
            total_bytes = r.total_bytes + size r.ordinal job;
            chunk = r.chunk ++ job ∷ [];
          }
  read_one-Within n null r s a = tt
  read_one-Within n (bool b) r s a = tt
  read_one-Within n (num k) r s a = tt
  read_one-Within n (decimal t) r s a = tt
  read_one-Within n (str t) r s a = tt
  read_one-Within n (list xs) r s a = tt

  -- The batch counts so many jobs.
  abbrev Counts : ℕ → Unit {0} → Memory → Type 0
  Counts n u t = (d : Batch) × (lookup batch_id t.batches ≡ some d) × (d.job_count ≡ n)

  -- The last chunk is staged.
  stage_rest-Counted :
      (chunk : List Job) (s : Memory) (b : Batch)
      → lookup batch_id s.batches ≡ some b
      → After (Counts (b.job_count + length chunk)) (stage_rest bounds build size batch_id chunk s)
  unfolding stage_rest
  stage_rest-Counted [] s b there = (b, there, omega arith)
  stage_rest-Counted (job ∷ jobs) s b there =
      go (stage_jobs batch_id (job ∷ jobs) s) (stage_jobs-Counted batch_id (job ∷ jobs) s b there)
    where
      go :
          (x : Result ℕ × Memory)
          → Counted batch_id (b.job_count + length (job ∷ jobs)) x
          → After (Counts (b.job_count + length (job ∷ jobs))) (elim x.0 [
            | err e ↦ (rejected (BatchError.by_queue e), x.1)
            | ok n ↦ (accepted tt, x.1)
          ])
      go (err e, t) c = tt
      go (ok n, t) c = c

  read_all-Within :
      (raws : List Value) (n : ℕ) (r : Reading) (s : Memory)
      → Within n r s
      → After (Within (n + length raws)) (read_all bounds build size batch_id raws r s)
  unfolding read_all
  read_all-Within [] n r s (a, size_, bytes, all) = (a ∙ omega arith, size_, bytes, all)
  read_all-Within (raw ∷ rest) n r s a =
      go (read_one bounds build size batch_id raw r s) (read_one-Within n raw r s a)
        (λ next t b. read_all-Within rest (suc n) next t b)
    where
      go :
          (x : Submitted Reading × Memory)
          → After (Within (suc n)) x
          → ((next : Reading) (t : Memory)
              → Within (suc n) next t
              → After
                  (Within (suc n + length rest))
                  (read_all bounds build size batch_id rest next t))
          → After (Within (n + suc (length rest))) (elim x.0 [
            | rejected e ↦ (rejected e, x.1)
            | accepted next ↦ read_all bounds build size batch_id rest next x.1
          ])
      go (rejected e, t) b k = tt
      go (accepted next, t) b k =
          subst (λ m. After (Within m) (read_all bounds build size batch_id rest next t))
            (omega arith) (k next t b)

  -- When the batch is in the queue with no job yet, and is activated, there was at least one job, there
  -- were at most as many as the settings allow, and the batch that is shown counts every one of them,
  -- unless it is a replay of another batch.
  pub fill-Bounded :
      (raws : List Value) (key hash : Option String) (now : ℕ) (s : Memory) (begun batch : Batch)
      → lookup batch_id s.batches ≡ some begun
      → begun.job_count ≡ 0
      → (fill bounds build size batch_id raws key hash now s).0 ≡ accepted batch
      → (ltb 0 (length raws) ≡ true)
        × (leb (length raws) bounds.max_size ≡ true)
        × ((batch.replayed ≡ true) ⊎ (batch.job_count ≡ length raws))
  unfolding fill close_batch
  fill-Bounded raws key hash now s begun batch there empty e =
      go (read_all bounds build size batch_id raws start s)
        (read_all-Within raws 0 start s
          (refl, ground arith, ground arith, (begun, there, omega (arith, empty))))
        e
    where
      start : Reading
      start = record { ordinal = 0; total_bytes = 0; chunk = [] }

      Sized : Submitted Batch × Memory → Type 0
      Sized x =
          x.0 ≡ accepted batch
          → (ltb 0 (length raws) ≡ true)
            × (leb (length raws) bounds.max_size ≡ true)
            × ((batch.replayed ≡ true) ⊎ (batch.job_count ≡ length raws))

      value : {a b : Batch} → accepted a ≡ accepted b → a ≡ b
      value h = cc

      activated :
          (r : Reading) (x : Result Batch × Memory)
          → Shows batch_id (length raws) x
          → (0 < length raws)
          → leb (length raws) bounds.max_size ≡ true
          → Sized (elim x.0 [
            | err e ↦ (rejected (BatchError.by_queue e), x.1)
            | ok b ↦ (accepted b, x.1)
          ])
      activated r (err e, t) shown pos most h = cc
      activated r (ok b, t) shown pos most h = (
        ground (arith, pos),
        most,
        subst (λ (x : Batch). (x.replayed ≡ true) ⊎ (x.job_count ≡ length raws)) (value h) shown,
      )

      closed :
          (r : Reading) (b : Batch) (staged : Submitted (Unit {0}) × Memory)
          → b.job_count + length r.chunk ≡ r.ordinal
          → r.ordinal ≡ length raws
          → leb r.ordinal bounds.max_size ≡ true
          → After (Counts (b.job_count + length r.chunk)) staged
          → let x = activate_batch batch_id key hash now staged.1 in
            Sized (elim staged.0 [
              | rejected e ↦ (rejected e, staged.1)
              | accepted _ ↦
                  if nat_eqb r.ordinal 0
                  then (rejected BatchError.no_jobs, staged.1)
                  else elim x.0 [
                    | err e ↦ (rejected (BatchError.by_queue e), x.1)
                    | ok b ↦ (accepted b, x.1)
                  ]
            ])
      closed r b (rejected e, t) all read most c h = cc
      closed r b (accepted u, t) all read most (d, found, counted) h =
          split_if Sized (nat_eqb r.ordinal 0) (λ _ k. cc)
            (λ some_.
              activated r (activate_batch batch_id key hash now t)
                (subst (λ n. Shows batch_id n (activate_batch batch_id key hash now t))
                  (counted ∙ all ∙ read) (activate_batch-Shows batch_id key hash now t d found))
                (ground (arith, some_, read)) (ground (arith, read, most)))
            h

      go :
          (x : Submitted Reading × Memory)
          → After (Within (0 + length raws)) x
          → Sized (elim x.0 [
            | rejected e ↦ (rejected e, x.1)
            | accepted r ↦ close_batch bounds build size batch_id key hash now r x.1
          ])
      go (rejected e, t) a h = cc
      go (accepted r, t) (read, most, _, (b, found, all)) h =
          closed r b (stage_rest bounds build size batch_id r.chunk t) all (omega (arith, read))
            most (stage_rest-Counted r.chunk t b found) h
