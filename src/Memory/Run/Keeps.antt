-- ===== src/Memory/Run/Keeps.antt =====
-- The invariant holds after every history.
use keziah.Base.{
  ℕ, ◌≤◌, ◌≡◌, refl, String, true, false, Option, none, some, List, [], ◌∷◌, arith, Dict, lookup,
  keys, string_eq,
}
use keziah.Types.{Job, Batch}
use keziah.Scheduler.Numbers.{Float}
use keziah.Scheduler.{Weights}
use keziah.Ready.{Lane}
use keziah.Memory.{Memory, Limits, is_after, is_due}
use keziah.Memory.Invariant.{Inv, CellOk}
use keziah.Memory.Run.{
  Request, step, run, init, Admissible, Follows, last_time, enqueues, begins, stages, activates,
  aborts, claims, claims_more, extends, starts, completes, fails, retries, stops, cancels,
  cancels_batch, requeues, releases, releases_all, maintains, cleans,
}
use keziah.Memory.Keeps.Submit.{enqueue-Inv}
use keziah.Memory.Keeps.Batches.{begin_batch-Inv, stage_jobs-Inv, abort_batch-Inv}
use keziah.Memory.Keeps.Gate.{activate_batch-Inv}
use keziah.Memory.Keeps.Lease.{
  claim_next-Inv, claim_compatible-Inv, extend_lease-Inv, mark_running-Inv,
}
use keziah.Memory.Keeps.Settle.{
  complete-Inv, fail-Inv, retry-Inv, finish_cancel-Inv, cancel-Inv, cancel_batch-Inv, requeue-Inv,
  release_to_queue-Inv, release_leases-Inv,
}
use keziah.Memory.Keeps.Maintain.{maintenance-Inv, cleanup-Inv}

is_after-later : (o : Option ℕ) (t u : ℕ) → t ≤ u → is_after o t ≡ false → is_after o u ≡ false
is_after-later none t u h e = refl
is_after-later (some n) t u h e = ground arith

is_due-later : (o : Option ℕ) (t u : ℕ) → t ≤ u → is_due o t ≡ true → is_due o u ≡ true
is_due-later none t u h e = cc
is_due-later (some n) t u h e = ground arith

later-CellOk :
    (t u : ℕ) (batches : Dict String Batch) (key : String) (job : Option Job) (lane : Option Lane)
    → t ≤ u
    → CellOk t batches key job lane
    → CellOk u batches key job lane
later-CellOk t u batches key none none h c = tt
later-CellOk t u batches key none (some lane) h c = c
later-CellOk t u batches key (some job) lane h (j, l) = (
  record {
    named = j.named;
    owned = j.owned;
    timed = j.timed;
    ended = j.ended;
    gated = j.gated;
    ripe = ground (arith, j.ripe, is_after-later job.not_before t u h);
  },
  record {
    aligned = l.aligned;
    only = l.only;
    listed = ground (arith, l.listed, is_due-later job.deadline_at t u h);
  },
)

-- Time that passes breaks nothing.
pub later-Inv : (t u : ℕ) (s : Memory) → t ≤ u → Inv t s → Inv u s
later-Inv t u s h inv = record {
  distinct = inv.distinct;
  cell = λ k. later-CellOk t u s.batches k (lookup k s.jobs) (lookup k s.index.live) h (inv.cell k);
}

module _ (F : Float) (settings : Weights F) where
  -- Every request keeps the invariant: jobs and index agree, and so do each job's fields.
  pub step-Inv :
      (now : ℕ) (r : Request F settings) (s : Memory)
      → Inv now s
      → Admissible F settings now s r
      → Inv now (step F settings now r s)
  unfolding step
  step-Inv now (enqueues job) s v a = enqueue-Inv s v job a
  step-Inv now (begins batch) s v a = begin_batch-Inv s v batch a
  step-Inv now (stages batch jobs) s v a = stage_jobs-Inv s v batch jobs a
  step-Inv now (activates batch key hash) s v a = activate_batch-Inv now now batch s key hash v
  step-Inv now (aborts batch) s v a = abort_batch-Inv s v batch
  step-Inv now (claims model owner until picker) s v a =
      claim_next-Inv F settings model owner until now picker s v
  step-Inv now (claims_more model hash exclude limit owner until) s v a =
      claim_compatible-Inv s v model hash exclude limit now owner until
  step-Inv now (extends job owner until) s v a = extend_lease-Inv s v job owner until now
  step-Inv now (starts job owner until) s v a = mark_running-Inv s v job owner until now
  step-Inv now (completes job owner c) s v a = complete-Inv s v job owner c now
  step-Inv now (fails job owner error dead) s v a = fail-Inv s v job owner error dead now
  step-Inv now (retries job owner r) s v a = retry-Inv s v job owner r now
  step-Inv now (stops job owner) s v a = finish_cancel-Inv s v job owner now
  step-Inv now (cancels job) s v a = cancel-Inv s v job now
  step-Inv now (cancels_batch batch) s v a = cancel_batch-Inv s v batch now
  step-Inv now (requeues job) s v a = requeue-Inv s v job now
  step-Inv now (releases job owner model decrement kind) s v a =
      release_to_queue-Inv s v job owner now model decrement kind
  step-Inv now (releases_all prefix) s v a = release_leases-Inv s v prefix now
  step-Inv now maintains s v a = maintenance-Inv s v
  step-Inv now (cleans success failure event) s v a = cleanup-Inv s v success failure event

  pub run-Inv :
      (t : ℕ) (requests : List (ℕ × Request F settings)) (s : Memory)
      → Inv t s
      → Follows F settings t s requests
      → Inv (last_time F settings t requests) (run F settings requests s)
  unfolding run
  run-Inv t [] s v f = v
  run-Inv t ((now, r) ∷ rest) s v f =
      run-Inv now rest (step F settings now r s) (step-Inv now r s (later-Inv t now s f.0 v) f.1)
        f.2

  pub init-Inv : (t : ℕ) (limits : Limits) → Inv t (init limits)
  unfolding init lookup keys
  init-Inv t limits = record { distinct = tt; cell = λ k. tt }
