-- ===== src/Memory/Run/Indexed.antt =====
-- The ready index stays in order after every history.
use keziah.Base.{ℕ, List, [], ◌∷◌, lookup, keys, string_eq}
use keziah.Scheduler.Numbers.{Float}
use keziah.Scheduler.{Weights}
use keziah.Ready.Heaps.{IndexOk}
use keziah.Memory.{Memory, Limits}
use keziah.Memory.Invariant.{Inv}
use keziah.Memory.Run.{
  Request, step, run, init, Follows, last_time, enqueues, begins, stages, activates, aborts, claims,
  claims_more, extends, starts, completes, fails, retries, stops, cancels, cancels_batch, requeues,
  releases, releases_all, maintains, cleans,
}
use keziah.Memory.Run.Keeps.{run-Inv, init-Inv}
use keziah.Memory.Keeps.Indexed.{
  Indexed, complete-Indexed, fail-Indexed, retry-Indexed, finish_cancel-Indexed, cancel-Indexed,
  requeue-Indexed, release_to_queue-Indexed, extend_lease-Indexed, mark_running-Indexed,
}
use keziah.Memory.Keeps.Hints.{
  enqueue-Indexed, begin_batch-Indexed, activate_batch-Indexed, abort_batch-Indexed,
  cancel_batch-Indexed, release_leases-Indexed, maintenance-Indexed, cleanup-Indexed,
}
use keziah.Memory.Keeps.HintedClaims.{
  stage_jobs-Indexed, claim_next-Indexed, claim_compatible-Indexed,
}

module _ (F : Float) (settings : Weights F) where
  step-Indexed :
      (now : ℕ) (r : Request F settings) (s : Memory)
      → Indexed s
      → Indexed (step F settings now r s)
  unfolding step
  step-Indexed now (enqueues job) s v = enqueue-Indexed s v job
  step-Indexed now (begins batch) s v = begin_batch-Indexed s v batch
  step-Indexed now (stages batch jobs) s v = stage_jobs-Indexed s v batch jobs
  step-Indexed now (activates batch key hash) s v = activate_batch-Indexed s v batch now key hash
  step-Indexed now (aborts batch) s v = abort_batch-Indexed s v batch
  step-Indexed now (claims model owner until picker) s v =
      claim_next-Indexed F settings model owner until now picker s v
  step-Indexed now (claims_more model hash exclude limit owner until) s v =
      claim_compatible-Indexed s v model hash exclude limit now owner until
  step-Indexed now (extends job owner until) s v = extend_lease-Indexed s v job owner until now
  step-Indexed now (starts job owner until) s v = mark_running-Indexed s v job owner until now
  step-Indexed now (completes job owner c) s v = complete-Indexed s v job owner c now
  step-Indexed now (fails job owner error dead) s v = fail-Indexed s v job owner error dead now
  step-Indexed now (retries job owner r) s v = retry-Indexed s v job owner r now
  step-Indexed now (stops job owner) s v = finish_cancel-Indexed s v job owner now
  step-Indexed now (cancels job) s v = cancel-Indexed s v job now
  step-Indexed now (cancels_batch batch) s v = cancel_batch-Indexed s v batch now
  step-Indexed now (requeues job) s v = requeue-Indexed s v job now
  step-Indexed now (releases job owner model decrement kind) s v =
      release_to_queue-Indexed s v job owner now model decrement kind
  step-Indexed now (releases_all prefix) s v = release_leases-Indexed s v prefix now
  step-Indexed now maintains s v = maintenance-Indexed s v now
  step-Indexed now (cleans success failure event) s v = cleanup-Indexed s v success failure event

  run-Indexed :
      (requests : List (ℕ × Request F settings)) (s : Memory)
      → Indexed s
      → Indexed (run F settings requests s)
  unfolding run
  run-Indexed [] s v = v
  run-Indexed ((now, r) ∷ rest) s v =
      run-Indexed rest (step F settings now r s) (step-Indexed now r s v)

  -- After every history from the empty queue that the clock and the ids allow, the invariant holds at
  -- the time of the last request: jobs, their fields and the ready index agree.
  pub run-init-Inv :
      (t : ℕ) (requests : List (ℕ × Request F settings)) (limits : Limits)
      → Follows F settings t (init limits) requests
      → Inv (last_time F settings t requests) (run F settings requests (init limits))
  run-init-Inv t requests limits f =
      run-Inv F settings t requests (init limits) (init-Inv F settings t limits) f

  -- After every history from the empty queue, each live hint of the ready index has its candidate,
  -- filed under its id and lane, and an entry in the heap of that lane.
  pub run-init-IndexOk :
      (requests : List (ℕ × Request F settings)) (limits : Limits)
      → IndexOk (run F settings requests (init limits)).index
  unfolding init lookup keys
  run-init-IndexOk requests limits =
      run-Indexed requests (init limits) (record { lanes = tt; hint = λ id. tt })
