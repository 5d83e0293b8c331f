-- ===== src/Memory/Run.antt =====
-- Histories of the in-memory queue: requests at the times of the clock, one after the other, as the
-- lock of src/keziah/queue/memory.py orders them.
pub mod Keeps
pub mod Indexed
use keziah.Base.{ℕ, ◌≤◌, ◌≡◌, String, Bool, false, Option, none, List, [], ◌∷◌, lookup, string_eq}
use keziah.Types.{State, Job, Batch, Fields}
use keziah.Scheduler.Numbers.{Float}
use keziah.Scheduler.{Weights, PickerState}
use keziah.Ready.{empty_index}
use keziah.Memory.{Memory, Limits, EventKind}
use keziah.Memory.Submit.{enqueue}
use keziah.Memory.Batches.{begin_batch, stage_jobs, activate_batch, abort_batch}
use keziah.Memory.Lease.{claim_next, claim_compatible, extend_lease, mark_running}
use keziah.Memory.Settle.{
  Completion, Retry, complete, fail, retry, finish_cancel, cancel, cancel_batch, requeue,
  release_leases, release_to_queue,
}
use keziah.Memory.Maintain.{maintenance, cleanup}
use keziah.Memory.Keeps.Submit.{IsNew}
use keziah.Memory.Keeps.Batches.{AllNew}

-- `MemoryBackend.__init__`.
unfoldable pub init : Limits → Memory
init limits = record {
  limits = limits;
  jobs = [];
  batches = [];
  idemp = [];
  batch_idemp = [];
  events = [];
  event_id = 0;
  index = empty_index;
  closed = false;
}

module _ (F : Float) (settings : Weights F) where
  -- A call of each method that changes the queue; its time is given with it.
  pub data Request : Type 0 where
    enqueues : Job → Request
    begins : Batch → Request
    stages : String → List Job → Request
    activates : String → Option String → Option String → Request
    aborts : String → Request
    claims : (model owner : String) (until : ℕ) → PickerState F → Request
    claims_more :
        (model hash : String) → List String → (limit : ℕ) (owner : String) (until : ℕ) → Request
    extends : (job owner : String) (until : ℕ) → Request
    starts : (job owner : String) (until : ℕ) → Request
    completes : (job owner : String) → Completion → Request
    fails : (job owner : String) → Fields → Bool → Request
    retries : (job owner : String) → Retry → Request
    stops : (job owner : String) → Request
    cancels : String → Request
    cancels_batch : String → Request
    requeues : String → Request
    releases : (job owner : String) → Option String → Bool → EventKind → Request
    releases_all : String → Request
    maintains : Request
    cleans : (success failure event : ℕ) → Request

  -- The state that a call leaves.
  unfoldable pub step : ℕ → Request → Memory → Memory
  step now (enqueues job) s = (enqueue job s).1
  step now (begins batch) s = (begin_batch batch s).1
  step now (stages batch jobs) s = (stage_jobs batch jobs s).1
  step now (activates batch key hash) s = (activate_batch batch key hash now s).1
  step now (aborts batch) s = (abort_batch batch s).1
  step now (claims model owner until picker) s =
      (claim_next F settings model owner until now picker s).1
  step now (claims_more model hash exclude limit owner until) s =
      (claim_compatible model hash exclude limit now owner until s).1
  step now (extends job owner until) s = (extend_lease job owner until now s).1
  step now (starts job owner until) s = (mark_running job owner until now s).1
  step now (completes job owner c) s = (complete job owner c now s).1
  step now (fails job owner error dead) s = (fail job owner error dead now s).1
  step now (retries job owner r) s = (retry job owner r now s).1
  step now (stops job owner) s = (finish_cancel job owner now s).1
  step now (cancels job) s = (cancel job now s).1
  step now (cancels_batch batch) s = (cancel_batch batch now s).1
  step now (requeues job) s = (requeue job now s).1
  step now (releases job owner model decrement kind) s =
      (release_to_queue job owner now model decrement kind s).1
  step now (releases_all prefix) s = (release_leases prefix now s).1
  step now maintains s = (maintenance now s).1
  step now (cleans success failure event) s = (cleanup success failure event s).1

  unfoldable pub run : List (ℕ × Request) → Memory → Memory
  run [] s = s
  run ((now, r) ∷ rest) s = run rest (step now r s)

  -- What callers see to: ids are new.
  abbrev pub Admissible : ℕ → Memory → Request → Type 0
  Admissible now s (enqueues job) = IsNew now s.batches s.jobs job
  Admissible now s (begins batch) = lookup batch.batch_id s.batches ≡ none
  Admissible now s (stages batch jobs) = AllNew now s.batches s.jobs jobs
  Admissible now s _ = Unit

  -- The clock does not run backwards, and each request is admissible when it is made.
  abbrev pub Follows : ℕ → Memory → List (ℕ × Request) → Type 0
  Follows t s [] = Unit
  Follows t s ((now, r) ∷ rest) = (t ≤ now) × Admissible now s r × Follows now (step now r s) rest

  -- The time of the last request.
  abbrev pub last_time : ℕ → List (ℕ × Request) → ℕ
  last_time t [] = t
  last_time t ((now, r) ∷ rest) = last_time now rest
