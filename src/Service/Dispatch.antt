-- ===== src/Service/Dispatch.antt =====
-- `_dispatch_available` of src/keziah/service.py on the in-memory queue: for each enabled model, slots
-- are taken and jobs claimed until there is no slot or no job. A claim's owner is a fresh name, here
-- one of a sequence; a task is what is handed to `_execute`.
use keziah.Base.{
  ℕ, zero, suc, ◌+◌, ◌-◌, String, Bool, true, false, ◌&&◌, not, Option, none, some, List, [], ◌∷◌,
  ◌++◌, ltb, if◌then◌else◌, string_eq,
}
use keziah.Types.{Job}
use keziah.Scheduler.Numbers.{Float}
use keziah.Scheduler.{Weights, PickerState}
use keziah.Memory.{Memory, Result, ok, err, Error}
use keziah.Memory.Lease.{claim_next, claim_compatible}
use keziah.Service.{Slots, try_reserve, release}

-- What the loop reads of a model: `enabled`, `max_concurrency`, `max_native_batch_size`, and whether its
-- adapter supports native batches.
pub record Spec : Type 0 where
  pub enabled : Bool
  pub cap : ℕ
  pub batch_size : ℕ
  pub native : Bool

-- A task: the model, the owner of the leases, and the jobs.
pub record Task : Type 0 where
  pub model : String
  pub owner : String
  pub jobs : List Job

module _ (F : Float) (settings : Weights F) (owner_of : ℕ → String) (now lease_until : ℕ) where
  -- The fields of the service that the loop changes, and the number of owners that were drawn.
  pub record Dispatcher : Type 0 where
    pub queue : Memory
    pub slots : Slots
    pub picker : PickerState F
    pub tasks : List Task
    pub drawn : ℕ

  -- How the loop of a model ends: after some tasks, by an exception after some tasks, or out of turns.
  pub data Ending : Type 0 where
    launched : ℕ → Ending
    broken : ℕ → Error → Ending
    cut_short : Ending

  -- One task more.
  abbrev pub one_more : Ending × Dispatcher → Ending × Dispatcher
  one_more (launched n, d) = (launched (suc n), d)
  one_more (broken n e, d) = (broken (suc n) e, d)
  one_more (cut_short, d) = (cut_short, d)

  -- The jobs of a native batch, beside the first one.
  unfoldable pub companions : String → Spec → String → Job → Memory → Result (List Job) × Memory
  unfolding claim_compatible
  companions model spec owner job s =
      if ltb 1 spec.batch_size && spec.native
      then claim_compatible model job.questions_hash (job.job_id ∷ []) (spec.batch_size - 1) now
          owner lease_until s
      else (ok [], s)

  abbrev pub launch : String → String → Job → List Job → Dispatcher → Dispatcher
  launch model owner job others d = record d {
    tasks = d.tasks ++ record { model = model; owner = owner; jobs = job ∷ others } ∷ [];
  }

  -- What follows `claim_next`: an exception, no job, or a job.
  abbrev pub on_claim :
      Result (Option Job × PickerState F)
      → Dispatcher
      → (PickerState F → Dispatcher)
      → (Job → PickerState F → Ending × Dispatcher)
      → Ending × Dispatcher
  on_claim (err e) held idle next = (broken 0 e, held)
  on_claim (ok (none, picker)) held idle next = (launched 0, idle picker)
  on_claim (ok (some job, picker)) held idle next = next job picker

  -- What follows `claim_compatible`.
  abbrev pub on_more :
      Result (List Job) → Dispatcher → (List Job → Ending × Dispatcher) → Ending × Dispatcher
  on_more (err e) paired next = (broken 0 e, paired)
  on_more (ok others) paired next = one_more (next others)

  -- The `while` loop of a model.
  unfoldable pub dispatch_model : ℕ → String → Spec → Dispatcher → Ending × Dispatcher
  unfolding try_reserve release claim_next companions
  dispatch_model zero model spec d = (cut_short, d)
  dispatch_model (suc turns) model spec d =
      let owner = owner_of d.drawn in
      let claim = claim_next F settings model owner lease_until now d.picker d.queue in
      let taken = (try_reserve spec.cap model d.slots).1 in
      let held : Dispatcher = record d { slots = taken; queue = claim.1; drawn = suc d.drawn } in
      if not (try_reserve spec.cap model d.slots).0
      then (launched 0, d)
      else on_claim claim.0 held
          (λ picker. record held { slots = release model taken; picker = picker })
          (λ job picker.
            let more = companions model spec owner job claim.1 in
            let paired : Dispatcher = record held { queue = more.1; picker = picker } in
            on_more more.0 paired
              (λ others. dispatch_model turns model spec (launch model owner job others paired)))

  -- `_dispatch_available`, for a service that is not stopping: a turn for each slot of a model, and one
  -- more, and the models in their order.
  unfoldable pub dispatch_available : List (String × Spec) → Dispatcher → Ending × Dispatcher
  unfolding dispatch_model
  dispatch_available [] d = (launched 0, d)
  dispatch_available ((model, spec) ∷ rest) d = elim spec.enabled [
    | false ↦ dispatch_available rest d
    | true ↦
        (let (ending, t) = dispatch_model (suc spec.cap) model spec d in
          let (later, u) = dispatch_available rest t in
          elim ending [
            | broken n e ↦ (broken n e, t)
            | cut_short ↦ (cut_short, t)
            | launched n ↦ elim later [
              | launched m ↦ (launched (n + m), u)
              | broken m e ↦ (broken (n + m) e, u)
              | cut_short ↦ (cut_short, u)
            ]
          ])
  ]
