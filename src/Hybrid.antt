-- ===== src/Hybrid.antt =====
-- src/keziah/queue/hybrid.py: the ready index of the in-memory queue in front of a durable store.
-- The store is an interface, `Store`: the operations that this file calls, each from a state to its
-- result and the next state. A read of the monotonic clock, in milliseconds, is an argument, `mono`.
-- The lock makes each use of the index one step.
pub mod Durable
use keziah.Base.{
  ℕ, zero, suc, ◌-◌, String, Bool, true, false, ◌||◌, not, Option, none, some, List, [], ◌∷◌, ltb,
  nat_eqb, if◌then◌else◌, length,
}
use keziah.Types.{State, Job, Batch, Candidate, state_is}
use keziah.Scheduler.Numbers.{Float}
use keziah.Scheduler.{Weights, PickerState}
use keziah.Ready.{Index, empty_index, add, remove, rebuild, propose}
use keziah.Memory.{Result, ok, err, candidate_from_job}
use keziah.Memory.Maintain.{Report}

-- What `HybridBackend` calls of the store.
pub record Store (D : Type 0) : Type 0 where
  pub ready_candidates : D → Result (List Candidate)
  pub enqueue : Job → D → Result Job × D
  pub activate_batch : String → Option String → Option String → ℕ → D → Result Batch × D
  pub claim_by_id : String → String → ℕ → ℕ → D → Result (Option Job) × D
  pub claim_compatible :
      String → String → List String → ℕ → ℕ → String → ℕ → D → Result (List Job) × D
  pub maintenance : ℕ → D → Result Report × D
  pub get_job : String → D → Result (Option Job)
  pub cancel : String → ℕ → D → Result Job × D
  pub cancel_batch : String → ℕ → D → Result ℕ × D
  pub requeue : String → ℕ → D → Result Job × D

-- The fields of `HybridBackend`; `interval` is `settings.queue.reconcile_interval_s`.
pub record Hybrid (D : Type 0) : Type 0 where
  pub db : D
  pub interval : ℕ
  pub index : Index
  pub reconciled_at : ℕ

module _ {D : Type 0} (store : Store D) where
  -- `self.index.rebuild(self.db.ready_candidates())` and the time of it; the read may raise.
  unfoldable pub relist_ready : ℕ → Hybrid D → Result ℕ × Hybrid D
  relist_ready mono h = elim (store.ready_candidates h.db) [
    | err e ↦ (err e, h)
    | ok candidates ↦ (
      ok (length candidates),
      record h { index = rebuild candidates h.index; reconciled_at = mono },
    )
  ]

  -- `reconcile`.
  unfoldable pub reconcile : ℕ → Hybrid D → Result ℕ × Hybrid D
  unfolding relist_ready
  reconcile mono h = relist_ready mono h

  -- `__init__`.
  unfoldable pub init : ℕ → ℕ → D → Result ℕ × Hybrid D
  unfolding reconcile
  init mono interval db =
      reconcile mono
        (record { db = db; interval = interval; index = empty_index; reconciled_at = 0 })

  -- `maybe_reconcile`.
  unfoldable pub maybe_reconcile : ℕ → Hybrid D → Result ℕ × Hybrid D
  unfolding reconcile
  maybe_reconcile mono h =
      if nat_eqb h.interval 0
      then (ok 0, h)
      else if ltb (mono - h.reconciled_at) h.interval
      then (ok 0, h)
      else reconcile mono h

  -- A call of the store: an exception leaves the index alone, and a result is followed by `rest`.
  abbrev pub after {ℓ} :
      {A : Type ℓ} → Result A × D → (A → D → Hybrid D) → Hybrid D → Result A × Hybrid D
  after (err e, db) rest h = (err e, record h { db = db })
  after (ok a, db) rest h = (ok a, rest a db)

  -- A stored job goes to the index if it is queued.
  abbrev pub add_if_queued : Job → Index → Index
  add_if_queued job i =
      if state_is job.state State.queued then add (candidate_from_job job) i else i

  unfoldable pub enqueue : Job → Hybrid D → Result Job × Hybrid D
  enqueue job h =
      after (store.enqueue job h.db)
        (λ stored db. record h { db = db; index = add_if_queued stored h.index }) h

  -- The result `a`, unless the index could not be rebuilt.
  abbrev pub once_listed {ℓ} : {A : Type ℓ} → A → Result ℕ × Hybrid D → Result A × Hybrid D
  once_listed a (err e, h) = (err e, h)
  once_listed a (ok n, h) = (ok a, h)

  unfoldable pub activate_batch :
      String → Option String → Option String → ℕ → ℕ → Hybrid D → Result Batch × Hybrid D
  unfolding relist_ready
  activate_batch batch_id key hash now mono h =
      let (activated, db) = store.activate_batch batch_id key hash now h.db in
      elim activated [
        | err e ↦ (err e, record h { db = db })
        | ok stored ↦ once_listed stored (relist_ready mono (record h { db = db }))
      ]

  module _ (F : Float) (settings : Weights F) (model owner : String) (lease_until now : ℕ) where
    -- The loop of `claim_next`; the source makes 64 turns. The hint goes whether or not the claim
    -- succeeds, but stays where the claim raises.
    unfoldable pub claim_loop :
        ℕ → PickerState F → Hybrid D → Result (Option Job × PickerState F) × Hybrid D
    unfolding propose
    claim_loop zero picker h = (ok (none, picker), h)
    claim_loop (suc turns) picker h =
        let (index, proposal) = propose F settings model picker now h.index in
        elim proposal.0 [
          | none ↦ (ok (none, picker), record h { index = index })
          | some choice ↦
              (let claim = store.claim_by_id choice.job_id owner lease_until now h.db in
                let next = record h { db = claim.1; index = remove choice.job_id index } in
                elim claim.0 [
                  | err e ↦ (err e, record h { db = claim.1; index = index })
                  | ok none ↦ claim_loop turns picker next
                  | ok (some job) ↦ (ok (some job, proposal.1), next)
                ])
        ]

    -- What follows the reconciliation, if that has not raised.
    abbrev pub when_reconciled :
        PickerState F → Result ℕ × Hybrid D → Result (Option Job × PickerState F) × Hybrid D
    when_reconciled picker (err e, h) = (err e, h)
    when_reconciled picker (ok n, h) = claim_loop 64 picker h

    unfoldable pub claim_next :
        ℕ → PickerState F → Hybrid D → Result (Option Job × PickerState F) × Hybrid D
    unfolding claim_loop maybe_reconcile
    claim_next mono picker h = when_reconciled picker (maybe_reconcile mono h)

  -- `for job in claimed: self.index.remove(job.job_id)`.
  unfoldable pub remove_jobs : List Job → Index → Index
  remove_jobs [] i = i
  remove_jobs (job ∷ jobs) i = remove_jobs jobs (remove job.job_id i)

  unfoldable pub claim_compatible :
      String → String → List String → ℕ → ℕ → String → ℕ → Hybrid D → Result (List Job) × Hybrid D
  unfolding remove_jobs
  claim_compatible model questions_hash exclude limit now owner lease_until h =
      after (store.claim_compatible model questions_hash exclude limit now owner lease_until h.db)
        (λ claimed db. record h { db = db; index = remove_jobs claimed h.index }) h

  unfoldable pub remove_ids : List String → Index → Index
  remove_ids [] i = i
  remove_ids (id ∷ ids) i = remove_ids ids (remove id i)

  -- One turn of the loop over `report.requeued`.
  abbrev pub relist : String → Option Job → Index → Index
  relist id none i = remove id i
  relist id (some job) i =
      if state_is job.state State.queued then add (candidate_from_job job) i else remove id i

  -- The loop; where `get_job` raises, the ids before it are done.
  unfoldable pub relist_all : List String → D → Index → Result (Unit {0}) × Index
  relist_all [] db i = (ok tt, i)
  relist_all (id ∷ ids) db i = elim (store.get_job id db) [
    | err e ↦ (err e, i)
    | ok found ↦ relist_all ids db (relist id found i)
  ]

  unfoldable pub maintenance : ℕ → Hybrid D → Result Report × Hybrid D
  unfolding remove_ids relist_all
  maintenance now h =
      let (swept, db) = store.maintenance now h.db in
      elim swept [
        | err e ↦ (err e, record h { db = db })
        | ok report ↦
            (let (relisted, index) =
                relist_all report.requeued db (remove_ids report.finished h.index) in
              let next = record h { db = db; index = index } in
              elim relisted [ err e ↦ (err e, next) | ok _ ↦ (ok report, next) ])
      ]

  unfoldable pub cancel : String → ℕ → Hybrid D → Result Job × Hybrid D
  cancel job_id now h =
      after (store.cancel job_id now h.db)
        (λ job db. record h {
          db = db;
          index = if state_is job.state State.queued then h.index else remove job_id h.index;
        })
        h

  unfoldable pub cancel_batch : String → ℕ → ℕ → Hybrid D → Result ℕ × Hybrid D
  unfolding reconcile
  cancel_batch batch_id now mono h =
      let (cancelled, db) = store.cancel_batch batch_id now h.db in
      elim cancelled [
        | err e ↦ (err e, record h { db = db })
        | ok changed ↦ once_listed changed (reconcile mono (record h { db = db }))
      ]

  unfoldable pub requeue : String → ℕ → Hybrid D → Result Job × Hybrid D
  requeue job_id now h =
      after (store.requeue job_id now h.db)
        (λ job db. record h { db = db; index = add_if_queued job h.index }) h
