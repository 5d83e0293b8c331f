-- ===== src/Service/Batching.antt =====
-- `submit_batch` of src/keziah/service.py on the in-memory queue: jobs are built and staged in chunks of
-- 500, and the batch is activated, or aborted after an exception. The size of a job's canonical text,
-- the hashes and the fresh ids are parameters, since they are computed by Python's own functions.
use keziah.Base.{
  ℕ, suc, ◌+◌, String, Bool, true, false, ◌&&◌, not, Option, none, some, List, [], ◌∷◌, ◌++◌, ltb,
  leb, length, if◌then◌else◌, ◌==◌, string_eq, option_eq, nat_eqb,
}
use keziah.Types.{Job, Batch, BatchStatus, Value, Fields, dict}
use keziah.Memory.{Memory, ok, err, Error}
use keziah.Memory.Batches.{
  empty_counts, find_batch_idempotency, begin_batch, stage_jobs, activate_batch, abort_batch,
}
use keziah.Service.Build.{Built, built, refused, BuildError, class_of}
use keziah.Service.Views.{Receipt, receipt}

-- The exceptions of `submit_batch`.
pub data BatchError : Type 0 where
  too_many too_large not_an_object no_jobs : BatchError
  not_built : BuildError → BatchError
  conflicts : (batch_id : String) → BatchError
  by_queue : Error → BatchError

pub data Submitted {ℓ} (A : Type ℓ) : Type ℓ where
  accepted : A → Submitted A
  rejected : BatchError → Submitted A

-- `max_batch_size`, `max_batch_bytes`.
pub record Bounds : Type 0 where
  pub max_size : ℕ
  pub max_bytes : ℕ

-- What the loop has read: the jobs so far, their bytes, and the chunk that is not staged yet.
pub record Reading : Type 0 where
  pub ordinal : ℕ
  pub total_bytes : ℕ
  pub chunk : List Job

module _ (bounds : Bounds) (build : ℕ → Fields → Built Job) (size : ℕ → Job → ℕ)
    (batch_id : String) where
  -- `if len(chunk) >= 500: stage`.
  unfoldable pub stage_full : Reading → Memory → Submitted Reading × Memory
  unfolding stage_jobs
  stage_full r s =
      if leb 500 (length r.chunk)
      then (let (staged, t) = stage_jobs batch_id r.chunk s in
          elim staged [
            | err e ↦ (rejected (by_queue e), t)
            | ok n ↦ (accepted (record r { chunk = [] }), t)
          ])
      else (accepted r, s)

  -- `if ordinal > max_batch_size`.
  abbrev pub check_size : Submitted Reading × Memory → Submitted Reading × Memory
  check_size (rejected e, s) = (rejected e, s)
  check_size (accepted r, s) =
      if ltb bounds.max_size r.ordinal then (rejected too_many, s) else (accepted r, s)

  -- The body of the loop on a job that was built.
  unfoldable pub read_built : Job → Reading → Memory → Submitted Reading × Memory
  unfolding stage_full
  read_built job r s =
      if ltb bounds.max_bytes (r.total_bytes + size r.ordinal job)
      then (rejected too_large, s)
      else check_size (
          stage_full
            (record {
              ordinal = suc r.ordinal;
              total_bytes = r.total_bytes + size r.ordinal job;
              chunk = r.chunk ++ job ∷ [];
            })
            s)

  unfoldable pub read_one : Value → Reading → Memory → Submitted Reading × Memory
  unfolding read_built
  read_one (dict raw) r s = elim (build r.ordinal raw) [
    | refused e ↦ (rejected (not_built e), s)
    | built job ↦ read_built job r s
  ]
  read_one _ r s = (rejected not_an_object, s)

  -- The loop.
  unfoldable pub read_all : List Value → Reading → Memory → Submitted Reading × Memory
  unfolding read_one
  read_all [] r s = (accepted r, s)
  read_all (raw ∷ rest) r s =
      let (result, t) = read_one raw r s in
      elim result [ rejected e ↦ (rejected e, t) | accepted next ↦ read_all rest next t ]

  -- `if chunk: stage`.
  unfoldable pub stage_rest : List Job → Memory → Submitted (Unit {0}) × Memory
  unfolding stage_jobs
  stage_rest [] s = (accepted tt, s)
  stage_rest (job ∷ jobs) s =
      let (staged, t) = stage_jobs batch_id (job ∷ jobs) s in
      elim staged [ err e ↦ (rejected (by_queue e), t) | ok n ↦ (accepted tt, t) ]

  -- What follows the loop.
  unfoldable pub close_batch :
      Option String → Option String → ℕ → Reading → Memory → Submitted Batch × Memory
  unfolding stage_rest activate_batch
  close_batch key hash now r s =
      let (staged, t) = stage_rest r.chunk s in
      let (activated, u) = activate_batch batch_id key hash now t in
      elim staged [
        | rejected e ↦ (rejected e, t)
        | accepted _ ↦ if nat_eqb r.ordinal 0 then (rejected no_jobs, t) else elim activated [
          | err e ↦ (rejected (by_queue e), u)
          | ok batch ↦ (accepted batch, u)
        ]
      ]

  -- The `try` block.
  unfoldable pub fill :
      List Value → Option String → Option String → ℕ → Memory → Submitted Batch × Memory
  unfolding read_all close_batch
  fill raws key hash now s =
      let (result, t) = read_all raws (record { ordinal = 0; total_bytes = 0; chunk = [] }) s in
      elim result [ rejected e ↦ (rejected e, t) | accepted r ↦ close_batch key hash now r t ]

  -- The `except` block, whose own exceptions are dropped.
  unfoldable pub or_abort : Submitted Batch × Memory → Submitted Batch × Memory
  unfolding abort_batch
  or_abort (accepted batch, s) = (accepted batch, s)
  or_abort (rejected e, s) = (rejected e, (abort_batch batch_id s).1)

-- `if idempotency_key`.
abbrev pub is_given : Option String → Bool
is_given none = false
is_given (some key) = not (key == "")

-- The arguments of `submit_batch`, and what is computed of them: `listed` tells a sequence from another
-- iterable, `digest` is `_hash_jobs` of a sequence and the running hash of another iterable.
pub record BatchOrder : Type 0 where
  pub jobs : List Value
  pub listed : Bool
  pub digest : String
  pub model : Option String
  pub client_id : String
  pub scheduling_class : Option String
  pub idempotency_key : Option String
  pub deadline : Built (Option ℕ)

abbrev pub receipt_of : Submitted Batch × Memory → Submitted Receipt × Memory
receipt_of (accepted batch, s) = (accepted (receipt batch), s)
receipt_of (rejected e, s) = (rejected e, s)

module _ (bounds : Bounds) (build : ℕ → Fields → Built Job) (size : ℕ → Job → ℕ) (batch_id : String)
    (accepting : Bool) (default_class : String) (now : ℕ) (order : BatchOrder) where
  abbrev pub staging_batch : Option ℕ → Batch
  staging_batch deadline = record {
    batch_id = batch_id;
    client_id = order.client_id;
    status = BatchStatus.staging;
    requested_model = order.model;
    job_count = 0;
    created_at = now;
    activated_at = none;
    idempotency_key = none;
    idempotency_hash = none;
    deadline_at = deadline;
    counts = empty_counts;
    replayed = false;
  }

  -- From `Batch(...)` on.
  unfoldable pub stage_and_activate : Memory → Submitted Receipt × Memory
  unfolding begin_batch fill or_abort
  stage_and_activate s = elim order.deadline [
    | refused e ↦ (rejected (not_built e), s)
    | built deadline ↦
        (let (begun, t) = begin_batch (staging_batch deadline) s in
          let filled = or_abort bounds build size batch_id (
            fill bounds build size batch_id order.jobs order.idempotency_key
              (if is_given order.idempotency_key then some order.digest else none) now t) in
          elim begun [ err e ↦ (rejected (by_queue e), t) | ok batch ↦ receipt_of filled ])
  ]

  -- What is found under the key before the batch is begun.
  unfoldable pub replay_of : Option Batch → Memory → Submitted Receipt × Memory
  unfolding stage_and_activate
  replay_of none s = stage_and_activate s
  replay_of (some existing) s =
      if existing.idempotency_hash == some order.digest
      then (accepted (receipt (record existing { replayed = true })), s)
      else (rejected (conflicts existing.batch_id), s)

  -- `submit_batch`.
  unfoldable pub submit_batch : Memory → Submitted Receipt × Memory
  unfolding class_of replay_of find_batch_idempotency
  submit_batch s =
      if not accepting
      then (rejected (not_built BuildError.shutting_down), s)
      else elim (class_of default_class order.scheduling_class) [
        | refused e ↦ (rejected (not_built e), s)
        | built class_ ↦
            if order.listed && ltb bounds.max_size (length order.jobs)
            then (rejected too_many, s)
            else if order.listed && is_given order.idempotency_key
            then elim (find_batch_idempotency order.client_id
                (elim order.idempotency_key [ none ↦ "" | some key ↦ key ]) s) [
                  | err e ↦ (rejected (by_queue e), s)
                  | ok found ↦ replay_of found s
                ]
            else stage_and_activate s
      ]
