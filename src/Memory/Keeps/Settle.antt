-- ===== src/Memory/Keeps/Settle.antt =====
-- The end of an attempt keeps the invariant.
use keziah.Base.{
  ℕ, ◌≡◌, refl, inl, inr, String, Bool, true, false, ◌&&◌, not, Option, none, some, List, [], arith,
  Bool-cases, Option-cases, lookup, ◌==◌, string_eq, option_eq,
}
use keziah.Types.{State, Job, Fields, is_held, state_is}
use keziah.Memory.{
  Memory, EventKind, owned_running, cancelled_job, mark_cancelled, failed_job, finish_failure,
}
use text.Mathlib.Text.{starts_with}
use keziah.Ready.{remove, add}
use keziah.Memory.Lease.{holds_lease}
use keziah.Memory.Settle.{
  Completion, completed_job, complete, fail, Retry, retrying_job, retry, finish_cancel, asked_job,
  is_cancellable, cancel_job, cancel, cancel_turn, cancel_batch, requeued_job, is_requeueable,
  requeue, released_job, release_unlocked, release_to_queue, release_turn, release_owned,
  release_leases,
}
use keziah.Memory.Keeps.Shapes.{one_job}
use keziah.Memory.Invariant.{
  Inv, is_gated, CellOk, lane_of_job, cell_at, put-CellsOk, drop-CellsOk, list-CellsOk,
  for_each_inv,
}

module _ {now : ℕ} (s : Memory) (inv : Inv now s) (key : String) (job : Job)
    (there : lookup key s.jobs ≡ some job) where
  completed-Cell :
      (c : Completion) (t : ℕ)
      → state_is job.state State.running ≡ true
      → CellOk now s.batches key (some (completed_job c t job)) (lookup key s.index.live)
  unfolding completed_job
  completed-Cell c t e = let (j, l) = cell_at inv key job there in ground arith

  -- A job that is cancelled or fails leaves the index.
  cancelled-Cell : (t : ℕ) → CellOk now s.batches key (some (cancelled_job t job)) none
  unfolding cancelled_job
  cancelled-Cell t = let (j, l) = cell_at inv key job there in ground arith

  pub mark_cancelled-Inv : (t : ℕ) → Inv now (mark_cancelled t key job s)
  unfolding mark_cancelled remove
  mark_cancelled-Inv t =
      let (j, l) = cell_at inv key job there in
      drop-CellsOk inv key (cancelled_job t job) job.job_id j.named (cancelled-Cell t)

  failed-Cell :
      (error : Fields) (dead : Bool) (t : ℕ)
      → is_gated job.state ≡ false
      → CellOk now s.batches key (some (failed_job error dead t job)) none
  unfolding failed_job
  failed-Cell error true t e = let (j, l) = cell_at inv key job there in ground arith
  failed-Cell error false t e = let (j, l) = cell_at inv key job there in ground arith

  pub finish_failure-Inv :
      (error : Fields) (dead : Bool) (t : ℕ) (force : Bool)
      → is_gated job.state ≡ false
      → Inv now (finish_failure error dead t force key job s)
  unfolding finish_failure remove
  finish_failure-Inv error dead t force e =
      let (j, l) = cell_at inv key job there in
      elim (Bool-cases (not force && not (state_is job.state State.running))) [
        | inl h ↦ rw h inv
        | inr h ↦ rw h (
            drop-CellsOk inv key (failed_job error dead t job) job.job_id j.named
              (failed-Cell error dead t e))
      ]

  retrying-Cell :
      (r : Retry) (t : ℕ)
      → state_is job.state State.running ≡ true
      → CellOk now s.batches key (some (retrying_job r t job)) none
  unfolding retrying_job
  retrying-Cell r t e = let (j, l) = cell_at inv key job there in ground arith

  asked-Cell :
      (t : ℕ)
      → state_is job.state State.running ≡ true
      → CellOk now s.batches key (some (asked_job t job)) (lookup key s.index.live)
  unfolding asked_job
  asked-Cell t e = let (j, l) = cell_at inv key job there in ground arith

  requeued-Cell :
      (t : ℕ)
      → is_requeueable job.state ≡ true
      → CellOk now s.batches key (some (requeued_job t job)) (some (lane_of_job job))
  unfolding requeued_job
  requeued-Cell t e = let (j, l) = cell_at inv key job there in ground arith

  released-Cell :
      (model : Option String) (decrement : Bool) (t : ℕ)
      → is_held job.state ≡ true
      → let fresh = released_job model decrement t job in
        CellOk now s.batches key (some fresh) (some (lane_of_job fresh))
  unfolding released_job
  released-Cell model decrement t e = let (j, l) = cell_at inv key job there in ground arith

module _ {now : ℕ} (s : Memory) (inv : Inv now s) (key : String) where
  pub complete-Inv :
      (owner : String) (c : Completion) (t : ℕ) → Inv now (complete key owner c t s).1
  unfolding complete
  complete-Inv owner c t =
      one_job (Inv now) (lookup key s.jobs) (λ job. owned_running job owner) _ true false s inv
        λ job e h. put-CellsOk inv key _ (completed-Cell s inv key job e c t (ground arith))

  pub fail-Inv :
      (owner : String) (error : Fields) (dead : Bool) (t : ℕ)
      → Inv now (fail key owner error dead t s).1
  unfolding fail
  fail-Inv owner error dead t =
      one_job (Inv now) (lookup key s.jobs) (λ job. owned_running job owner) _ true false s inv
        λ job e h. finish_failure-Inv s inv key job e error dead t false (ground arith)

  pub retry-Inv : (owner : String) (r : Retry) (t : ℕ) → Inv now (retry key owner r t s).1
  unfolding retry remove
  retry-Inv owner r t =
      one_job (Inv now) (lookup key s.jobs) (λ job. owned_running job owner) _ true false s inv
        λ job e h.
          drop-CellsOk inv key _ key refl (retrying-Cell s inv key job e r t (ground arith))

  pub finish_cancel-Inv : (owner : String) (t : ℕ) → Inv now (finish_cancel key owner t s).1
  unfolding finish_cancel
  finish_cancel-Inv owner t =
      one_job (Inv now) (lookup key s.jobs) (holds_lease owner) _ true false s inv
        λ job e h. mark_cancelled-Inv s inv key job e t

  cancel_job-Inv :
      (t : ℕ) (job : Job) → lookup key s.jobs ≡ some job → Inv now (cancel_job t key job s)
  unfolding cancel_job
  cancel_job-Inv t job e = elim (Bool-cases (is_cancellable job.state)) [
    | inl h ↦ rw h (mark_cancelled-Inv s inv key job e t)
    | inr h ↦ rw h (elim (Bool-cases (state_is job.state State.running)) [
      | inl r ↦ rw r (put-CellsOk inv key _ (asked-Cell s inv key job e t r))
      | inr r ↦ rw r inv
    ])
  ]

  pub cancel-Inv : (t : ℕ) → Inv now (cancel key t s).1
  unfolding cancel
  cancel-Inv t = elim (Option-cases (lookup key s.jobs)) [
    | inl e ↦ rw (e, cancel) inv
    | inr (job, e) ↦ rw (e, cancel) (cancel_job-Inv t job e)
  ]

  pub requeue-Inv : (t : ℕ) → Inv now (requeue key t s).1
  unfolding requeue add requeued_job remove
  requeue-Inv t = elim (Option-cases (lookup key s.jobs)) [
    | inl e ↦ rw (e, requeue) inv
    | inr (job, e) ↦
        rw (e, requeue)
          (elim (Bool-cases (is_requeueable job.state)) [
            | inl h ↦
                let (j, l) = cell_at inv key job e in
                rw h (
                  list-CellsOk inv key _ job.job_id (lane_of_job job) j.named
                    (requeued-Cell s inv key job e t h))
            | inr h ↦ rw h inv
          ])
  ]

  pub release_unlocked-Inv :
      (job : Job) (owner : String) (t : ℕ) (model : Option String) (decrement : Bool)
      (kind : EventKind)
      → lookup key s.jobs ≡ some job
      → Inv now (release_unlocked key job owner t model decrement kind s).1
  unfolding release_unlocked add released_job remove
  release_unlocked-Inv job owner t model decrement kind e =
      elim (Bool-cases (holds_lease owner job)) [
        | inl h ↦
            let (j, l) = cell_at inv key job e in
            rw h (
              list-CellsOk inv key _ job.job_id _ j.named
                (released-Cell s inv key job e model decrement t (ground arith)))
        | inr h ↦ rw h inv
      ]

  pub release_to_queue-Inv :
      (owner : String) (t : ℕ) (model : Option String) (decrement : Bool) (kind : EventKind)
      → Inv now (release_to_queue key owner t model decrement kind s).1
  unfolding release_to_queue
  release_to_queue-Inv owner t model decrement kind = elim (Option-cases (lookup key s.jobs)) [
    | inl e ↦ rw (e, release_to_queue) inv
    | inr (job, e) ↦
        rw (e, release_to_queue) (release_unlocked-Inv job owner t model decrement kind e)
  ]

module _ {now : ℕ} (s : Memory) (inv : Inv now s) where
  cancel_turn-Inv :
      (t : ℕ) (key : String) (job : Job) (r : Memory × ℕ)
      → lookup key r.0.jobs ≡ some job
      → Inv now r.0
      → Inv now (cancel_turn t key job r).0
  unfolding cancel_turn
  cancel_turn-Inv t key job r e v = elim (Bool-cases (is_cancellable job.state)) [
    | inl h ↦ rw h (mark_cancelled-Inv r.0 v key job e t)
    | inr h ↦
        rw h (elim (Bool-cases (state_is job.state State.running && not job.cancel_requested)) [
          | inl q ↦ rw q (put-CellsOk v key _ (asked-Cell r.0 v key job e t (ground arith)))
          | inr q ↦ rw q v
        ])
  ]

  pub cancel_batch-Inv : (batch : String) (t : ℕ) → Inv now (cancel_batch batch t s).1
  unfolding cancel_batch
  cancel_batch-Inv batch t = elim (Option-cases (lookup batch s.batches)) [
    | inl e ↦ rw (e, cancel_batch) inv
    | inr (b, e) ↦
        rw (e, cancel_batch)
          (for_each_inv (Inv now) (cancel_turn t) (cancel_turn-Inv t) _ (s, 0) inv)
  ]

  release_owned-Inv :
      (prefix : String) (t : ℕ) (key : String) (job : Job) (owner : Option String)
      (r : Memory × List String)
      → lookup key r.0.jobs ≡ some job
      → Inv now r.0
      → Inv now (release_owned prefix t key job owner r).0
  release_owned-Inv prefix t key job none r e v = v
  release_owned-Inv prefix t key job (some owner) r e v =
      elim (Bool-cases (not (owner == "") && starts_with owner prefix)) [
        | inl h ↦ rw h (release_unlocked-Inv r.0 v key job owner t none true EventKind.released e)
        | inr h ↦ rw h v
      ]

  release_turn-Inv :
      (prefix : String) (t : ℕ) (key : String) (job : Job) (r : Memory × List String)
      → lookup key r.0.jobs ≡ some job
      → Inv now r.0
      → Inv now (release_turn prefix t key job r).0
  unfolding release_turn
  release_turn-Inv prefix t key job r e v = elim (Bool-cases (is_held job.state)) [
    | inl h ↦ rw h (release_owned-Inv prefix t key job job.lease_owner r e v)
    | inr h ↦ rw h v
  ]

  pub release_leases-Inv : (prefix : String) (t : ℕ) → Inv now (release_leases prefix t s).1
  unfolding release_leases
  release_leases-Inv prefix t =
      for_each_inv (Inv now) (release_turn prefix t) (release_turn-Inv prefix t) _ (s, []) inv
