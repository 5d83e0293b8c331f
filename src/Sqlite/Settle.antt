-- ===== src/Sqlite/Settle.antt =====
-- The end of an attempt in src/keziah/queue/sqlite.py: `complete`, `fail`, `retry`, `finish_cancel`,
-- `cancel`, `cancel_batch`, `requeue`, `release_leases`, `release_to_queue`, `close`.
use text.Mathlib.Text.{starts_with}
use keziah.Base.{
  ℕ, suc, ◌-◌, String, Bool, true, false, ◌&&◌, not, Option, none, some, List, [], ◌∷◌, ◌++◌,
  if◌then◌else◌, keep, ◌==◌, string_eq, option_eq,
}
use keziah.Base.Int.{pos}
use keziah.Types.{State, Job, Fields, end, field, num, str, is_held, state_is}
use keziah.Memory.{ok, err, Error, EventKind, code_detail}
use keziah.Memory.Settle.{Completion, Retry, is_cancellable, is_requeueable, retarget}
use keziah.Sqlite.Rows.{Codec, Row, maybe_dumps}
use keziah.Sqlite.Statements.{update_where}
use keziah.Sqlite.{
  Db, Body, tx, emit, has_id, job_row, batch_row, require_job, update_jobs, of_batch,
}
use keziah.Sqlite.Lease.{owned_where, owned_update}

module _ (C : Codec) where
  unfoldable pub completed_row : Completion → ℕ → Row C → Row C
  completed_row c now row = record row {
    state = State.succeeded;
    result_json = some (C.dumps c.result);
    model_version = c.model_version;
    queue_ms = c.queue_ms;
    execution_ms = c.execution_ms;
    total_ms = c.total_ms;
    finished_at = some now;
    updated_at = now;
    lease_owner = none;
    lease_expires_at = none;
    error_json = none;
  }

  unfoldable pub complete : (ℕ → Bool) → String → String → Completion → ℕ → Body C Bool
  unfolding completed_row owned_update tx
  complete busy job_id owner c now = tx C busy (
      owned_update C (owned_where C job_id owner State.running) (completed_row c now) job_id
        EventKind.succeeded now (λ job. end))

  unfoldable pub failed_row : Fields → Bool → ℕ → Row C → Row C
  failed_row error dead_letter now row = record row {
    state = if dead_letter then State.dead_letter else State.failed;
    error_json = some (C.dumps error);
    finished_at = some now;
    updated_at = now;
    lease_owner = none;
    lease_expires_at = none;
  }

  abbrev pub failure_kind : Bool → EventKind
  failure_kind dead_letter = if dead_letter then EventKind.dead_lettered else EventKind.failed

  -- `_fail_sql` where the owner is required.
  unfoldable pub fail_owned : String → String → Fields → Bool → ℕ → Body C Bool
  unfolding failed_row owned_update
  fail_owned job_id owner error dead_letter now =
      owned_update C (owned_where C job_id owner State.running) (failed_row error dead_letter now)
        job_id (failure_kind dead_letter) now (λ job. code_detail error)

  -- `_fail_sql` from a state, whoever owns the job.
  unfoldable pub fail_from : String → State → Fields → Bool → ℕ → Body C Bool
  unfolding failed_row owned_update
  fail_from job_id from_state error dead_letter now =
      owned_update C (λ row. has_id C job_id row && state_is row.state from_state)
        (failed_row error dead_letter now) job_id (failure_kind dead_letter) now
        (λ job. code_detail error)

  unfoldable pub fail : (ℕ → Bool) → String → String → Fields → Bool → ℕ → Body C Bool
  unfolding fail_owned tx
  fail busy job_id owner error dead_letter now =
      tx C busy (fail_owned job_id owner error dead_letter now)

  unfoldable pub retrying_row : Retry → ℕ → Row C → Row C
  retrying_row r now row = record row {
    state = State.retry_wait;
    error_json = some (C.dumps r.error);
    not_before = some r.not_before;
    resolved_model = r.resolved_model;
    fallback_json = maybe_dumps C r.fallback;
    lease_owner = none;
    lease_expires_at = none;
    updated_at = now;
  }

  unfoldable pub retry : (ℕ → Bool) → String → String → Retry → ℕ → Body C Bool
  unfolding retrying_row owned_update tx
  retry busy job_id owner r now = tx C busy (
      owned_update C (owned_where C job_id owner State.running) (retrying_row r now) job_id
        EventKind.retry_scheduled now
        (λ job.
          field "not_before" (num (pos r.not_before)) (field "model" (str r.resolved_model) end)))

  unfoldable pub cancelled_row : ℕ → Row C → Row C
  cancelled_row now row = record row {
    state = State.cancelled;
    finished_at = some now;
    updated_at = now;
    lease_owner = none;
    lease_expires_at = none;
    cancel_requested = true;
  }

  -- `_mark_cancelled_sql`.
  unfoldable pub mark_cancelled : String → Option String → ℕ → Db C → Db C
  unfolding cancelled_row update_where emit
  mark_cancelled job_id batch_id now db =
      emit C EventKind.cancelled now (some job_id) batch_id end
        (update_jobs C (has_id C job_id) (cancelled_row now) db)

  unfoldable pub finish_cancel_run : String → String → ℕ → Body C Bool
  unfolding job_row mark_cancelled
  finish_cancel_run job_id owner now db = elim (job_row C job_id db) [
    | none ↦ (ok false, db)
    | some row ↦
        if row.lease_owner == some owner && is_held row.state
        then (ok true, mark_cancelled job_id row.batch_id now db)
        else (ok false, db)
  ]

  unfoldable pub finish_cancel : (ℕ → Bool) → String → String → ℕ → Body C Bool
  unfolding finish_cancel_run tx
  finish_cancel busy job_id owner now = tx C busy (finish_cancel_run job_id owner now)

  unfoldable pub asked_row : ℕ → Row C → Row C
  asked_row now row = record row { cancel_requested = true; updated_at = now }

  -- The branches of `cancel` on a row; the loop of `cancel_batch` has the same ones.
  unfoldable pub cancel_row : ℕ → String → Row C → Db C → Bool × Db C
  unfolding mark_cancelled asked_row update_where
  cancel_row now job_id row db =
      if is_cancellable row.state
      then (true, mark_cancelled job_id row.batch_id now db)
      else if state_is row.state State.running && not row.cancel_requested
      then (true, update_jobs C (has_id C job_id) (asked_row now) db)
      else (false, db)

  unfoldable pub cancel_run : String → ℕ → Body C Job
  unfolding job_row cancel_row require_job
  cancel_run job_id now db = elim (job_row C job_id db) [
    | none ↦ (err Error.not_found, db)
    | some row ↦ let t = (cancel_row now job_id row db).1 in (require_job C job_id t, t)
  ]

  unfoldable pub cancel : (ℕ → Bool) → String → ℕ → Body C Job
  unfolding cancel_run tx
  cancel busy job_id now = tx C busy (cancel_run job_id now)

  -- The loop of `cancel_batch` over the rows that were selected, with the number of changes.
  unfoldable pub cancel_each : ℕ → List (Row C) → ℕ → Db C → ℕ × Db C
  unfolding cancel_row
  cancel_each now [] changed db = (changed, db)
  cancel_each now (row ∷ rows) changed db =
      let next = cancel_row now row.job_id row db in
      cancel_each now rows (if next.0 then suc changed else changed) next.1

  unfoldable pub cancel_batch_run : String → ℕ → Body C ℕ
  unfolding batch_row cancel_each
  cancel_batch_run batch_id now db = elim (batch_row C batch_id db) [
    | none ↦ (err Error.not_found, db)
    | some batch ↦
        let r = cancel_each now (keep (of_batch C batch_id) db.jobs) 0 db in (ok r.0, r.1)
  ]

  unfoldable pub cancel_batch : (ℕ → Bool) → String → ℕ → Body C ℕ
  unfolding cancel_batch_run tx
  cancel_batch busy batch_id now = tx C busy (cancel_batch_run batch_id now)

  unfoldable pub requeued_row : ℕ → Row C → Row C
  requeued_row now row = record row {
    state = State.queued;
    attempt_count = 0;
    error_json = none;
    result_json = none;
    started_at = none;
    finished_at = none;
    lease_owner = none;
    lease_expires_at = none;
    not_before = none;
    cancel_requested = false;
    queue_ms = none;
    execution_ms = none;
    total_ms = none;
    updated_at = now;
  }

  unfoldable pub requeue_run : String → ℕ → Body C Job
  unfolding job_row requeued_row update_where require_job emit
  requeue_run job_id now db = elim (job_row C job_id db) [
    | none ↦ (err Error.not_found, db)
    | some row ↦
        if not (is_requeueable row.state)
        then (err Error.wrong_job_status, db)
        else (let t = update_jobs C (has_id C job_id) (requeued_row now) db in
            elim (require_job C job_id t) [
              | err e ↦ (err e, t)
              | ok job ↦ (ok job, emit C EventKind.requeued now (some job_id) job.batch_id end t)
            ])
  ]

  unfoldable pub requeue : (ℕ → Bool) → String → ℕ → Body C Job
  unfolding requeue_run tx
  requeue busy job_id now = tx C busy (requeue_run job_id now)

  unfoldable pub released_row : ℕ → String → ℕ → Row C → Row C
  released_row attempt model now row = record row {
    state = State.queued;
    attempt_count = attempt;
    resolved_model = model;
    lease_owner = none;
    lease_expires_at = none;
    updated_at = now;
  }

  -- `_release_sql`.
  unfoldable pub release_sql :
      String → String → ℕ → Option String → Bool → EventKind → Db C → Bool × Db C
  unfolding job_row released_row update_where emit
  release_sql job_id owner now resolved_model decrement kind db = elim (job_row C job_id db) [
    | none ↦ (false, db)
    | some row ↦
        if not (row.lease_owner == some owner && is_held row.state)
        then (false, db)
        else (let attempt = if decrement then row.attempt_count - 1 else row.attempt_count in
            (
              true,
              emit C kind now (some job_id) row.batch_id (field "attempt" (num (pos attempt)) end) (
                  update_jobs C (has_id C job_id)
                    (released_row attempt (retarget resolved_model row.resolved_model) now) db),
            ))
  ]

  unfoldable pub release_to_queue :
      (ℕ → Bool) → String → String → ℕ → Option String → Bool → EventKind → Body C Bool
  unfolding release_sql tx
  release_to_queue busy job_id owner now resolved_model decrement kind =
      tx C busy (λ db.
        let r = release_sql job_id owner now resolved_model decrement kind db in (ok r.0, r.1))

  -- `row["lease_owner"] or ""`.
  abbrev pub owner_text : Option String → String
  owner_text none = ""
  owner_text (some owner) = owner

  -- The loop of `release_leases`, with the ids released.
  unfoldable pub release_each : String → ℕ → List (Row C) → List String → Db C → List String × Db C
  unfolding release_sql
  release_each prefix now [] released db = (released, db)
  release_each prefix now (row ∷ rows) released db =
      elim (starts_with (owner_text row.lease_owner) prefix) [
        | false ↦ release_each prefix now rows released db
        | true ↦
            release_each prefix now rows (released ++ row.job_id ∷ [])
              (release_sql row.job_id (owner_text row.lease_owner) now none true EventKind.released
                db).1
      ]

  unfoldable pub release_leases : (ℕ → Bool) → String → ℕ → Body C (List String)
  unfolding release_each tx
  release_leases busy prefix now = tx C busy (λ db.
      let r = release_each prefix now (keep (λ row. is_held row.state) db.jobs) [] db in
      (ok r.0, r.1))

  unfoldable pub close : Db C → Db C
  close db = record db { closed = true }
