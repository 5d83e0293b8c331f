-- ===== src/Sqlite/Maintain.antt =====
-- `maintenance`, `_expire_sql` and `cleanup` of src/keziah/queue/sqlite.py. Each of the four scans of
-- `maintenance` selects its rows before it changes any.
use keziah.Base.{
  ℕ, suc, String, Bool, true, false, ◌&&◌, ◌||◌, not, Option, none, some, List, [], ◌∷◌, ◌++◌, leb,
  ltb, if◌then◌else◌, keep, count, string_eq,
}
use keziah.Base.Int.{pos}
use keziah.Types.{State, end, field, num, is_held, is_incomplete, state_is}
use keziah.Memory.{ok, err, EventKind, is_due}
use keziah.Memory.Maintain.{Report, empty_report, lease_error, deadline_error, is_ripe, is_idle}
use keziah.Sqlite.Rows.{Codec, Row}
use keziah.Sqlite.Statements.{update_where}
use keziah.Sqlite.{
  Db, Body, EventRow, tx, emit, has_id, job_row, require_job, update_jobs, delete_jobs,
}
use keziah.Sqlite.Lease.{ids_of}
use keziah.Sqlite.Settle.{mark_cancelled, fail_from}

module _ (C : Codec) where
  unfoldable pub requeued_lease : ℕ → Row C → Row C
  requeued_lease now row = record row {
    state = State.queued;
    lease_owner = none;
    lease_expires_at = none;
    updated_at = now;
  }

  -- `_expire_sql` on the row that is there.
  unfoldable pub expire_row : String → ℕ → Row C → Report → Db C → Report × Db C
  unfolding emit mark_cancelled fail_from update_where requeued_lease
  expire_row job_id now row report db =
      let t =
        emit C EventKind.lease_expired now (some job_id) row.batch_id
          (field "attempt" (num (pos row.attempt_count)) end) db in
      if row.cancel_requested
      then (
        record report {
          expired_cancelled = suc report.expired_cancelled;
          finished = report.finished ++ job_id ∷ [];
        },
        mark_cancelled C job_id row.batch_id now t,
      )
      else if leb row.max_attempts row.attempt_count
      then (
        record report {
          dead_lettered = suc report.dead_lettered;
          finished = report.finished ++ job_id ∷ [];
        },
        (fail_from C job_id row.state lease_error true now t).1,
      )
      else (
        record report {
          recovered = suc report.recovered;
          requeued = report.requeued ++ job_id ∷ [];
        },
        update_jobs C (has_id C job_id) (requeued_lease now) t,
      )

  -- `_expire_sql`.
  unfoldable pub expire_sql : ℕ → String → Report × Db C → Report × Db C
  unfolding job_row expire_row
  expire_sql now job_id (report, db) = elim (job_row C job_id db) [
    | none ↦ (report, db)
    | some row ↦ expire_row job_id now row report db
  ]

  unfoldable pub due_row : ℕ → Row C → Row C
  due_row now row = record row { state = State.queued; updated_at = now }

  -- One retry that is due.
  unfoldable pub promote_sql : ℕ → String → Report × Db C → Report × Db C
  unfolding update_where due_row emit require_job
  promote_sql now job_id (report, db) =
      let t =
        update_jobs C (λ row. has_id C job_id row && state_is row.state State.retry_wait)
          (due_row now) db in
      (
        record report { promoted = suc report.promoted; requeued = report.requeued ++ job_id ∷ [] },
        emit C EventKind.promoted now (some job_id)
            (elim (require_job C job_id t) [ err e ↦ none | ok job ↦ job.batch_id ]) end t,
      )

  -- One queued job whose deadline has passed.
  unfoldable pub late_sql : ℕ → String → Report × Db C → Report × Db C
  unfolding fail_from
  late_sql now job_id (report, db) = (
    record report { deadlines = suc report.deadlines; finished = report.finished ++ job_id ∷ [] },
    (fail_from C job_id State.queued deadline_error false now db).1,
  )

  -- One waiting job whose cancellation was asked for.
  unfoldable pub flagged_sql : ℕ → Row C → Report × Db C → Report × Db C
  unfolding mark_cancelled
  flagged_sql now row (report, db) = (
    record report {
      expired_cancelled = suc report.expired_cancelled;
      finished = report.finished ++ row.job_id ∷ [];
    },
    mark_cancelled C row.job_id row.batch_id now db,
  )

  -- A loop over what was selected.
  unfoldable pub scan {ℓ} :
      {A : Type ℓ} → (A → Report × Db C → Report × Db C) → List A → Report × Db C → Report × Db C
  scan turn [] r = r
  scan turn (a ∷ rest) r = scan turn rest (turn a r)

  abbrev pub expired_rows : ℕ → Db C → List (Row C)
  expired_rows now db = keep (λ row. is_held row.state && is_due row.lease_expires_at now) db.jobs

  abbrev pub due_rows : ℕ → Db C → List (Row C)
  due_rows now db =
      keep (λ row. state_is row.state State.retry_wait && is_ripe row.not_before now) db.jobs

  abbrev pub late_rows : ℕ → Db C → List (Row C)
  late_rows now db =
      keep (λ row. state_is row.state State.queued && is_due row.deadline_at now) db.jobs

  abbrev pub flagged_rows : Db C → List (Row C)
  flagged_rows db = keep (λ row. row.cancel_requested && is_idle row.state) db.jobs

  unfoldable pub maintenance_run : ℕ → Db C → Report × Db C
  unfolding scan expire_sql promote_sql late_sql flagged_sql
  maintenance_run now db =
      let a = scan (expire_sql now) (ids_of C (expired_rows now db)) (empty_report, db) in
      let b = scan (promote_sql now) (ids_of C (due_rows now a.1)) a in
      let c = scan (late_sql now) (ids_of C (late_rows now b.1)) b in
      scan (flagged_sql now) (flagged_rows c.1) c

  unfoldable pub maintenance : (ℕ → Bool) → ℕ → Body C Report
  unfolding maintenance_run tx
  maintenance busy now = tx C busy (λ db. let r = maintenance_run now db in (ok r.0, r.1))

  -- `WHERE finished_at IS NOT NULL AND state NOT IN (...) AND (...)`.
  abbrev pub before_opt : Option ℕ → ℕ → Bool
  before_opt none limit = false
  before_opt (some t) limit = ltb t limit

  abbrev pub is_failure : State → Bool
  is_failure State.failed = true
  is_failure State.dead_letter = true
  is_failure State.cancelled = true
  is_failure _ = false

  unfoldable pub stale_row : ℕ → ℕ → Row C → Bool
  stale_row success_before failure_before row =
      not (is_incomplete row.state)
      && (state_is row.state State.succeeded && before_opt row.finished_at success_before
          || is_failure row.state && before_opt row.finished_at failure_before)

  unfoldable pub cleanup_run : ℕ → ℕ → ℕ → Body C (ℕ × ℕ)
  unfolding stale_row
  cleanup_run success_before failure_before event_before db = (
    ok (
      count (stale_row success_before failure_before) db.jobs,
      count (λ (e : EventRow C). ltb e.at event_before) db.events,
    ),
    record (delete_jobs C (stale_row success_before failure_before) db) {
      events = keep (λ (e : EventRow C). not (ltb e.at event_before)) db.events;
    },
  )

  unfoldable pub cleanup : (ℕ → Bool) → ℕ → ℕ → ℕ → Body C (ℕ × ℕ)
  unfolding cleanup_run tx
  cleanup busy success_before failure_before event_before =
      tx C busy (cleanup_run success_before failure_before event_before)
