-- ===== src/Sqlite/Ids/Maintain.antt =====
-- `maintenance` of src/keziah/queue/sqlite.py keeps the ids distinct.
use keziah.Base.{
  refl, ℕ, String, Bool, true, false, ◌&&◌, some, List, [], ◌∷◌, leb, split_if, split_option,
}
use keziah.Base.Int.{pos}
use keziah.Types.{State, Fields, state_is, field, num, end}
use keziah.Memory.{EventKind}
use keziah.Memory.Maintain.{Report, empty_report, lease_error, deadline_error}
use keziah.Sqlite.Rows.{Codec, Row}
use keziah.Sqlite.{Db, emit, has_id, job_row}
use keziah.Sqlite.Lease.{ids_of}
use keziah.Sqlite.Settle.{fail_from, failed_row, failure_kind}
use keziah.Memory.{code_detail}
use keziah.Sqlite.Maintain.{
  requeued_lease, expire_row, expire_sql, due_row, promote_sql, late_sql, flagged_sql, scan,
  expired_rows, due_rows, late_rows, flagged_rows, maintenance_run,
}
use keziah.Sqlite.Ids.{Sound, update_jobs-Sound}
use keziah.Sqlite.Ids.Settle.{SoundResult, owned_update-Sound, mark_cancelled-Sound}

module _ (C : Codec) where
  fail_from-Sound :
      (key : String) (from : State) (error : Fields) (dead : Bool) (now : ℕ) (db : Db C)
      → Sound C db
      → SoundResult C (fail_from C key from error dead now db)
  unfolding fail_from failed_row
  fail_from-Sound key from error dead now db d =
      owned_update-Sound C (λ row. has_id C key row && state_is row.state from)
        (failed_row C error dead now) key (failure_kind C dead) now (λ job. code_detail error) db
        (λ row. refl) d

  expire_sql-Sound :
      (now : ℕ) (key : String) (r : Report × Db C)
      → Sound C r.1
      → Sound C (expire_sql C now key r).1
  unfolding expire_sql expire_row emit requeued_lease
  expire_sql-Sound now key (report, db) d =
      split_option (SoundResult C) (job_row C key db) (λ _. d)
        (λ row _.
          split_if (SoundResult C) row.cancel_requested
            (λ _. mark_cancelled-Sound C key row.batch_id now (told row) d)
            (λ _.
              split_if (SoundResult C) (leb row.max_attempts row.attempt_count)
                (λ _. fail_from-Sound key row.state lease_error true now (told row) d)
                (λ _.
                  update_jobs-Sound C (has_id C key) (requeued_lease C now) (told row) (λ r. refl)
                    d)))
    where
      told : Row C → Db C
      told row =
          emit C EventKind.lease_expired now (some key) row.batch_id
            (field "attempt" (num (pos row.attempt_count)) end) db

  promote_sql-Sound :
      (now : ℕ) (key : String) (r : Report × Db C)
      → Sound C r.1
      → Sound C (promote_sql C now key r).1
  unfolding promote_sql emit due_row
  promote_sql-Sound now key (report, db) d =
      update_jobs-Sound C (λ row. has_id C key row && state_is row.state State.retry_wait)
        (due_row C now) db (λ row. refl) d

  late_sql-Sound :
      (now : ℕ) (key : String) (r : Report × Db C) → Sound C r.1 → Sound C (late_sql C now key r).1
  unfolding late_sql
  late_sql-Sound now key (report, db) d =
      fail_from-Sound key State.queued deadline_error false now db d

  flagged_sql-Sound :
      (now : ℕ) (row : Row C) (r : Report × Db C)
      → Sound C r.1
      → Sound C (flagged_sql C now row r).1
  unfolding flagged_sql
  flagged_sql-Sound now row (report, db) d = mark_cancelled-Sound C row.job_id row.batch_id now db d

  scan-Sound :
      {A : Type 0} (turn : A → Report × Db C → Report × Db C) (rows : List A) (r : Report × Db C)
      → ((a : A) (r : Report × Db C) → Sound C r.1 → Sound C (turn a r).1)
      → Sound C r.1
      → Sound C (scan C turn rows r).1
  unfolding scan
  scan-Sound turn [] r keeps d = d
  scan-Sound turn (a ∷ rows) r keeps d = scan-Sound turn rows (turn a r) keeps (keeps a r d)

  pub maintenance_run-Sound :
      (now : ℕ) (db : Db C) → Sound C db → Sound C (maintenance_run C now db).1
  unfolding maintenance_run
  maintenance_run-Sound now db d =
      scan-Sound (flagged_sql C now) (flagged_rows C c.1) c (flagged_sql-Sound now) (
        scan-Sound (late_sql C now) (ids_of C (late_rows C now b.1)) b (late_sql-Sound now) (
          scan-Sound (promote_sql C now) (ids_of C (due_rows C now a.1)) a (promote_sql-Sound now) (
            scan-Sound (expire_sql C now) (ids_of C (expired_rows C now db)) (empty_report, db)
              (expire_sql-Sound now) d)))
    where
      a : Report × Db C
      a = scan C (expire_sql C now) (ids_of C (expired_rows C now db)) (empty_report, db)

      b : Report × Db C
      b = scan C (promote_sql C now) (ids_of C (due_rows C now a.1)) a

      c : Report × Db C
      c = scan C (late_sql C now) (ids_of C (late_rows C now b.1)) b
