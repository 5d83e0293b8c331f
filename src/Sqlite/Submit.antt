-- ===== src/Sqlite/Submit.antt =====
-- Submission and batches in src/keziah/queue/sqlite.py. A key that is an empty text is stored as such
-- and tested as absent, as in the source.
use keziah.Base.{
  ℕ, ◌+◌, String, Bool, true, false, ◌&&◌, ◌||◌, not, Option, none, some, [], ◌∷◌, ◌++◌, ltb,
  if◌then◌else◌, count, ◌==◌, string_eq, option_eq,
}
use keziah.Types.{Job, end, is_incomplete}
use keziah.Memory.{Result, ok, err, Error, EventKind, is_some}
use keziah.Sqlite.Rows.{Codec, Row, to_job, row_of}
use keziah.Sqlite.Statements.{first_where, any_row}
use keziah.Sqlite.{Db, Body, tx, emit, has_id, require_job}

-- `if key:`.
abbrev pub key_given : Option String → Bool
key_given none = false
key_given (some key) = not (key == "")

module _ (C : Codec) where
  -- `WHERE client_id=? AND idempotency_key=?`; no row has the key NULL then.
  abbrev pub job_keyed : String → Option String → Row C → Bool
  job_keyed client key row = row.client_id == client && (is_some key && row.idempotency_key == key)

  -- `_existing_job`.
  unfoldable pub existing_job : Job → Db C → Result (Option Job)
  unfolding first_where
  existing_job job db =
      if not (key_given job.idempotency_key)
      then ok none
      else elim (first_where (job_keyed job.client_id job.idempotency_key) db.jobs) [
        | none ↦ ok none
        | some row ↦
            if not (row.idempotency_hash == job.idempotency_hash)
            then err (Error.conflict row.job_id)
            else ok (some (record (to_job C row) { replayed = true }))
      ]

  -- `_reserve_capacity`.
  unfoldable pub reserve_capacity : String → ℕ → Db C → Result (Unit {0})
  reserve_capacity client additional db =
      if ltb db.limits.max_queued_jobs (count (λ row. is_incomplete row.state) db.jobs + additional)
      then err Error.queue_full
      else if ltb db.limits.max_active_jobs_per_client
          (count (λ row. row.client_id == client && is_incomplete row.state) db.jobs + additional)
      then err Error.client_full
      else ok tt

  -- The primary key of `jobs` and its unique index on (client_id, idempotency_key).
  abbrev pub collides : Job → Db C → Bool
  collides job db =
      any_row (has_id C job.job_id) db.jobs
      || any_row (job_keyed job.client_id job.idempotency_key) db.jobs

  -- `_insert_job`.
  unfoldable pub insert_job : Job → Body C (Unit {0})
  unfolding first_where
  insert_job job db =
      if collides job db
      then (err Error.integrity_error, db)
      else (ok tt, record db { jobs = db.jobs ++ row_of C job ∷ [] })

  -- What `enqueue` does with a new job once there is room for it.
  unfoldable pub store_job : Job → Body C Job
  unfolding insert_job emit require_job
  store_job job db =
      let (inserted, t) = insert_job job db in
      elim inserted [
        | err e ↦ (err e, t)
        | ok _ ↦
            (let u =
                emit C EventKind.submitted job.created_at (some job.job_id) job.batch_id end t in
              (require_job C job.job_id u, u))
      ]

  unfoldable pub enqueue_run : Job → Body C Job
  unfolding existing_job reserve_capacity store_job
  enqueue_run job db = elim (existing_job job db) [
    | err e ↦ (err e, db)
    | ok (some replay) ↦ (ok replay, db)
    | ok none ↦ elim (reserve_capacity job.client_id 1 db) [
      | err e ↦ (err e, db)
      | ok _ ↦ store_job job db
    ]
  ]

  unfoldable pub enqueue : (ℕ → Bool) → Job → Body C Job
  unfolding enqueue_run tx
  enqueue busy job = tx C busy (enqueue_run job)
