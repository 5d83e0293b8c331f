-- ===== src/Sqlite/Batches.antt =====
-- Batches in src/keziah/queue/sqlite.py: a batch is begun, staged in chunks, and then activated or
-- aborted; a batch that was being staged when the process stopped is aborted when the file is opened.
use keziah.Base.{
  ℕ, ◌+◌, String, Bool, true, false, ◌&&◌, ◌||◌, not, Option, none, some, List, [], ◌∷◌, ◌++◌, ltb,
  if◌then◌else◌, keep, length, count, ◌==◌, string_eq, option_eq,
}
use keziah.Base.Int.{pos}
use keziah.Types.{
  State, Job, Batch, BatchStatus, end, field, num, str, bool, is_staging, is_active, state_is,
}
use keziah.Memory.{Result, ok, err, Error, EventKind, is_some}
use keziah.Memory.Batches.{status_text}
use keziah.Sqlite.Rows.{Codec, Row, BatchRow}
use keziah.Sqlite.Statements.{update_where, first_where, any_row}
use keziah.Sqlite.{
  Db, Body, tx, auto, emit, batch_has_id, batch_row, update_jobs, delete_jobs, update_batches,
  of_batch, group_states,
}
use keziah.Sqlite.Submit.{key_given, existing_job, reserve_capacity, insert_job}

module _ (C : Codec) where
  -- `_batch_view` of a row.
  unfoldable pub view_of : BatchRow → Db C → Batch
  unfolding group_states
  view_of row db = record {
    batch_id = row.batch_id;
    client_id = row.client_id;
    status = row.status;
    requested_model = row.requested_model;
    job_count = row.job_count;
    created_at = row.created_at;
    activated_at = row.activated_at;
    idempotency_key = row.idempotency_key;
    idempotency_hash = row.idempotency_hash;
    deadline_at = row.deadline_at;
    counts = group_states C (keep (of_batch C row.batch_id) db.jobs);
    replayed = false;
  }

  -- `_batch_view`.
  unfoldable pub batch_view : String → Db C → Result Batch
  unfolding batch_row view_of
  batch_view batch_id db = elim (batch_row C batch_id db) [
    | none ↦ err Error.not_found
    | some row ↦ ok (view_of row db)
  ]

  abbrev pub mark_replayed : Result Batch → Result Batch
  mark_replayed (err e) = err e
  mark_replayed (ok b) = ok (record b { replayed = true })

  -- `WHERE client_id=? AND idempotency_key=?`.
  abbrev pub batch_keyed : String → Option String → BatchRow → Bool
  batch_keyed client key row =
      row.client_id == client && (is_some key && row.idempotency_key == key)

  unfoldable pub find_batch_idempotency : String → String → Db C → Result (Result (Option Batch))
  unfolding first_where batch_view auto
  find_batch_idempotency client key = auto C (λ db.
      elim (first_where (batch_keyed client (some key)) db.batches) [
        | none ↦ ok none
        | some row ↦ elim (batch_view row.batch_id db) [ err e ↦ err e | ok b ↦ ok (some b) ]
      ])

  -- `_existing_batch`.
  unfoldable pub existing_batch : Batch → Db C → Result (Option Batch)
  unfolding first_where batch_view
  existing_batch batch db =
      if not (key_given batch.idempotency_key)
      then ok none
      else elim (first_where (batch_keyed batch.client_id batch.idempotency_key) db.batches) [
        | none ↦ ok none
        | some row ↦
            if not (row.idempotency_hash == batch.idempotency_hash)
            then err (Error.conflict row.batch_id)
            else elim (mark_replayed (batch_view row.batch_id db)) [
              | err e ↦ err e
              | ok b ↦ ok (some b)
            ]
      ]

  -- The values that `begin_batch` inserts.
  abbrev pub new_row : Batch → BatchRow
  new_row batch = record {
    batch_id = batch.batch_id;
    client_id = batch.client_id;
    status = batch.status;
    requested_model = batch.requested_model;
    job_count = 0;
    created_at = batch.created_at;
    activated_at = none;
    idempotency_key = none;
    idempotency_hash = none;
    deadline_at = batch.deadline_at;
  }

  abbrev pub open_batch : Batch → Db C → Db C
  open_batch batch db =
      emit C EventKind.submitted batch.created_at none (some batch.batch_id)
        (field "status" (str (status_text batch.status)) end)
        (record db { batches = db.batches ++ new_row batch ∷ [] })

  unfoldable pub begin_batch_run : Batch → Body C Batch
  unfolding existing_batch emit first_where
  begin_batch_run batch db = elim (existing_batch batch db) [
    | err e ↦ (err e, db)
    | ok (some replay) ↦ (ok replay, db)
    | ok none ↦
        if any_row (batch_has_id C batch.batch_id) db.batches
        then (err Error.integrity_error, db)
        else (batch_view batch.batch_id (open_batch batch db), open_batch batch db)
  ]

  unfoldable pub begin_batch : (ℕ → Bool) → Batch → Body C Batch
  unfolding begin_batch_run tx
  begin_batch busy batch = tx C busy (begin_batch_run batch)

  -- One job of a chunk, and the event about it.
  unfoldable pub stage_one : String → Job → Body C (Unit {0})
  unfolding insert_job emit
  stage_one batch_id job db =
      let (inserted, t) = insert_job C job db in
      elim inserted [
        | err e ↦ (err e, t)
        | ok _ ↦ (
          ok tt,
          emit C EventKind.submitted job.created_at (some job.job_id) (some batch_id)
              (field "staged" (bool true) end) t,
        )
      ]

  -- The loop of `stage_jobs`.
  unfoldable pub stage_each : String → List Job → Body C (Unit {0})
  unfolding existing_job stage_one
  stage_each batch_id [] db = (ok tt, db)
  stage_each batch_id (job ∷ jobs) db =
      let (stored, t) = stage_one batch_id job db in
      let rest = stage_each batch_id jobs t in
      if not (job.batch_id == some batch_id) || not (state_is job.state State.staged)
      then (err Error.not_in_batch, db)
      else elim (existing_job C job db) [
        | err e ↦ (err e, db)
        | ok (some dup) ↦ (err (Error.conflict dup.job_id), db)
        | ok none ↦ elim stored [ err e ↦ (err e, t) | ok _ ↦ rest ]
      ]

  -- `if jobs: self._reserve_capacity(...)`.
  abbrev pub reserve_for : List Job → Db C → Result (Unit {0})
  reserve_for [] db = ok tt
  reserve_for (job ∷ jobs) db = reserve_capacity C job.client_id (length (job ∷ jobs)) db

  abbrev pub set_count : String → ℕ → Db C → Db C
  set_count batch_id n db =
      update_batches C (batch_has_id C batch_id) (λ (b : BatchRow). record b { job_count = n }) db

  unfoldable pub stage_jobs_run : String → List Job → Body C ℕ
  unfolding batch_row reserve_capacity stage_each update_where
  stage_jobs_run batch_id jobs db = elim (batch_row C batch_id db) [
    | none ↦ (err Error.not_found, db)
    | some batch ↦
        if not (is_staging batch.status)
        then (err Error.wrong_batch_status, db)
        else if ltb db.limits.max_batch_size (batch.job_count + length jobs)
        then (err Error.batch_too_large, db)
        else elim (reserve_for jobs db) [
          | err e ↦ (err e, db)
          | ok _ ↦
              (let (staged, t) = stage_each batch_id jobs db in
                elim staged [
                  | err e ↦ (err e, t)
                  | ok _ ↦ (
                    ok (batch.job_count + length jobs),
                    set_count batch_id (batch.job_count + length jobs) t,
                  )
                ])
        ]
  ]

  unfoldable pub stage_jobs : (ℕ → Bool) → String → List Job → Body C ℕ
  unfolding stage_jobs_run tx
  stage_jobs busy batch_id jobs = tx C busy (stage_jobs_run batch_id jobs)

  unfoldable pub aborted_row : BatchRow → BatchRow
  aborted_row b = record b {
    status = BatchStatus.aborted;
    job_count = 0;
    idempotency_key = none;
    idempotency_hash = none;
  }

  -- The two statements that abort a batch.
  unfoldable pub abort_rows : String → Db C → Db C
  unfolding update_where aborted_row
  abort_rows batch_id db =
      update_batches C (batch_has_id C batch_id) aborted_row
        (delete_jobs C (of_batch C batch_id) db)

  -- The job's batch gives way to the batch that holds the key.
  unfoldable pub give_way : String → BatchRow → Body C Batch
  unfolding abort_rows batch_view
  give_way batch_id other db =
      let t = abort_rows batch_id db in (mark_replayed (batch_view other.batch_id t), t)

  unfoldable pub activated_row : ℕ → Option String → Option String → BatchRow → BatchRow
  activated_row now key hash b = record b {
    status = BatchStatus.active;
    activated_at = some now;
    idempotency_key = key;
    idempotency_hash = hash;
  }

  unfoldable pub queued_row : ℕ → Row C → Row C
  queued_row now row = record row { state = State.queued; updated_at = now }

  -- The statements after the status is set.
  unfoldable pub open_gate : String → ℕ → Body C Batch
  unfolding update_where queued_row emit batch_view
  open_gate batch_id now db =
      let t =
        update_jobs C (λ row. of_batch C batch_id row && state_is row.state State.staged)
          (queued_row now) db in
      let n = count (of_batch C batch_id) t.jobs in
      let u =
        emit C EventKind.submitted now none (some batch_id)
          (field "activated" (bool true) (field "jobs" (num (pos n)) end))
          (set_count batch_id n t) in
      (batch_view batch_id u, u)

  -- The unique index on (client_id, idempotency_key) refuses the key.
  abbrev pub key_taken : String → BatchRow → Option String → Db C → Bool
  key_taken batch_id batch key db =
      any_row (λ b. batch_keyed batch.client_id key b && not (b.batch_id == batch_id)) db.batches

  -- The handler of the integrity error.
  abbrev pub key_clash : String → BatchRow → Option String → Option String → Body C Batch
  key_clash batch_id batch key hash db =
      elim (first_where (batch_keyed batch.client_id key) db.batches) [
        | none ↦ (err (Error.conflict ""), db)
        | some other ↦
            if not (other.idempotency_hash == hash)
            then (err (Error.conflict other.batch_id), db)
            else give_way batch_id other db
      ]

  -- `activate_batch` once no other batch was found under the key.
  unfoldable pub activate_row : String → BatchRow → Option String → Option String → ℕ → Body C Batch
  unfolding first_where give_way activated_row open_gate update_where
  activate_row batch_id batch key hash now db =
      if is_active batch.status
      then (batch_view batch_id db, db)
      else if not (is_staging batch.status)
      then (err Error.wrong_batch_status, db)
      else if key_taken batch_id batch key db
      then key_clash batch_id batch key hash db
      else open_gate batch_id now (
          update_batches C (λ b. batch_has_id C batch_id b && is_staging b.status)
            (activated_row now key hash) db)

  -- `if existing is not None and existing["batch_id"] != batch_id`.
  abbrev pub other_holder : String → Option BatchRow → Option BatchRow
  other_holder batch_id none = none
  other_holder batch_id (some row) = if row.batch_id == batch_id then none else some row

  unfoldable pub activate_batch_run : String → Option String → Option String → ℕ → Body C Batch
  unfolding batch_row first_where give_way activate_row
  activate_batch_run batch_id key hash now db = elim (batch_row C batch_id db) [
    | none ↦ (err Error.not_found, db)
    | some batch ↦
        if not (key_given key)
        then activate_row batch_id batch key hash now db
        else elim (other_holder batch_id
            (first_where (batch_keyed batch.client_id key) db.batches)) [
              | none ↦ activate_row batch_id batch key hash now db
              | some other ↦
                  if not (other.idempotency_hash == hash)
                  then (err (Error.conflict other.batch_id), db)
                  else give_way batch_id other db
            ]
  ]

  -- `activate_batch`; `now` is its read of the clock.
  unfoldable pub activate_batch :
      (ℕ → Bool) → String → Option String → Option String → ℕ → Body C Batch
  unfolding activate_batch_run tx
  activate_batch busy batch_id key hash now = tx C busy (activate_batch_run batch_id key hash now)

  unfoldable pub abort_batch_run : String → Body C (Unit {0})
  unfolding batch_row abort_rows
  abort_batch_run batch_id db = elim (batch_row C batch_id db) [
    | none ↦ (ok tt, db)
    | some batch ↦
        if not (is_staging batch.status) then (ok tt, db) else (ok tt, abort_rows batch_id db)
  ]

  unfoldable pub abort_batch : (ℕ → Bool) → String → Body C (Unit {0})
  unfolding abort_batch_run tx
  abort_batch busy batch_id = tx C busy (abort_batch_run batch_id)

  -- The loop of `_abort_orphan_staging`.
  unfoldable pub abort_each : List BatchRow → Db C → Db C
  unfolding abort_rows
  abort_each [] db = db
  abort_each (batch ∷ rest) db = abort_each rest (abort_rows batch.batch_id db)

  unfoldable pub abort_orphans : (ℕ → Bool) → Body C (Unit {0})
  unfolding abort_each tx
  abort_orphans busy =
      tx C busy (λ db. (ok tt, abort_each (keep (λ b. is_staging b.status) db.batches) db))
