-- ===== src/Sqlite/Ids/Batches.antt =====
-- Submission and batches of src/keziah/queue/sqlite.py keep the ids distinct.
use keziah.Base.{
  ℕ, ◌+◌, ◌≡◌, refl, sym, ◌∙◌, String, false, ◌&&◌, ◌||◌, not, Option, none, some, List, [], ◌∷◌,
  ltb, if◌then◌else◌, split_if, split_option, length, ◌==◌, string_eq, option_eq, arith,
}
use keziah.Types.{State, Job, Batch, is_staging, is_active, state_is}
use keziah.Memory.{Result, ok, err, Error}
use keziah.Sqlite.Rows.{Codec, BatchRow, row_of}
use keziah.Sqlite.Statements.{first_where, any_row}
use keziah.Sqlite.{Db, has_id, batch_has_id, emit, batch_row, update_batches, of_batch}
use keziah.Sqlite.Submit.{
  existing_job, reserve_capacity, insert_job, store_job, enqueue_run, key_given, collides,
}
use keziah.Sqlite.Batches.{
  existing_batch, batch_view, open_batch, begin_batch_run, stage_one, stage_each, stage_jobs_run,
  reserve_for, abort_rows, give_way, activated_row, queued_row, open_gate, key_taken, activate_row,
  other_holder, activate_batch_run, abort_batch_run, abort_each, batch_keyed,
}
use keziah.Sqlite.Ids.{
  split_result, Sound, update_jobs-Sound, keep-Distinct, append-Distinct, any_row-contains,
}
use keziah.Sqlite.Ids.Settle.{SoundResult}

module _ (C : Codec) where
  insert_job-Sound : (job : Job) (db : Db C) → Sound C db → SoundResult C (insert_job C job db)
  unfolding insert_job
  insert_job-Sound job db d =
      split_if (SoundResult C) (collides C job db) (λ _. d)
        (λ free.
          append-Distinct C db.jobs (row_of C job) d
            (sym (any_row-contains C job.job_id db.jobs) ∙ unheld free))
    where
      unheld : collides C job db ≡ false → any_row (has_id C job.job_id) db.jobs ≡ false
      unheld free = ground (arith, free)

  store_job-Sound : (job : Job) (db : Db C) → Sound C db → SoundResult C (store_job C job db)
  unfolding store_job emit
  store_job-Sound job db d =
      split_result (SoundResult C) (insert_job C job db).0 (λ e. insert_job-Sound job db d)
        (λ _. insert_job-Sound job db d)

  pub enqueue_run-Sound :
      (job : Job) (db : Db C) → Sound C db → SoundResult C (enqueue_run C job db)
  unfolding enqueue_run
  enqueue_run-Sound job db d = go (existing_job C job db)
    where
      go :
          (r : Result (Option Job))
          → SoundResult C {A = Result Job} (elim r [
            | err e ↦ (err e, db)
            | ok (some replay) ↦ (ok replay, db)
            | ok none ↦ elim (reserve_capacity C job.client_id 1 db) [
              | err e ↦ (err e, db)
              | ok _ ↦ store_job C job db
            ]
          ])
      go (err e) = d
      go (ok (some replay)) = d
      go (ok none) =
          split_result (SoundResult C) (reserve_capacity C job.client_id 1 db) (λ e. d)
            (λ _. store_job-Sound job db d)

  pub begin_batch_run-Sound :
      (batch : Batch) (db : Db C) → Sound C db → SoundResult C (begin_batch_run C batch db)
  unfolding begin_batch_run emit
  begin_batch_run-Sound batch db d = go (existing_batch C batch db)
    where
      go :
          (r : Result (Option Batch))
          → SoundResult C {A = Result Batch} (elim r [
            | err e ↦ (err e, db)
            | ok (some replay) ↦ (ok replay, db)
            | ok none ↦
                if any_row (batch_has_id C batch.batch_id) db.batches
                then (err Error.integrity_error, db)
                else (batch_view C batch.batch_id (open_batch C batch db), open_batch C batch db)
          ])
      go (err e) = d
      go (ok (some replay)) = d
      go (ok none) =
          split_if (SoundResult C) (any_row (batch_has_id C batch.batch_id) db.batches) (λ _. d)
            (λ _. d)

  stage_one-Sound :
      (batch_id : String) (job : Job) (db : Db C)
      → Sound C db
      → SoundResult C (stage_one C batch_id job db)
  unfolding stage_one emit
  stage_one-Sound batch_id job db d =
      split_result (SoundResult C) (insert_job C job db).0 (λ e. insert_job-Sound job db d)
        (λ _. insert_job-Sound job db d)

  stage_each-Sound :
      (batch_id : String) (jobs : List Job) (db : Db C)
      → Sound C db
      → SoundResult C (stage_each C batch_id jobs db)
  unfolding stage_each
  stage_each-Sound batch_id [] db d = d
  stage_each-Sound batch_id (job ∷ jobs) db d =
      split_if (SoundResult C)
        (not (job.batch_id == some batch_id) || not (state_is job.state State.staged)) (λ _. d)
        (λ _. go (existing_job C job db) (stage_one-Sound batch_id job db d) (
          stage_each-Sound batch_id jobs (stage_one C batch_id job db).1
            (stage_one-Sound batch_id job db d)))
    where
      t : Db C
      t = (stage_one C batch_id job db).1

      go :
          (r : Result (Option Job))
          → Sound C t
          → SoundResult C (stage_each C batch_id jobs t)
          → SoundResult C {A = Result (Unit {0})} (elim r [
            | err e ↦ (err e, db)
            | ok (some dup) ↦ (err (Error.conflict dup.job_id), db)
            | ok none ↦ elim (stage_one C batch_id job db).0 [
              | err e ↦ (err e, t)
              | ok _ ↦ stage_each C batch_id jobs t
            ]
          ])
      go (err e) p q = d
      go (ok (some dup)) p q = d
      go (ok none) p q =
          split_result (SoundResult C) (stage_one C batch_id job db).0 (λ e. p) (λ _. q)

  pub stage_jobs_run-Sound :
      (batch_id : String) (jobs : List Job) (db : Db C)
      → Sound C db
      → SoundResult C (stage_jobs_run C batch_id jobs db)
  unfolding stage_jobs_run
  stage_jobs_run-Sound batch_id jobs db d =
      split_option (SoundResult C) (batch_row C batch_id db) (λ _. d)
        (λ batch _.
          split_if (SoundResult C) (not (is_staging batch.status)) (λ _. d)
            (λ _.
              split_if (SoundResult C)
                (ltb db.limits.max_batch_size (batch.job_count + length jobs)) (λ _. d)
                (λ _.
                  split_result (SoundResult C) (reserve_for C jobs db) (λ e. d)
                    (λ _.
                      split_result (SoundResult C) (stage_each C batch_id jobs db).0
                        (λ e. stage_each-Sound batch_id jobs db d)
                        (λ _. stage_each-Sound batch_id jobs db d)))))

  abort_rows-Sound :
      (batch_id : String) (db : Db C) → Sound C db → Sound C (abort_rows C batch_id db)
  unfolding abort_rows
  abort_rows-Sound batch_id db d = keep-Distinct C (λ row. not (of_batch C batch_id row)) db.jobs d

  give_way-Sound :
      (batch_id : String) (other : BatchRow) (db : Db C)
      → Sound C db
      → SoundResult C (give_way C batch_id other db)
  unfolding give_way
  give_way-Sound batch_id other db d = abort_rows-Sound batch_id db d

  open_gate-Sound :
      (batch_id : String) (now : ℕ) (db : Db C)
      → Sound C db
      → SoundResult C (open_gate C batch_id now db)
  unfolding open_gate emit queued_row
  open_gate-Sound batch_id now db d =
      update_jobs-Sound C (λ row. of_batch C batch_id row && state_is row.state State.staged)
        (queued_row C now) db (λ row. refl) d

  activate_row-Sound :
      (batch_id : String) (batch : BatchRow) (key hash : Option String) (now : ℕ) (db : Db C)
      → Sound C db
      → SoundResult C (activate_row C batch_id batch key hash now db)
  unfolding activate_row
  activate_row-Sound batch_id batch key hash now db d =
      split_if (SoundResult C) (is_active batch.status) (λ _. d)
        (λ _.
          split_if (SoundResult C) (not (is_staging batch.status)) (λ _. d)
            (λ _.
              split_if (SoundResult C) (key_taken C batch_id batch key db)
                (λ _.
                  split_option (SoundResult C)
                    (first_where (batch_keyed C batch.client_id key) db.batches) (λ _. d)
                    (λ other _.
                      split_if (SoundResult C) (not (other.idempotency_hash == hash)) (λ _. d)
                        (λ _. give_way-Sound batch_id other db d)))
                (λ _.
                  open_gate-Sound batch_id now
                    (update_batches C (λ b. batch_has_id C batch_id b && is_staging b.status)
                      (activated_row C now key hash) db)
                    d)))

  pub activate_batch_run-Sound :
      (batch_id : String) (key hash : Option String) (now : ℕ) (db : Db C)
      → Sound C db
      → SoundResult C (activate_batch_run C batch_id key hash now db)
  unfolding activate_batch_run
  activate_batch_run-Sound batch_id key hash now db d =
      split_option (SoundResult C) (batch_row C batch_id db) (λ _. d)
        (λ batch _.
          split_if (SoundResult C) (not (key_given key))
            (λ _. activate_row-Sound batch_id batch key hash now db d)
            (λ _.
              split_option (SoundResult C)
                (other_holder C batch_id
                  (first_where (batch_keyed C batch.client_id key) db.batches))
                (λ _. activate_row-Sound batch_id batch key hash now db d)
                (λ other _.
                  split_if (SoundResult C) (not (other.idempotency_hash == hash)) (λ _. d)
                    (λ _. give_way-Sound batch_id other db d))))

  pub abort_batch_run-Sound :
      (batch_id : String) (db : Db C) → Sound C db → SoundResult C (abort_batch_run C batch_id db)
  unfolding abort_batch_run
  abort_batch_run-Sound batch_id db d =
      split_option (SoundResult C) (batch_row C batch_id db) (λ _. d)
        (λ batch _.
          split_if (SoundResult C) (not (is_staging batch.status)) (λ _. d)
            (λ _. abort_rows-Sound batch_id db d))

  pub abort_each-Sound :
      (rows : List BatchRow) (db : Db C) → Sound C db → Sound C (abort_each C rows db)
  unfolding abort_each
  abort_each-Sound [] db d = d
  abort_each-Sound (batch ∷ rows) db d =
      abort_each-Sound rows (abort_rows C batch.batch_id db) (abort_rows-Sound batch.batch_id db d)
