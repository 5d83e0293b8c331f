-- ===== src/Sqlite/Ids/Settle.antt =====
-- Claims and the ends of attempts in src/keziah/queue/sqlite.py keep the ids distinct.
use keziah.Base.{
  ℕ, suc, ◌-◌, String, Bool, true, false, ◌&&◌, not, Option, none, some, List, [], ◌∷◌, ◌++◌,
  nat_eqb, refl, if◌then◌else◌, split_if, split_option, ◌==◌, string_eq, option_eq, keep,
}
use text.Mathlib.Text.{starts_with}
use keziah.Types.{State, Job, Fields, state_is, is_held}
use keziah.Memory.{Result, ok, err, EventKind}
use keziah.Memory.Settle.{is_cancellable, is_requeueable, retarget}
use keziah.Sqlite.Rows.{Codec, Row}
use keziah.Sqlite.{
  Db, rowcount, of_batch, emit, has_id, job_row, batch_row, require_job, update_jobs,
}
use keziah.Sqlite.Lease.{
  claim_where, claimed_row, claim_sql, after_claim, some_job, claim_by_id_run, owned_update,
}
use keziah.Sqlite.Settle.{
  cancelled_row, mark_cancelled, finish_cancel_run, asked_row, cancel_row, cancel_run, cancel_each,
  cancel_batch_run, requeued_row, requeue_run, released_row, release_sql, release_each, owner_text,
}
use keziah.Sqlite.Ids.{split_result, split_bool, Sound, update_jobs-Sound}

module _ (C : Codec) where
  -- A result and tables whose ids are distinct.
  abbrev pub SoundResult {ℓ} : {A : Type ℓ} → A × Db C → Type 0
  SoundResult r = Sound C r.1

  pub claim_sql-Sound :
      (key owner : String) (until now : ℕ) (db : Db C)
      → Sound C db
      → SoundResult (claim_sql C key owner until now db)
  unfolding claim_sql claimed_row
  claim_sql-Sound key owner until now db d =
      update_jobs-Sound C (claim_where C key now db) (claimed_row C owner until now) db
        (λ row. refl) d

  pub after_claim-Sound :
      (key : String) (now : ℕ) (native : Bool) (db : Db C)
      → Sound C db
      → SoundResult (after_claim C key now native db)
  unfolding after_claim emit
  after_claim-Sound key now native db d =
      split_result SoundResult (require_job C key db) (λ e. d) (λ job. d)

  pub owned_update-Sound :
      (p : Row C → Bool) (f : Row C → Row C) (key : String) (kind : EventKind) (now : ℕ)
      (detail : Job → Fields) (db : Db C)
      → ((row : Row C) → Path String (f row).job_id row.job_id)
      → Sound C db
      → SoundResult (owned_update C p f key kind now detail db)
  unfolding owned_update emit
  owned_update-Sound p f key kind now detail db same d =
      split_if SoundResult (not (nat_eqb (rowcount C p db) 1)) (λ _. there)
        (λ _.
          split_result SoundResult (require_job C key (update_jobs C p f db)) (λ e. there)
            (λ job. there))
    where
      there : Sound C (update_jobs C p f db)
      there = update_jobs-Sound C p f db same d

  pub claim_by_id_run-Sound :
      (key owner : String) (until now : ℕ) (db : Db C)
      → Sound C db
      → SoundResult (claim_by_id_run C key owner until now db)
  unfolding claim_by_id_run
  claim_by_id_run-Sound key owner until now db d =
      split_if SoundResult (claim_sql C key owner until now db).0
        (λ _. some (after_claim C key now false (claim_sql C key owner until now db).1) (
          after_claim-Sound key now false (claim_sql C key owner until now db).1
            (claim_sql-Sound key owner until now db d)))
        (λ _. claim_sql-Sound key owner until now db d)
    where
      some : (r : Result Job × Db C) → SoundResult r → SoundResult (some_job C r)
      some (err e, t) d = d
      some (ok job, t) d = d

  pub mark_cancelled-Sound :
      (key : String) (batch_id : Option String) (now : ℕ) (db : Db C)
      → Sound C db
      → Sound C (mark_cancelled C key batch_id now db)
  unfolding mark_cancelled emit cancelled_row
  mark_cancelled-Sound key batch_id now db d =
      update_jobs-Sound C (has_id C key) (cancelled_row C now) db (λ row. refl) d

  pub finish_cancel_run-Sound :
      (key owner : String) (now : ℕ) (db : Db C)
      → Sound C db
      → SoundResult (finish_cancel_run C key owner now db)
  unfolding finish_cancel_run
  finish_cancel_run-Sound key owner now db d =
      split_option SoundResult (job_row C key db) (λ _. d)
        (λ row _.
          split_if SoundResult (row.lease_owner == some owner && is_held row.state)
            (λ _. mark_cancelled-Sound key row.batch_id now db d) (λ _. d))

  cancel_row-Sound :
      (now : ℕ) (key : String) (row : Row C) (db : Db C)
      → Sound C db
      → SoundResult (cancel_row C now key row db)
  unfolding cancel_row asked_row
  cancel_row-Sound now key row db d =
      split_if SoundResult (is_cancellable row.state)
        (λ _. mark_cancelled-Sound key row.batch_id now db d)
        (λ _.
          split_if SoundResult (state_is row.state State.running && not row.cancel_requested)
            (λ _. update_jobs-Sound C (has_id C key) (asked_row C now) db (λ r. refl) d) (λ _. d))

  pub cancel_run-Sound :
      (key : String) (now : ℕ) (db : Db C) → Sound C db → SoundResult (cancel_run C key now db)
  unfolding cancel_run
  cancel_run-Sound key now db d =
      split_option SoundResult (job_row C key db) (λ _. d)
        (λ row _. cancel_row-Sound now key row db d)

  cancel_each-Sound :
      (now : ℕ) (rows : List (Row C)) (n : ℕ) (db : Db C)
      → Sound C db
      → SoundResult (cancel_each C now rows n db)
  unfolding cancel_each
  cancel_each-Sound now [] n db d = d
  cancel_each-Sound now (row ∷ rows) n db d =
      cancel_each-Sound now rows (if (cancel_row C now row.job_id row db).0 then suc n else n)
        (cancel_row C now row.job_id row db).1 (cancel_row-Sound now row.job_id row db d)

  pub cancel_batch_run-Sound :
      (batch_id : String) (now : ℕ) (db : Db C)
      → Sound C db
      → SoundResult (cancel_batch_run C batch_id now db)
  unfolding cancel_batch_run
  cancel_batch_run-Sound batch_id now db d =
      split_option SoundResult (batch_row C batch_id db) (λ _. d)
        (λ row _. cancel_each-Sound now (keep (of_batch C batch_id) db.jobs) 0 db d)

  pub requeue_run-Sound :
      (key : String) (now : ℕ) (db : Db C) → Sound C db → SoundResult (requeue_run C key now db)
  unfolding requeue_run emit requeued_row
  requeue_run-Sound key now db d =
      split_option SoundResult (job_row C key db) (λ _. d)
        (λ row _.
          split_if SoundResult (not (is_requeueable row.state)) (λ _. d)
            (λ _.
              split_result SoundResult
                (require_job C key (update_jobs C (has_id C key) (requeued_row C now) db))
                (λ e. there) (λ job. there)))
    where
      there : Sound C (update_jobs C (has_id C key) (requeued_row C now) db)
      there = update_jobs-Sound C (has_id C key) (requeued_row C now) db (λ row. refl) d

  pub release_sql-Sound :
      (key owner : String) (now : ℕ) (model : Option String) (decrement : Bool) (kind : EventKind)
      (db : Db C)
      → Sound C db
      → SoundResult (release_sql C key owner now model decrement kind db)
  unfolding release_sql emit released_row
  release_sql-Sound key owner now model decrement kind db d =
      split_option SoundResult (job_row C key db) (λ _. d)
        (λ row _.
          split_if SoundResult (not (row.lease_owner == some owner && is_held row.state)) (λ _. d)
            (λ _.
              update_jobs-Sound C (has_id C key)
                (released_row C (if decrement then row.attempt_count - 1 else row.attempt_count)
                  (retarget model row.resolved_model) now)
                db (λ r. refl) d))

  pub release_each-Sound :
      (prefix : String) (now : ℕ) (rows : List (Row C)) (released : List String) (db : Db C)
      → Sound C db
      → SoundResult (release_each C prefix now rows released db)
  unfolding release_each
  release_each-Sound prefix now [] released db d = d
  release_each-Sound prefix now (row ∷ rows) released db d =
      split_bool SoundResult (starts_with (owner_text C row.lease_owner) prefix)
        (release_each-Sound prefix now rows (released ++ row.job_id ∷ [])
          (release_sql C row.job_id (owner_text C row.lease_owner) now none true EventKind.released
            db).1
          (release_sql-Sound row.job_id (owner_text C row.lease_owner) now none true
            EventKind.released db d))
        (release_each-Sound prefix now rows released db d)
