-- ===== src/Sqlite/Releases.antt =====
-- The writes of src/keziah/queue/sqlite.py that read the row before they change it, against the same
-- methods of src/keziah/queue/memory.py: `finish_cancel`, `release_to_queue`, `requeue`.
use keziah.Base.{
  ℕ, ◌-◌, ◌≡◌, refl, sym, ap, subst, ◌∙◌, arith, String, Bool, true, false, ◌&&◌, not, Option, none,
  some, List, [], ◌∷◌, if◌then◌else◌, Distinct, lookup, insert, ◌==◌, string_eq, option_eq,
  lookup-insert_self,
}
use keziah.Base.Int.{pos}
use keziah.Types.{State, Job, end, field, num, is_held}
use keziah.Memory.{
  Memory, Result, ok, err, Error, EventKind, emit, emit_job, put, index_add, attempt_detail,
  mark_cancelled, cancelled_job,
}
use keziah.Memory.Lease.{holds_lease}
use keziah.Memory.Settle.{requeued_job, released_job, release_unlocked, is_requeueable, retarget}
use keziah.Memory.Settle as InMemorySettle
use keziah.Sqlite.Rows.{Codec, Row, to_job}
use keziah.Sqlite.{Db, Body, tx, has_id, job_row, require_job, update_jobs}
use keziah.Sqlite.Statements.{update_where}
use keziah.Sqlite.Lease.{ids_of}
use keziah.Sqlite.Settle.{
  cancelled_row, requeued_row, released_row, finish_cancel_run, requeue_run, release_sql,
}
use keziah.Sqlite.Settle
use keziah.Sqlite
use keziah.Sqlite.Atomic.{tx-runs, tx-raises}
use keziah.Sqlite.Writes.{Agree, in_tx}
use keziah.Sqlite.Abstract.{
  jobs_dict, one_row, lookup-jobs_dict, jobs_dict-update_where, require_job-jobs_dict,
}

module _ (C : Codec) (key : String) (f : Row C → Row C) where
  -- A clause on the id alone.
  update-has_id :
      (rows : List (Row C))
      → update_where (has_id C key) f rows ≡ update_where (one_row C key (λ job. true) f) f rows
  unfolding update_where
  update-has_id [] = refl
  update-has_id (row ∷ rows) = ground (arith, update-has_id rows)

  module _ (g : Job → Job) (sends : (row : Row C) → to_job C (f row) ≡ g (to_job C row))
      (same_id : (row : Row C) → (f row).job_id ≡ row.job_id) (rows : List (Row C))
      (distinct : Distinct (ids_of C rows)) where
    -- An `UPDATE` of the row that was found is an assignment of the job.
    stored :
        (job : Job)
        → lookup key (jobs_dict C rows) ≡ some job
        → jobs_dict C (update_where (has_id C key) f rows) ≡ insert key (g job) (jobs_dict C rows)
    stored job e =
        ap (jobs_dict C) (update-has_id rows)
        ∙ (jobs_dict-update_where C key (λ job. true) f g sends same_id rows distinct
            ∙ ap
                (λ (o : Option Job). elim o [
                  | none ↦ jobs_dict C rows
                  | some j ↦ insert key (g j) (jobs_dict C rows)
                ])
                e)

module _ (C : Codec) (db : Db C) (s : Memory) (distinct : Distinct (ids_of C db.jobs))
    (same : jobs_dict C db.jobs ≡ s.jobs) (key : String) (now : ℕ) where
  -- The row that is found is the job that is found.
  found-same :
      lookup key s.jobs ≡ (elim (job_row C key db) [ none ↦ none | some row ↦ some (to_job C row) ])
  unfolding job_row
  found-same = ap (lookup key) (sym same) ∙ lookup-jobs_dict C key db.jobs

  -- An unconditional update of the row that was found, and the assignment to the job.
  assigned :
      (f : Row C → Row C) (g : Job → Job) (row : Row C)
      → ((r : Row C) → to_job C (f r) ≡ g (to_job C r))
      → ((r : Row C) → (f r).job_id ≡ r.job_id)
      → lookup key s.jobs ≡ some (to_job C row)
      → jobs_dict C (update_where (has_id C key) f db.jobs) ≡ insert key (g (to_job C row)) s.jobs
  assigned f g row sends same_id e =
      stored C key f g sends same_id db.jobs distinct (to_job C row) (ap (lookup key) same ∙ e)
      ∙ ap (insert key (g (to_job C row))) same

  -- Two writes under one test agree if they do where it holds.
  tested :
      (b : Bool) (r : Result Bool × Db C) (m : Bool × Memory)
      → (b ≡ true → Agree C r m)
      → Agree C (if b then r else (ok false, db)) (if b then m else (false, s))
  tested true r m h = h refl
  tested false r m h = (refl, same)

  finish_cancel_run-Agree :
      (owner : String)
      → Agree C
          (finish_cancel_run C key owner now db)
          (InMemorySettle.finish_cancel key owner now s)
  unfolding finish_cancel_run InMemorySettle.finish_cancel Settle.mark_cancelled mark_cancelled
      cancelled_row cancelled_job emit Sqlite.emit
  finish_cancel_run-Agree owner = go (job_row C key db) found-same
    where
      go :
          (found : Option (Row C))
          → lookup key s.jobs ≡ (elim found [ none ↦ none | some row ↦ some (to_job C row) ])
          → Agree C
              (elim found [
                | none ↦ (ok false, db)
                | some row ↦
                    if row.lease_owner == some owner && is_held row.state
                    then (ok true, Settle.mark_cancelled C key row.batch_id now db)
                    else (ok false, db)
              ])
              (InMemorySettle.finish_cancel key owner now s)
      go none e = rw (e, InMemorySettle.finish_cancel) (refl, same)
      go (some row) e =
          rw (e, InMemorySettle.finish_cancel)
            (tested (holds_lease owner (to_job C row))
              (ok true, Settle.mark_cancelled C key row.batch_id now db)
              (true, mark_cancelled now key (to_job C row) s)
              (λ h. (
                refl,
                assigned (cancelled_row C now) (cancelled_job now) row (λ r. refl) (λ r. refl) e,
              )))

  release_sql-Agree :
      (owner : String) (resolved_model : Option String) (decrement : Bool) (kind : EventKind)
      → let r = release_sql C key owner now resolved_model decrement kind db in
        Agree C
          (ok r.0, r.1)
          (InMemorySettle.release_to_queue key owner now resolved_model decrement kind s)
  unfolding release_sql InMemorySettle.release_to_queue release_unlocked released_row released_job
      emit Sqlite.emit
  release_sql-Agree owner resolved_model decrement kind = go (job_row C key db) found-same
    where
      attempt : Row C → ℕ
      attempt row = if decrement then row.attempt_count - 1 else row.attempt_count

      writes : Row C → Bool × Db C
      writes row = (
        true,
        Sqlite.emit C kind now (some key) row.batch_id
            (field "attempt" (num (pos (attempt row))) end)
            (update_jobs C (has_id C key)
              (released_row C (attempt row) (retarget resolved_model row.resolved_model) now) db),
      )

      answer : Bool × Db C → Result Bool × Db C
      answer (b, t) = (ok b, t)

      on_row :
          (row : Row C) (b : Bool)
          → lookup key s.jobs ≡ some (to_job C row)
          → Agree C (answer (if not b then (false, db) else writes row)) (
              if b
              then (
                true,
                index_add (released_job resolved_model decrement now (to_job C row)) (
                    emit_job kind now
                      (released_job resolved_model decrement now (to_job C row))
                      (attempt_detail (released_job resolved_model decrement now (to_job C row)))
                      (put key (released_job resolved_model decrement now (to_job C row)) s)),
              )
              else (false, s))
      on_row row true e = (
        refl,
        assigned (released_row C (attempt row) (retarget resolved_model row.resolved_model) now)
            (λ job. record job {
              state = State.queued;
              attempt_count = attempt row;
              resolved_model = retarget resolved_model row.resolved_model;
              lease_owner = none;
              lease_expires_at = none;
              updated_at = now;
            })
            row (λ r. refl) (λ r. refl) e,
      )
      on_row row false e = (refl, same)

      go :
          (found : Option (Row C))
          → lookup key s.jobs ≡ (elim found [ none ↦ none | some row ↦ some (to_job C row) ])
          → Agree C
              (answer (elim found [
                | none ↦ (false, db)
                | some row ↦
                    if not (row.lease_owner == some owner && is_held row.state)
                    then (false, db)
                    else writes row
              ]))
              (InMemorySettle.release_to_queue key owner now resolved_model decrement kind s)
      go none e = rw (e, InMemorySettle.release_to_queue) (refl, same)
      go (some row) e =
          rw (e, InMemorySettle.release_to_queue, release_unlocked)
            (on_row row (holds_lease owner (to_job C row)) e)

  requeue_run-same :
      let r = requeue_run C key now db in
      let m = InMemorySettle.requeue key now s in (r.0 ≡ m.0) × (jobs_dict C r.1.jobs ≡ m.1.jobs)
  unfolding requeue_run InMemorySettle.requeue requeued_row requeued_job emit Sqlite.emit
  requeue_run-same = go (job_row C key db) found-same
    where
      updated : Db C
      updated = update_jobs C (has_id C key) (requeued_row C now) db

      SameResult : Result Job × Db C → Result Job × Memory → Type 0
      SameResult r m = (r.0 ≡ m.0) × (jobs_dict C r.1.jobs ≡ m.1.jobs)

      answer : Result Job → Result Job × Db C
      answer read = elim read [
        | err e ↦ (err e, updated)
        | ok job ↦
            (ok job, Sqlite.emit C EventKind.requeued now (some key) job.batch_id end updated)
      ]

      rewritten : Job → Result Job × Memory
      rewritten job = (
        ok (requeued_job now job),
        emit_job EventKind.requeued now (requeued_job now job) end
            (index_add (requeued_job now job) (put key (requeued_job now job) s)),
      )

      on_row :
          (row : Row C) (b : Bool)
          → lookup key s.jobs ≡ some (to_job C row)
          → SameResult
              (if not b
                then (err Error.wrong_job_status, db)
                else answer (require_job C key updated))
              (if not b then (err Error.wrong_job_status, s) else rewritten (to_job C row))
      on_row row false e = (refl, same)
      on_row row true e =
          subst (λ read. SameResult (answer read) (rewritten (to_job C row)))
            (sym (
              require_job-jobs_dict C key updated (requeued_job now (to_job C row)) (
                ap (lookup key) left
                ∙ lookup-insert_self key (requeued_job now (to_job C row)) s.jobs)))
            (refl, left)
        where
          left : jobs_dict C updated.jobs ≡ insert key (requeued_job now (to_job C row)) s.jobs
          left = assigned (requeued_row C now) (requeued_job now) row (λ r. refl) (λ r. refl) e

      go :
          (found : Option (Row C))
          → lookup key s.jobs ≡ (elim found [ none ↦ none | some row ↦ some (to_job C row) ])
          → SameResult
              (elim found [
                | none ↦ (err Error.not_found, db)
                | some row ↦
                    if not (is_requeueable row.state)
                    then (err Error.wrong_job_status, db)
                    else answer (require_job C key updated)
              ])
              (InMemorySettle.requeue key now s)
      go none e = rw (e, InMemorySettle.requeue) (refl, same)
      go (some row) e = rw (e, InMemorySettle.requeue) (on_row row (is_requeueable row.state) e)

-- A failed `requeue` changes no job.
requeue-err :
    (key : String) (now : ℕ) (s : Memory) (e : Error)
    → (InMemorySettle.requeue key now s).0 ≡ err e
    → (InMemorySettle.requeue key now s).1 ≡ s
unfolding InMemorySettle.requeue
requeue-err key now s e h = go (lookup key s.jobs) h
  where
    answer : Job → Result Job × Memory
    answer job =
        if not (is_requeueable job.state)
        then (err Error.wrong_job_status, s)
        else (let fresh = requeued_job now job in
            (
              ok fresh,
              emit_job EventKind.requeued now fresh end (index_add fresh (put key fresh s)),
            ))

    kept :
        (b : Bool) (job : Job)
        → let r : Result Job × Memory = if not b then (err Error.wrong_job_status, s) else (
          ok (requeued_job now job),
          emit_job EventKind.requeued now
              (requeued_job now job)
              end
              (index_add (requeued_job now job) (put key (requeued_job now job) s)),
        ) in
          r.0 ≡ err e → r.1 ≡ s
    kept true job h = cc
    kept false job h = refl

    go :
        (found : Option Job)
        → let r : Result Job × Memory = elim found [
          | none ↦ (err Error.not_found, s)
          | some job ↦ answer job
        ] in
          r.0 ≡ err e → r.1 ≡ s
    go none h = refl
    go (some job) h = kept (is_requeueable job.state) job h

module _ (C : Codec) (db : Db C) (s : Memory) (busy : ℕ → Bool) (running : db.closed ≡ false)
    (free : busy 0 ≡ false) (distinct : Distinct (ids_of C db.jobs))
    (same : jobs_dict C db.jobs ≡ s.jobs) (key owner : String) (now : ℕ) where
  -- A worker's two ways to give a job up leave the same jobs in both queues, with the same answer.
  pub releases-Agree :
      (resolved_model : Option String) (decrement : Bool) (kind : EventKind)
      → Agree C
          (Settle.finish_cancel C busy key owner now db)
          (InMemorySettle.finish_cancel key owner now s)
        × Agree C
            (Settle.release_to_queue C busy key owner now resolved_model decrement kind db)
            (InMemorySettle.release_to_queue key owner now resolved_model decrement kind s)
  unfolding Settle.finish_cancel Settle.release_to_queue
  releases-Agree resolved_model decrement kind = (
    in_tx C db busy (finish_cancel_run C key owner now)
        (InMemorySettle.finish_cancel key owner now s) running free
        (finish_cancel_run-Agree C db s distinct same key now owner),
    in_tx C db busy
        (λ t. let r = release_sql C key owner now resolved_model decrement kind t in (ok r.0, r.1))
        (InMemorySettle.release_to_queue key owner now resolved_model decrement kind s) running free
        (release_sql-Agree C db s distinct same key now owner resolved_model decrement kind),
  )

  -- `requeue` answers alike in both queues, an exception included, and leaves the same jobs.
  pub requeue-same :
      let r = Settle.requeue C busy key now db in
      let m = InMemorySettle.requeue key now s in (r.0 ≡ m.0) × (jobs_dict C r.1.jobs ≡ m.1.jobs)
  unfolding Settle.requeue
  requeue-same = go (requeue_run C key now db).0 refl
    where
      m : Result Job × Memory
      m = InMemorySettle.requeue key now s

      ran :
          ((requeue_run C key now db).0 ≡ m.0)
          × (jobs_dict C (requeue_run C key now db).1.jobs ≡ m.1.jobs)
      ran = requeue_run-same C db s distinct same key now

      Same : Result Job × Db C → Type 0
      Same r = (r.0 ≡ m.0) × (jobs_dict C r.1.jobs ≡ m.1.jobs)

      go :
          (r : Result Job)
          → (requeue_run C key now db).0 ≡ r
          → Same (tx C busy (requeue_run C key now) db)
      go (ok job) e =
          subst Same (sym (tx-runs C (requeue_run C key now) db busy job running free e))
            (sym e ∙ ran.0, ran.1)
      go (err f) e =
          subst Same (sym (tx-raises C (requeue_run C key now) db busy f running free e)) (
            sym e ∙ ran.0,
            same ∙ ap (λ (t : Memory). t.jobs) (sym (requeue-err key now s f (sym ran.0 ∙ e))),
          )
