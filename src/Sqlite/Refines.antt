-- ===== src/Sqlite/Refines.antt =====
-- The durable queue of src/keziah/queue/sqlite.py and the in-memory queue of
-- src/keziah/queue/memory.py agree on the jobs.
use keziah.Base.{
  ℕ, ◌≡◌, ◌≢◌, refl, sym, ap, ◌∙◌, String, Bool, true, false, not, Option, none, some, nat_eqb,
  if◌then◌else◌, Distinct, Dict, lookup, insert, string_eq, option_eq, eq_self, lookup-insert,
}
use keziah.Types.{Job, Fields}
use keziah.Memory.{Result, ok, err, Error, EventKind}
use keziah.Sqlite.Rows.{Codec, Row, to_job}
use keziah.Sqlite.Statements.{first_where}
use keziah.Sqlite.{Db, has_id, emit, require_job, job_row, update_jobs, rowcount}
use keziah.Sqlite.Lease.{ids_of, owned_update}
use keziah.Sqlite.Abstract.{
  put_if, hit, jobs_dict, one_row, lookup-jobs_dict, count-one_row, jobs_dict-update_where,
}

-- A job that passes the test is there afterwards.
lookup-put_if :
    (key : String) (c : Job → Bool) (g : Job → Job) (m : Dict String Job)
    → hit key c m ≡ true
    → lookup key (put_if key c g m) ≢ none
lookup-put_if key c g m h = go (lookup key m) refl h
  where
    go :
        (found : Option Job)
        → lookup key m ≡ found
        → (elim found [ none ↦ false | some job ↦ c job ]) ≡ true
        → lookup key
            (elim found [ none ↦ m | some job ↦ if c job then insert key (g job) m else m ])
          ≢ none
    go none e k = cc
    go (some job) e k = λ gone. absurd (some_none (sym (there job k) ∙ gone))
      where
        there :
            (job : Job)
            → c job ≡ true
            → lookup key (if c job then insert key (g job) m else m) ≡ some (g job)
        there job k = rw k (lookup-insert key key (g job) m ∙ rw (eq_self key) refl)

        some_none : {a : Job} → some a ≢ none
        some_none e = cc

module _ (C : Codec) (db : Db C) (distinct : Distinct (ids_of C db.jobs)) (key : String)
    (c : Job → Bool) (f : Row C → Row C) (g : Job → Job)
    (sends : (row : Row C) → to_job C (f row) ≡ g (to_job C row))
    (same_id : (row : Row C) → (f row).job_id ≡ row.job_id) where
  abbrev updated : Db C
  updated = update_jobs C (one_row C key c f) f db

  updated-there :
      hit key c (jobs_dict C db.jobs) ≡ true → first_where (has_id C key) updated.jobs ≢ none
  updated-there h gone = lookup-put_if key c g (jobs_dict C db.jobs) h (
      ap (lookup key) (sym (jobs_dict-update_where C key c f g sends same_id db.jobs distinct))
      ∙ (lookup-jobs_dict C key updated.jobs
          ∙ ap (λ (o : Option (Row C)). elim o [ none ↦ none | some row ↦ some (to_job C row) ])
              gone))

  -- `owned_update` is an assignment to the job, if the job passes the test.
  pub owned_update-Does :
      (kind : EventKind) (now : ℕ) (detail : Job → Fields)
      → let r = owned_update C (one_row C key c f) f key kind now detail db in
        (r.0 ≡ ok (hit key c (jobs_dict C db.jobs)))
        × (jobs_dict C r.1.jobs ≡ put_if key c g (jobs_dict C db.jobs))
  unfolding owned_update require_job job_row emit
  owned_update-Does kind now detail =
      go (nat_eqb (rowcount C (one_row C key c f) db) 1) (count-one_row C key c f db.jobs distinct)
        (first_where (has_id C key) updated.jobs) updated-there
    where
      stored : jobs_dict C updated.jobs ≡ put_if key c g (jobs_dict C db.jobs)
      stored = jobs_dict-update_where C key c f g sends same_id db.jobs distinct

      go :
          (one : Bool)
          → one ≡ hit key c (jobs_dict C db.jobs)
          → (found : Option (Row C)) → (hit key c (jobs_dict C db.jobs) ≡ true → found ≢ none)
          → let read : Result Job = elim found [
            | none ↦ err Error.not_found
            | some row ↦ ok (to_job C row)
          ] in
            let r : Result Bool × Db C = if not one then (ok false, updated) else elim read [
              | err e ↦ (err e, updated)
              | ok job ↦ (ok true, emit C kind now (some key) job.batch_id (detail job) updated)
            ] in
            (r.0 ≡ ok (hit key c (jobs_dict C db.jobs)))
            × (jobs_dict C r.1.jobs ≡ put_if key c g (jobs_dict C db.jobs))
      go false e found there = (ap (λ b. ok b) e, stored)
      go true e none there = absurd (there (sym e) refl)
      go true e (some row) there = (ap (λ b. ok b) e, stored)
