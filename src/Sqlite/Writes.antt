-- ===== src/Sqlite/Writes.antt =====
-- The writes of a worker that holds a lease: the durable queue of src/keziah/queue/sqlite.py refines
-- the in-memory queue of src/keziah/queue/memory.py.
use keziah.Base.{
  ℕ, nat_eqb, arith, ◌≡◌, refl, sym, ap, subst, ◌∙◌, String, Bool, true, false, ◌&&◌, Option, none,
  some, if◌then◌else◌, Distinct, Dict, lookup, insert, ◌==◌, string_eq, option_eq,
}
use keziah.Types.{State, Job, Fields, end, field, num, str, state_is}
use keziah.Base.Int.{pos}
use keziah.Memory.{
  Memory, Result, ok, EventKind, emit, emit_job, put, index_remove, failed_job, finish_failure,
  attempt_detail, code_detail,
}
use keziah.Memory.Lease.{holds_lease, extended_job, running_job}
use keziah.Memory.Lease as InMemoryLease
use keziah.Memory.Settle.{Completion, Retry, completed_job, retrying_job}
use keziah.Memory.Settle as InMemorySettle
use keziah.Sqlite.Rows.{Codec, IsCodec, Row, to_job, maybe_loads-dumps}
use keziah.Sqlite.{Db, Body, tx, update_jobs, rowcount}
use keziah.Sqlite.Statements.{update_where}
use keziah.Sqlite.Lease.{ids_of, owned_where, held_where, owned_update, extended_row, running_row}
use keziah.Sqlite.Lease
use keziah.Sqlite.Settle.{completed_row, failed_row, retrying_row, fail_owned, failure_kind}
use keziah.Sqlite.Settle
use keziah.Sqlite.Atomic.{tx-runs}
use keziah.Sqlite.Abstract.{put_if, hit, jobs_dict, one_row, count-one_row, jobs_dict-update_where}
use keziah.Sqlite.Refines.{owned_update-Does}

-- The memory's side: an operation on the job under a key, if it passes a test.
memory_does :
    (s : Memory) (key : String) (c : Job → Bool) (g : Job → Job) (F : Job → Memory)
    → ((job : Job) → c job ≡ true → (F job).jobs ≡ insert key (g job) s.jobs)
    → let r : Bool × Memory = elim (lookup key s.jobs) [
      | none ↦ (false, s)
      | some job ↦ if c job then (true, F job) else (false, s)
    ] in
      (r.0 ≡ hit key c s.jobs) × (r.1.jobs ≡ put_if key c g s.jobs)
memory_does s key c g F stores = go (lookup key s.jobs)
  where
    go :
        (found : Option Job)
        → let r : Bool × Memory = elim found [
          | none ↦ (false, s)
          | some job ↦ if c job then (true, F job) else (false, s)
        ] in
          (r.0 ≡ (elim found [ none ↦ false | some job ↦ c job ]))
          × (r.1.jobs ≡ (elim found [
            | none ↦ s.jobs
            | some job ↦ if c job then insert key (g job) s.jobs else s.jobs
          ]))
    go none = (refl, refl)
    go (some job) = test (c job) refl
      where
        test :
            (b : Bool)
            → c job ≡ b
            → let r : Bool × Memory = if b then (true, F job) else (false, s) in
              (r.0 ≡ c job) × (r.1.jobs ≡ (if b then insert key (g job) s.jobs else s.jobs))
        test true e = (sym e, stores job e)
        test false e = (sym e, refl)

module _ (C : Codec) where
  -- The two queues give one answer, and leave the same jobs.
  abbrev pub Agree : Result Bool × Db C → Bool × Memory → Type 0
  Agree r m = (r.0 ≡ ok m.0) × (jobs_dict C r.1.jobs ≡ m.1.jobs)

  joined :
      (key : String) (c : Job → Bool) (g : Job → Job) (r : Result Bool × Db C) (m : Bool × Memory)
      (rows jobs : Dict String Job)
      → rows ≡ jobs
      → (r.0 ≡ ok (hit key c rows)) × (jobs_dict C r.1.jobs ≡ put_if key c g rows)
      → (m.0 ≡ hit key c jobs) × (m.1.jobs ≡ put_if key c g jobs)
      → Agree r m
  joined key c g r m rows jobs e (a, b) (p, q) = (
    a ∙ (ap (λ d. ok (hit key c d)) e ∙ ap (λ x. ok x) (sym p)),
    b ∙ (ap (put_if key c g) e ∙ sym q),
  )

-- A transaction around a body that agrees agrees.
pub in_tx :
    (C : Codec) (db : Db C) (busy : ℕ → Bool) (body : Body C Bool) (m : Bool × Memory)
    → db.closed ≡ false
    → busy 0 ≡ false
    → Agree C (body db) m
    → Agree C (tx C busy body db) m
in_tx C db busy body m running free (a, b) =
    subst (λ r. Agree C r m) (sym (tx-runs C body db busy m.0 running free a)) (refl, b)

module _ (C : Codec) (codec : IsCodec C) (db : Db C) (s : Memory) (busy : ℕ → Bool)
    (running : db.closed ≡ false) (free : busy 0 ≡ false) (distinct : Distinct (ids_of C db.jobs))
    (same : jobs_dict C db.jobs ≡ s.jobs) (key owner : String) (now : ℕ) where
  abbrev owned : State → Job → Bool
  owned state job = state_is job.state state && job.lease_owner == some owner

  agrees :
      (c : Job → Bool) (f : Row C → Row C) (g : Job → Job) (kind : EventKind)
      (detail : Job → Fields) (m : Bool × Memory)
      → ((row : Row C) → to_job C (f row) ≡ g (to_job C row))
      → ((row : Row C) → (f row).job_id ≡ row.job_id)
      → (m.0 ≡ hit key c s.jobs) × (m.1.jobs ≡ put_if key c g s.jobs)
      → Agree C (tx C busy (owned_update C (one_row C key c f) f key kind now detail) db) m
  agrees c f g kind detail m sends same_id q =
      in_tx C db busy (owned_update C (one_row C key c f) f key kind now detail) m running free (
        joined C key c g (owned_update C (one_row C key c f) f key kind now detail db) m
          (jobs_dict C db.jobs) s.jobs same
          (owned_update-Does C db distinct key c f g sends same_id kind now detail) q)

  complete-Agree :
      (c : Completion)
      → Agree C
          (Settle.complete C busy key owner c now db)
          (InMemorySettle.complete key owner c now s)
  unfolding Settle.complete InMemorySettle.complete completed_row completed_job emit
  complete-Agree c =
      agrees (owned State.running) (completed_row C c now) (completed_job c now) EventKind.succeeded
        (λ job. end) (InMemorySettle.complete key owner c now s)
        (λ row. λ i. record (completed_job c now (to_job C row)) {
          result = codec.loads-dumps c.result i;
        })
        (λ row. refl)
        (memory_does s key (owned State.running) (completed_job c now)
          (λ job. emit_job EventKind.succeeded now job end (put key (completed_job c now job) s))
          (λ job h. refl))

  fail-Agree :
      (error : Fields) (dead_letter : Bool)
      → Agree C
          (Settle.fail C busy key owner error dead_letter now db)
          (InMemorySettle.fail key owner error dead_letter now s)
  unfolding Settle.fail fail_owned InMemorySettle.fail finish_failure failed_row failed_job emit
  fail-Agree error dead_letter =
      agrees (owned State.running) (failed_row C error dead_letter now)
        (failed_job error dead_letter now) (failure_kind C dead_letter) (λ job. code_detail error)
        (InMemorySettle.fail key owner error dead_letter now s)
        (λ row. λ i. record (failed_job error dead_letter now (to_job C row)) {
          error = codec.loads-dumps error i;
        })
        (λ row. refl)
        (memory_does s key (owned State.running) (failed_job error dead_letter now)
          (λ job. finish_failure error dead_letter now false key job s)
          (λ job h. ground (arith, h)))

  retry-Agree :
      (r : Retry)
      → Agree C (Settle.retry C busy key owner r now db) (InMemorySettle.retry key owner r now s)
  unfolding Settle.retry InMemorySettle.retry retrying_row retrying_job emit
  retry-Agree r =
      agrees (owned State.running) (retrying_row C r now) (retrying_job r now)
        EventKind.retry_scheduled
        (λ job.
          field "not_before" (num (pos r.not_before)) (field "model" (str r.resolved_model) end))
        (InMemorySettle.retry key owner r now s)
        (λ row. λ i. record (retrying_job r now (to_job C row)) {
          error = codec.loads-dumps r.error i;
          fallback = maybe_loads-dumps C codec r.fallback i;
        })
        (λ row. refl)
        (memory_does s key (owned State.running) (retrying_job r now)
          (λ job.
            emit_job EventKind.retry_scheduled now job
              (field "not_before" (num (pos r.not_before)) end)
              (index_remove key (put key (retrying_job r now job) s)))
          (λ job h. refl))

  mark_running-Agree :
      (lease_until : ℕ)
      → Agree C
          (Lease.mark_running C busy key owner lease_until now db)
          (InMemoryLease.mark_running key owner lease_until now s)
  unfolding Lease.mark_running InMemoryLease.mark_running running_row running_job emit
  mark_running-Agree lease_until =
      agrees (owned State.leased) (running_row C lease_until now) (running_job lease_until now)
        EventKind.started attempt_detail (InMemoryLease.mark_running key owner lease_until now s)
        (λ row. refl) (λ row. refl)
        (memory_does s key (owned State.leased) (running_job lease_until now)
          (λ job.
            emit_job EventKind.started now job (attempt_detail job)
              (put key (running_job lease_until now job) s))
          (λ job h. refl))

  extend_lease-Agree :
      (lease_until : ℕ)
      → Agree C
          (Lease.extend_lease C busy key owner lease_until now db)
          (InMemoryLease.extend_lease key owner lease_until now s)
  unfolding Lease.extend_lease InMemoryLease.extend_lease extended_row extended_job update_where
  extend_lease-Agree lease_until =
      in_tx C db busy extended (InMemoryLease.extend_lease key owner lease_until now s) running free
        (joined C key held (extended_job lease_until now) (extended db)
          (InMemoryLease.extend_lease key owner lease_until now s) (jobs_dict C db.jobs) s.jobs same
          (
            ap (λ b. ok b)
                (count-one_row C key held (extended_row C lease_until now) db.jobs distinct),
            jobs_dict-update_where C key held (extended_row C lease_until now)
                (extended_job lease_until now) (λ row. refl) (λ row. refl) db.jobs distinct,
          )
          (memory_does s key held (extended_job lease_until now)
            (λ job. put key (extended_job lease_until now job) s) (λ job h. refl)))
    where
      held : Job → Bool
      held job = holds_lease owner job

      extended : Body C Bool
      extended t = (
        ok (nat_eqb (rowcount C (held_where C key owner) t) 1),
        update_jobs C (held_where C key owner) (extended_row C lease_until now) t,
      )

  -- The writes of the worker that holds a lease.
  pub writes-Agree :
      (c : Completion) (error : Fields) (dead_letter : Bool) (r : Retry) (lease_until : ℕ)
      → Agree C
          (Settle.complete C busy key owner c now db)
          (InMemorySettle.complete key owner c now s)
        × Agree C
            (Settle.fail C busy key owner error dead_letter now db)
            (InMemorySettle.fail key owner error dead_letter now s)
        × Agree C (Settle.retry C busy key owner r now db) (InMemorySettle.retry key owner r now s)
        × Agree C
            (Lease.mark_running C busy key owner lease_until now db)
            (InMemoryLease.mark_running key owner lease_until now s)
        × Agree C
            (Lease.extend_lease C busy key owner lease_until now db)
            (InMemoryLease.extend_lease key owner lease_until now s)
  writes-Agree c error dead_letter r lease_until = (
    complete-Agree c,
    fail-Agree error dead_letter,
    retry-Agree r,
    mark_running-Agree lease_until,
    extend_lease-Agree lease_until,
  )
