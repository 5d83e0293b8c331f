-- ===== src/Memory/Maintain.antt =====
-- `maintenance`, `_expire_lease` and `cleanup` of src/keziah/queue/memory.py, and the report of
-- src/keziah/queue/backend.py.
use keziah.Base.{
  ℕ, suc, ◌-◌, String, Bool, true, false, ◌&&◌, ◌||◌, Option, none, some, List, [], ◌∷◌, ◌++◌, ltb,
  leb, if◌then◌else◌, Dict, keys, keep, contains, length, string_eq, option_eq,
}
use keziah.Types.{State, Job, Fields, end, field, str, bool, is_held, is_incomplete, state_is}
use keziah.Memory.{
  Memory, EventKind, Event, emit, emit_job, attempt_detail, put, index_add, for_each, is_due,
  mark_cancelled, finish_failure,
}
use keziah.Memory.Batches.{forget_job}

-- `Maintenance`.
pub record Report : Type 0 where
  pub requeued : List String
  pub finished : List String
  pub recovered : ℕ
  pub promoted : ℕ
  pub dead_lettered : ℕ
  pub expired_cancelled : ℕ
  pub deadlines : ℕ

abbrev pub empty_report : Report
empty_report = record {
  requeued = [];
  finished = [];
  recovered = 0;
  promoted = 0;
  dead_lettered = 0;
  expired_cancelled = 0;
  deadlines = 0;
}

abbrev pub lease_error : Fields
lease_error = field "code" (str "lease_expired") (
    field "message" (str "lease expired after the last attempt")
      (field "retryable" (bool true) end))

abbrev pub deadline_error : Fields
deadline_error =
    field "code" (str "deadline") (
      field "message" (str "deadline passed before execution") (field "retryable" (bool false) end))

-- The head of `_expire_lease`: the lease is taken off the job.
unfoldable pub unleased_job : ℕ → Job → Job
unleased_job now job = record job { lease_owner = none; lease_expires_at = none; updated_at = now }

-- A job back in the queue: the end of `_expire_lease`, and a retry that is due.
unfoldable pub queued_job : ℕ → Job → Job
queued_job now job = record job { state = State.queued; updated_at = now }

-- `_expire_lease`.
unfoldable pub expire_lease : ℕ → String → Job → Memory × Report → Memory × Report
unfolding emit unleased_job queued_job mark_cancelled finish_failure
expire_lease now key job (s, report) =
    let bare = unleased_job now job in
    let t = put key bare (emit_job EventKind.lease_expired now job (attempt_detail job) s) in
    if job.cancel_requested
    then (
      mark_cancelled now key bare t,
      record report {
        expired_cancelled = suc report.expired_cancelled;
        finished = report.finished ++ job.job_id ∷ [];
      },
    )
    else if leb job.max_attempts job.attempt_count
    then (
      finish_failure lease_error true now true key bare t,
      record report {
        dead_lettered = suc report.dead_lettered;
        finished = report.finished ++ job.job_id ∷ [];
      },
    )
    else (
      index_add (queued_job now bare) (put key (queued_job now bare) t),
      record report {
        recovered = suc report.recovered;
        requeued = report.requeued ++ job.job_id ∷ [];
      },
    )

-- `job.not_before is None or job.not_before <= now_iso`.
abbrev pub is_ripe : Option ℕ → ℕ → Bool
is_ripe none now = true
is_ripe (some t) now = leb t now

abbrev pub is_idle : State → Bool
is_idle State.queued = true
is_idle State.retry_wait = true
is_idle State.staged = true
is_idle _ = false

-- The loop body of `maintenance`.
unfoldable pub maintain_turn : ℕ → String → Job → Memory × Report → Memory × Report
unfolding expire_lease
maintain_turn now key job (s, report) =
    if is_held job.state && is_due job.lease_expires_at now
    then expire_lease now key job (s, report)
    else if state_is job.state State.retry_wait && is_ripe job.not_before now
    then (
      emit_job EventKind.promoted now job end
          (index_add (queued_job now job) (put key (queued_job now job) s)),
      record report {
        promoted = suc report.promoted;
        requeued = report.requeued ++ job.job_id ∷ [];
      },
    )
    else if state_is job.state State.queued && is_due job.deadline_at now
    then (
      finish_failure deadline_error false now true key job s,
      record report {
        deadlines = suc report.deadlines;
        finished = report.finished ++ job.job_id ∷ [];
      },
    )
    else if is_idle job.state && job.cancel_requested
    then (
      mark_cancelled now key job s,
      record report {
        expired_cancelled = suc report.expired_cancelled;
        finished = report.finished ++ job.job_id ∷ [];
      },
    )
    else (s, report)

unfoldable pub maintenance : ℕ → Memory → Report × Memory
unfolding maintain_turn
maintenance now s =
    let r = for_each (keys s.jobs) (maintain_turn now) (s, empty_report) in (r.1, r.0)

-- The test of `cleanup` on a job.
unfoldable pub is_stale : ℕ → ℕ → Job → Bool
is_stale success_before failure_before job =
    if is_incomplete job.state then false else elim job.finished_at [
      | none ↦ false
      | some t ↦
          ltb t (if state_is job.state State.succeeded then success_before else failure_before)
    ]

unfoldable pub cleanup_turn : ℕ → ℕ → String → Job → Memory × ℕ → Memory × ℕ
unfolding is_stale forget_job
cleanup_turn success_before failure_before key job (s, removed) =
    if is_stale success_before failure_before job
    then (forget_job key job s, suc removed)
    else (s, removed)

-- `item["job_id"] in self._jobs`; an event of no job is in none.
abbrev pub about_known : Dict String Job → Option String → Bool
about_known jobs none = false
about_known jobs (some id) = contains (keys jobs) id

-- `cleanup` returns the numbers of jobs and of events removed.
unfoldable pub cleanup : ℕ → ℕ → ℕ → Memory → (ℕ × ℕ) × Memory
unfolding cleanup_turn
cleanup success_before failure_before event_before s =
    let r = for_each (keys s.jobs) (cleanup_turn success_before failure_before) (s, 0) in
    let t = r.0 in
    let kept =
      keep (λ (e : Event). leb event_before e.at || about_known t.jobs e.job_id) t.events in
    ((r.1, length t.events - length kept), record t { events = kept })
