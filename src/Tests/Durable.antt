-- ===== src/Tests/Durable.antt =====
-- Runs of the theorems on the durable queue. A text of the tables is the fields that it stands for.
use keziah.Base.{
  List, Option, insert, erase, ℕ, nat_eqb, ◌≡◌, refl, true, false, none, some, [], ◌∷◌, lookup,
  contains, Distinct, string_eq, Bool, if◌then◌else◌,
}
use keziah.Types.{State, BatchStatus, Job, Fields, end, field, str}
use keziah.Memory.{Memory, Result, ok, err, Error, EventKind}
use keziah.Memory.Lease.{claimed_job}
use keziah.Memory.Settle.{Completion, Retry}
use keziah.Memory.Lease as InMemoryLease
use keziah.Memory.Settle as InMemorySettle
use keziah.Memory.Run.{init}
use keziah.Sqlite.Rows.{Codec, IsCodec, row_of}
use keziah.Sqlite.{Db, Body, Connection, Commit, commits, fails}
use keziah.Sqlite.Lease
use keziah.Sqlite.Lease.{ids_of, claim_by_id, claim_sql}
use keziah.Sqlite.Settle
use keziah.Sqlite.Batches.{stage_jobs, stage_jobs_run}
use keziah.Sqlite.Read.{get_stats, ready_candidates}
use keziah.Sqlite.Stats.{get_stats-same}
use keziah.Memory.Read as InMemoryRead
use keziah.Sqlite.Abstract.{jobs_dict, put_if}
use keziah.Sqlite.Writes.{Agree, writes-Agree}
use keziah.Sqlite.Releases.{releases-Agree, requeue-same}
use keziah.Sqlite.Claim.{claimed_at, open_job, claim_by_id-claimable, claim_by_id-claim_sql}
use keziah.Sqlite.Run.{Request, run, empty, enqueues}
use keziah.Ready.{empty_index, rebuild, add, pop_dead, heappush}
use keziah.Scheduler.{PickerState, select, max_by}
use keziah.Hybrid.{Hybrid, claim_next, claim_loop, maybe_reconcile, reconcile, relist_ready}
use keziah.Hybrid.Durable.{durable, Ends, claim_next-Ends}
use keziah.Tests.Data.{whole, weights, fresh_picker, limits, first_job}

abbrev plain : Codec
plain = record { Text = Fields; dumps = λ m. m; loads = λ m. some m }

plain-IsCodec : IsCodec plain
plain-IsCodec = record { loads-dumps = λ m. refl }

-- A table with one running job and one that waits, and the same jobs in memory.
abbrev running_one : Job
running_one = record first_job {
  state = State.running;
  lease_owner = some "w:1";
  attempt_count = 1;
}

abbrev waiting_one : Job
waiting_one = record first_job { job_id = "b2"; idempotency_key = none }

abbrev tables : Db plain
tables = record {
  limits = limits;
  jobs = row_of plain running_one ∷ row_of plain waiting_one ∷ [];
  batches = [];
  events = [];
  event_id = 0;
  closed = false;
}

abbrev in_memory : Memory
in_memory = record (init limits) { jobs = ("a1", running_one) ∷ ("b2", waiting_one) ∷ [] }

tables-Distinct : Distinct (ids_of plain tables.jobs)
unfolding contains
tables-Distinct = (refl, (refl, tt))

abbrev never : ℕ → Bool
never n = false

abbrev done : Completion
done = record {
  result = field "answer" (str "yes") end;
  model_version = some "v1";
  queue_ms = some 1;
  execution_ms = some 2;
  total_ms = some 3;
}

abbrev again : Retry
again = record {
  error = field "code" (str "timeout") end;
  not_before = 60;
  resolved_model = "other";
  fallback = none;
}

writes-Agree_example :
    Agree plain
      (Settle.complete plain never "a1" "w:1" done 20 tables)
      (InMemorySettle.complete "a1" "w:1" done 20 in_memory)
    × Agree plain
        (Settle.fail plain never "a1" "w:1" again.error true 20 tables)
        (InMemorySettle.fail "a1" "w:1" again.error true 20 in_memory)
    × Agree plain
        (Settle.retry plain never "a1" "w:1" again 20 tables)
        (InMemorySettle.retry "a1" "w:1" again 20 in_memory)
    × Agree plain
        (Lease.mark_running plain never "a1" "w:1" 50 20 tables)
        (InMemoryLease.mark_running "a1" "w:1" 50 20 in_memory)
    × Agree plain
        (Lease.extend_lease plain never "a1" "w:1" 50 20 tables)
        (InMemoryLease.extend_lease "a1" "w:1" 50 20 in_memory)
writes-Agree_example =
    writes-Agree plain plain-IsCodec tables in_memory never refl refl tables-Distinct refl "a1"
      "w:1" 20 done again.error true again 50

releases-Agree_example :
    Agree plain
      (Settle.finish_cancel plain never "a1" "w:1" 20 tables)
      (InMemorySettle.finish_cancel "a1" "w:1" 20 in_memory)
    × Agree plain
        (Settle.release_to_queue plain never "a1" "w:1" 20 none true EventKind.released tables)
        (InMemorySettle.release_to_queue "a1" "w:1" 20 none true EventKind.released in_memory)
releases-Agree_example =
    releases-Agree plain tables in_memory never refl refl tables-Distinct refl "a1" "w:1" 20 none
      true EventKind.released

requeue-same_example :
    ((Settle.requeue plain never "a1" 20 tables).0 ≡ (InMemorySettle.requeue "a1" 20 in_memory).0)
    × (jobs_dict plain (Settle.requeue plain never "a1" 20 tables).1.jobs
        ≡ (InMemorySettle.requeue "a1" 20 in_memory).1.jobs)
requeue-same_example =
    requeue-same plain tables in_memory never refl refl tables-Distinct refl "a1" "w:1" 20

-- A chunk whose second job has the id of the first: the first one is inserted before the second fails.
abbrev staged_one : Job
staged_one = record first_job {
  job_id = "c3";
  batch_id = some "batch";
  state = State.staged;
  idempotency_key = none;
}

abbrev open_batch : Db plain
open_batch = record tables {
  jobs = [];
  batches =
      record {
        batch_id = "batch";
        client_id = "ann";
        status = BatchStatus.staging;
        requested_model = none;
        job_count = 0;
        created_at = 10;
        activated_at = none;
        idempotency_key = none;
        idempotency_hash = none;
        deadline_at = none;
      }
      ∷ [];
}

clash :
    (stage_jobs plain never "batch" (staged_one ∷ staged_one ∷ []) open_batch).0
    ≡ err Error.integrity_error
unfolding stage_jobs
clash = refl

abbrev connected : Connection plain
connected = record { db = open_batch; in_transaction = false }

-- A full disk at the first commit.
abbrev no_space : ℕ → Commit
no_space n = if nat_eqb n 0 then fails else commits

abbrev one_job : Body plain ℕ
one_job = stage_jobs_run plain "batch" (staged_one ∷ [])

claim_by_id-claimable_example :
    ((claim_by_id plain never "b2" "w:2" 40 20 tables).0
      ≡ ok (
          claimed_at plain 20
            (open_job plain 20 tables)
            (claimed_job "w:2" 40 20)
            (lookup "b2" (jobs_dict plain tables.jobs))))
    × (jobs_dict plain (claim_by_id plain never "b2" "w:2" 40 20 tables).1.jobs
        ≡ put_if "b2"
            (open_job plain 20 tables)
            (claimed_job "w:2" 40 20)
            (jobs_dict plain tables.jobs))
claim_by_id-claimable_example =
    claim_by_id-claimable plain 20 "b2" "w:2" 40 tables tables-Distinct never refl refl

wins :
    (claim_by_id plain never "b2" "w:2" 40 20 tables).0
    ≡ ok (some (claimed_job "w:2" 40 20 waiting_one))
unfolding claim_by_id claimed_job
wins = refl

claim_by_id-claim_sql_example :
    (claim_sql plain "b2" "w:3" 90 30 (claim_by_id plain never "b2" "w:2" 40 20 tables).1).0 ≡ false
claim_by_id-claim_sql_example =
    claim_by_id-claim_sql plain "b2" "w:2" 40 20 tables never (claimed_job "w:2" 40 20 waiting_one)
      tables-Distinct refl refl "w:3" 90 30 wins

get_stats-same_example : get_stats plain tables ≡ ok (InMemoryRead.get_stats in_memory)
unfolding init
get_stats-same_example = get_stats-same plain tables in_memory refl refl refl

-- A job is submitted, and the database is locked at the first attempt.
abbrev once : ℕ → Bool
once n = nat_eqb n 0

abbrev life : List ((ℕ → Bool) × (ℕ × Request plain whole weights))
life = (once, (10, enqueues first_job)) ∷ []

abbrev lived : Db plain
lived = run plain whole weights life (empty plain whole weights limits)

-- The index is empty, and the queue reconciles first.
abbrev hybrid : Hybrid (Db plain)
hybrid = record { db = tables; interval = 5; index = empty_index; reconciled_at = 0 }

abbrev job_of : Result (Option Job × PickerState whole) → Option Job
job_of (ok (found, picker)) = found
job_of (err e) = none

hybrid_claims :
    job_of
      (claim_next (durable plain never) whole weights "mock" "w:2" 40 20 9 fresh_picker hybrid).0
    ≡ some (claimed_job "w:2" 40 20 waiting_one)
unfolding claim_next claimed_job claim_loop maybe_reconcile reconcile relist_ready ready_candidates
    select rebuild add insert pop_dead heappush lookup erase max_by claim_by_id
hybrid_claims = refl

claim_next-Ends_example :
    Ends plain never whole weights "mock" "w:2" 40 20 tables tables-Distinct
      (claim_next (durable plain never) whole weights "mock" "w:2" 40 20 9 fresh_picker hybrid)
claim_next-Ends_example =
    claim_next-Ends plain never whole weights "mock" "w:2" 40 20 hybrid tables-Distinct 9
      fresh_picker
