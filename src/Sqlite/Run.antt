-- ===== src/Sqlite/Run.antt =====
-- The histories of a database of src/keziah/queue/sqlite.py: every method that writes, one after the
-- other, each with its own attempts to begin a transaction.
pub mod Kept
use keziah.Base.{
  ℕ, ◌+◌, ◌≡◌, refl, String, Bool, true, false, not, Option, none, some, List, [], ◌∷◌, nat_eqb,
  if◌then◌else◌, split_if, keep, take, length, sort_by, Distinct, ◌==◌, string_eq, ◌&&◌, ltb,
}
use keziah.Types.{State, Job, Batch, Fields, is_staging, is_held}
use keziah.Memory.{Limits, EventKind, Result, ok, err}
use keziah.Memory.Settle.{Completion, Retry}
use keziah.Scheduler.Numbers.{Float}
use keziah.Scheduler.{Weights, PickerState}
use keziah.Sqlite.Rows.{Codec, Row}
use keziah.Sqlite.Statements.{delete_where}
use keziah.Sqlite.{Db, EventRow, delete_jobs, update_jobs, row_claimable}
use keziah.Sqlite.Lease
use keziah.Sqlite.Lease.{ids_of}
use keziah.Sqlite.Settle
use keziah.Sqlite.Submit
use keziah.Sqlite.Batches
use keziah.Sqlite.Maintain

module _ (C : Codec) (F : Float) (settings : Weights F) where
  -- A call of a method that writes, with the arguments of that method.
  pub data Request : Type 0 where
    enqueues : Job → Request
    begins : Batch → Request
    stages : String → List Job → Request
    activates : String → Option String → Option String → Request
    aborts : String → Request
    opens : Request
    claims : String → String → ℕ → Request
    picks : (model owner : String) (until limit : ℕ) → PickerState F → Request
    gathers : (model questions_hash : String) → List String → ℕ → String → ℕ → Request
    extends starts : (job_id owner : String) → ℕ → Request
    completes : (job_id owner : String) → Completion → Request
    fails : (job_id owner : String) → Fields → Bool → Request
    retries : (job_id owner : String) → Retry → Request
    stops : (job_id owner : String) → Request
    cancels cancels_batch requeues : String → Request
    releases : (job_id owner : String) → Option String → Bool → EventKind → Request
    releases_all : String → Request
    maintains : Request
    cleans : ℕ → ℕ → ℕ → Request
    closes : Request

  -- The tables after a call at a time.
  unfoldable pub apply : (ℕ → Bool) → ℕ → Request → Db C → Db C
  unfolding Submit.enqueue Batches.begin_batch Batches.stage_jobs Batches.activate_batch
      Batches.abort_batch Batches.abort_orphans Lease.claim_by_id Lease.claim_next
      Lease.claim_compatible Lease.extend_lease Lease.mark_running Settle.complete Settle.fail
      Settle.retry Settle.finish_cancel Settle.cancel Settle.cancel_batch Settle.requeue
      Settle.release_to_queue Settle.release_leases Maintain.maintenance Maintain.cleanup
      Settle.close
  apply busy now (enqueues job) db = (Submit.enqueue C busy job db).1
  apply busy now (begins batch) db = (Batches.begin_batch C busy batch db).1
  apply busy now (stages batch_id jobs) db = (Batches.stage_jobs C busy batch_id jobs db).1
  apply busy now (activates batch_id key hash) db =
      (Batches.activate_batch C busy batch_id key hash now db).1
  apply busy now (aborts batch_id) db = (Batches.abort_batch C busy batch_id db).1
  apply busy now opens db = (Batches.abort_orphans C busy db).1
  apply busy now (claims job_id owner until) db =
      (Lease.claim_by_id C busy job_id owner until now db).1
  apply busy now (picks model owner until limit picker) db =
      (Lease.claim_next C F settings model owner until now busy limit picker db).1
  apply busy now (gathers model hash exclude limit owner until) db =
      (Lease.claim_compatible C busy model hash exclude limit now owner until db).1
  apply busy now (extends job_id owner until) db =
      (Lease.extend_lease C busy job_id owner until now db).1
  apply busy now (starts job_id owner until) db =
      (Lease.mark_running C busy job_id owner until now db).1
  apply busy now (completes job_id owner c) db = (Settle.complete C busy job_id owner c now db).1
  apply busy now (fails job_id owner error dead) db =
      (Settle.fail C busy job_id owner error dead now db).1
  apply busy now (retries job_id owner r) db = (Settle.retry C busy job_id owner r now db).1
  apply busy now (stops job_id owner) db = (Settle.finish_cancel C busy job_id owner now db).1
  apply busy now (cancels job_id) db = (Settle.cancel C busy job_id now db).1
  apply busy now (cancels_batch batch_id) db = (Settle.cancel_batch C busy batch_id now db).1
  apply busy now (requeues job_id) db = (Settle.requeue C busy job_id now db).1
  apply busy now (releases job_id owner model decrement kind) db =
      (Settle.release_to_queue C busy job_id owner now model decrement kind db).1
  apply busy now (releases_all prefix) db = (Settle.release_leases C busy prefix now db).1
  apply busy now maintains db = (Maintain.maintenance C busy now db).1
  apply busy now (cleans success failure event) db =
      (Maintain.cleanup C busy success failure event db).1
  apply busy now closes db = Settle.close C db

  -- An empty database, as the migrations leave it.
  abbrev pub empty : Limits → Db C
  empty limits = record {
    limits = limits;
    jobs = [];
    batches = [];
    events = [];
    event_id = 0;
    closed = false;
  }

  unfoldable pub run : List ((ℕ → Bool) × (ℕ × Request)) → Db C → Db C
  unfolding apply
  run [] db = db
  run ((busy, (now, request)) ∷ rest) db = run rest (apply busy now request db)
