-- ===== src/Service/Answered.antt =====
-- A turn of a worker, `_execute` of src/keziah/service.py, with one claimed job that is answered.
use keziah.Base.{ℕ, ◌≡◌, String, Bool, false, Option, some, lookup, string_eq, option_eq}
use keziah.Types.{State, Job, Fields}
use keziah.Memory.{Memory, is_due}
use keziah.Memory.Lease.{mark_running, running_job}
use keziah.Memory.Settle.{Completion, completed_job}
use keziah.Adapters.{ModelHealth}
use keziah.Registry.{Settings}
use keziah.Service.Targets.{Target, runs, execution_target}
use keziah.Service.Execute.{Reply, Work, after, completion_of, add_commit}

module _ (health : String → ModelHealth) (settings : Settings) (message : Target → String)
    (backoff : Job → ℕ) (lost : String → Bool) (owner model_id : String)
    (now lease_until commit_ms : ℕ) (job : Job) (reply : Reply) where
  -- The job once it runs.
  abbrev pub running_now : Job
  running_now = running_job lease_until now job

  -- What `complete` is given.
  abbrev completion_now : Completion
  completion_now =
      completion_of health settings message backoff lost owner model_id now lease_until commit_ms
        running_now reply

  -- The job as it ends: completed, with the commit time among the timings of its result.
  abbrev pub answered_job : Job
  answered_job = record (completed_job completion_now now running_now) {
    result = some (add_commit commit_ms completion_now.result);
  }

module _ (health : String → ModelHealth) (settings : Settings) (message : Target → String)
    (backoff : Job → ℕ) (lost : String → Bool) (owner model_id : String)
    (now lease_until commit_ms : ℕ) (job : Job) (reply : Reply) (w : Work)
    (there : lookup job.job_id w.queue.jobs ≡ some job) (leased : job.state ≡ State.leased)
    (held : job.lease_owner ≡ some owner) (wanted : job.cancel_requested ≡ false)
    (early : is_due job.deadline_at now ≡ false) (fallback : Option Fields)
    (target : execution_target health settings (running_job lease_until now job)
      ≡ runs model_id fallback) where
  abbrev running : Job
  running =
      running_now health settings message backoff lost owner model_id now lease_until commit_ms job
        reply

  abbrev completion : Completion
  completion =
      completion_now health settings message backoff lost owner model_id now lease_until commit_ms
        job reply

  marked : Work
  marked = after (mark_running job.job_id owner lease_until now w.queue) w

  abbrev ended : Job
  ended =
      answered_job health settings message backoff lost owner model_id now lease_until commit_ms job
        reply
