-- ===== src/Service/Execute.antt =====
-- `_execute` and `_settle_success` of src/keziah/service.py: a worker's turn with the jobs of one claim,
-- on the in-memory queue. The calls of the queue follow each other without another thread's between
-- them. The clock is read once, as `now`, and `commit_ms` is the time that `complete` takes. What the adapter answers is a parameter, and so are the jobs
-- whose lease the heartbeat found lost, the backoff and the text of an exception.
use keziah.Base.{
  ℕ, ◌+◌, ◌-◌, String, Bool, true, false, not, Option, none, some, List, [], ◌∷◌, ◌++◌,
  if◌then◌else◌, lookup, insert, ◌==◌, string_eq,
}
use keziah.Base.Int.{pos}
use keziah.Types.{Job, Value, Fields, end, field, null, bool, num, str, dict, get}
use keziah.Memory.{Memory, EventKind, is_due}
use keziah.Memory.Read.{get_job}
use keziah.Memory.Lease.{mark_running}
use keziah.Questions.{set_field}
use keziah.Memory.Settle.{Completion, complete, fail, finish_cancel, release_to_queue}
use keziah.Adapters.{ModelHealth}
use keziah.Registry.{Settings, Outcome, done, raised, is_group, resolve}
use keziah.Service.{Failure, settle_failure, retry_target}
use keziah.Service.Targets.{Target, runs, permanent, execution_target}

-- What an adapter returns for a job, with `inference_seconds` in milliseconds.
pub record Reply : Type 0 where
  pub answers : Value
  pub usage : Value
  pub version : Option String
  pub inference_ms : ℕ

-- The queue, and the jobs that `_deliver` was called for.
pub record Work : Type 0 where
  pub queue : Memory
  pub delivered : List String

-- What `_infer_group` does with the jobs: answers, or an exception that `_as_inference_error` has
-- classified.
pub data Inference : Type 0 where
  answers_with : List Reply → Inference
  raises : Failure → Inference

abbrev pub deliver : String → Work → Work
deliver job_id w = record w { delivered = w.delivered ++ job_id ∷ [] }

-- A call of the queue.
abbrev pub after {ℓ} : {A : Type ℓ} → A × Memory → Work → Work
after r w = record w { queue = r.1 }

abbrev pub text_or_null : Option String → Value
text_or_null none = null
text_or_null (some text) = str text

-- `fallback.get(name)` of `job.fallback or {}`.
abbrev pub of_fallback : String → Option Fields → Value
of_fallback name none = null
of_fallback name (some m) = elim (get name m) [ none ↦ null | some v ↦ v ]

-- `bool(...)` of the field `used`, which is a Boolean where it is there.
abbrev pub is_used : Value → Bool
is_used (bool b) = b
is_used _ = false

abbrev pub error_of : String → String → Bool → Fields
error_of code message retryable =
    field "code" (str code) (field "message" (str message) (field "retryable" (bool retryable) end))

-- `timings["commit_ms"] = commit_ms`.
abbrev pub commit_timed : ℕ → Value → Value
commit_timed ms (dict timings) = dict (set_field "commit_ms" (num (pos ms)) timings)
commit_timed ms v = v

-- `result["timings"]["commit_ms"] = commit_ms`; the result has its timings.
unfoldable pub add_commit : ℕ → Fields → Fields
unfolding get set_field
add_commit ms result = elim (get "timings" result) [
  | none ↦ result
  | some timings ↦ set_field "timings" (commit_timed ms timings) result
]

-- The same assignment, seen in the result of the stored job.
unfoldable pub note_commit : String → ℕ → Memory → Memory
unfolding add_commit
note_commit job_id ms s = elim (lookup job_id s.jobs) [
  | none ↦ s
  | some job ↦ record s {
    jobs =
        insert job_id
          (record job {
            result = elim job.result [ none ↦ none | some result ↦ some (add_commit ms result) ];
          })
          s.jobs;
  }
]

module _ (health : String → ModelHealth) (settings : Settings) (message : Target → String)
    (backoff : Job → ℕ) (lost : String → Bool) (owner model_id : String)
    (now lease_until commit_ms : ℕ) where
  -- The fields of the result of `_settle_success`.
  unfoldable pub result_of : Job → Reply → Fields
  result_of job reply = field "job_id" (str job.job_id) (
      field "batch_id" (text_or_null job.batch_id) (
        field "batch_ordinal" (elim job.batch_ordinal [ none ↦ null | some n ↦ num (pos n) ])
          (field "requested_model" (str job.requested_model) (
            field "resolved_model" (str job.resolved_model) (
              field "adapter"
                (elim (lookup job.resolved_model settings.models) [
                  | none ↦ null
                  | some spec ↦ str spec.adapter
                ])
                (field "model_version" (text_or_null reply.version) (
                  field "fallback_used" (bool (is_used (of_fallback "used" job.fallback))) (
                    field "fallback_reason" (of_fallback "reason" job.fallback) (
                      field "attempts" (num (pos job.attempt_count)) (
                        field "timings"
                          (dict (
                            field "queue_ms" (num (pos (now - job.created_at))) (
                              field "inference_ms" (num (pos reply.inference_ms)) (
                                field "execution_ms" (num (pos reply.inference_ms)) (
                                  field "total_ms"
                                    (num (pos (now - job.created_at + reply.inference_ms))) end)))))
                          (field "request" (dict job.payload) (
                            field "response"
                              (dict (field "answers" reply.answers (field "usage" reply.usage end)))
                              (field "finished_at" (num (pos now)) end)))))))))))))

  -- What `complete` is given.
  abbrev pub completion_of : Job → Reply → Completion
  completion_of job reply = record {
    result = result_of job reply;
    model_version = reply.version;
    queue_ms = some (now - job.created_at);
    execution_ms = some reply.inference_ms;
    total_ms = some (now - job.created_at + reply.inference_ms);
  }

  -- `_settle_success`. `complete` stores a copy of the result that shares its timings, so that the
  -- assignment of the commit time reaches the stored job.
  unfoldable pub settle_success : Job → Reply → Memory → Bool × Memory
  unfolding complete note_commit
  settle_success job reply s =
      let r = complete job.job_id owner (completion_of job reply) now s in
      if r.0 then (true, note_commit job.job_id commit_ms r.1) else r

  abbrev pub healthy : String → Bool
  healthy model = (health model).ok

  -- `is_group`, which `_retry_target` asks first; it raises only on a cycle of aliases, which
  -- `_validate_graph` refuses.
  abbrev pub group_of : Outcome Bool → Bool
  group_of (done b) = b
  group_of (raised e) = false

  -- `_settle_failure`, and the delivery if the job has ended.
  unfoldable pub settle_and_deliver : Job → Failure → Work → Work
  unfolding settle_failure is_group resolve
  settle_and_deliver job exc w =
      let r =
        settle_failure job owner exc now (backoff job)
          (retry_target job (group_of (is_group settings job.requested_model))
            (resolve healthy settings job.requested_model))
          w.queue in
      if r.0 then deliver job.job_id (after r w) else after r w

  -- `_as_inference_error` of what `_execution_target` raises.
  unfoldable pub target_failure : Target → Failure
  target_failure permanent = record {
    code = "model_unavailable";
    message = message permanent;
    retryable = false;
    retry_after = none;
  }
  target_failure target = record {
    code = "transient";
    message = message target;
    retryable = true;
    retry_after = none;
  }

  -- A job that is running, on its target: kept if the slot is the target's, and else released to it.
  unfoldable pub route : Job → Target → List Job × Work → List Job × Work
  unfolding settle_and_deliver target_failure release_to_queue
  route fresh (runs target fallback) (runnable, w) =
      if not (target == model_id)
      then (
        runnable,
        after
            (release_to_queue fresh.job_id owner now (some target) true EventKind.released w.queue)
            w,
      )
      else (runnable ++ fresh ∷ [], w)
  route fresh target (runnable, w) = (runnable, settle_and_deliver fresh (target_failure target) w)

  -- The job has been marked as running: it is read again.
  unfoldable pub started : String → Job → List Job × Work → List Job × Work
  unfolding get_job route execution_target
  started job_id current (runnable, w) =
      let fresh : Job = elim (get_job job_id w.queue) [ none ↦ current | some job ↦ job ] in
      route fresh (execution_target health settings fresh) (runnable, w)

  unfoldable pub drop_late : String → Work → Work
  unfolding mark_running fail
  drop_late job_id w =
      let r = mark_running job_id owner lease_until now w.queue in
      if r.0
      then deliver job_id (
          after
            (fail job_id owner (error_of "deadline" "deadline passed before execution" false) false
              now r.1)
            w)
      else after r w

  -- One job of the first loop.
  unfoldable pub prepare_one : String → List Job × Work → List Job × Work
  unfolding get_job finish_cancel drop_late mark_running started
  prepare_one job_id (runnable, w) = elim (get_job job_id w.queue) [
    | none ↦ (runnable, deliver job_id (after (finish_cancel job_id owner now w.queue) w))
    | some current ↦
        if current.cancel_requested
        then (runnable, deliver job_id (after (finish_cancel job_id owner now w.queue) w))
        else if is_due current.deadline_at now
        then (runnable, drop_late job_id w)
        else (let r = mark_running job_id owner lease_until now w.queue in
            if not r.0 then (runnable, after r w) else started job_id current (runnable, after r w))
  ]

  -- The first loop.
  unfoldable pub prepare : List String → List Job × Work → List Job × Work
  unfolding prepare_one
  prepare [] r = r
  prepare (job_id ∷ rest) r = prepare rest (prepare_one job_id r)

  -- The loop after an exception of the adapter.
  unfoldable pub fail_all : Failure → List Job → Work → Work
  unfolding settle_and_deliver
  fail_all exc [] w = w
  fail_all exc (job ∷ rest) w =
      fail_all exc rest (if lost job.job_id then w else settle_and_deliver job exc w)

  -- A job that was answered.
  unfoldable pub finish_one : Job → Reply → Work → Work
  unfolding get_job finish_cancel settle_success
  finish_one job reply w =
      if lost job.job_id
      then w
      else if elim (get_job job.job_id w.queue) [
        | none ↦ false
        | some fresh ↦ fresh.cancel_requested
      ]
      then deliver job.job_id (after (finish_cancel job.job_id owner now w.queue) w)
      else deliver job.job_id (after (settle_success job reply w.queue) w)

  -- The loop over the answers; a list that is longer than the other raises at the end of the other.
  unfoldable pub finish : List Job → List Reply → Work → Work
  unfolding finish_one
  finish (job ∷ jobs) (reply ∷ replies) w = finish jobs replies (finish_one job reply w)
  finish _ _ w = w

  abbrev pub settle : Inference → List Job → Work → Work
  settle (answers_with replies) runnable w = finish runnable replies w
  settle (raises exc) runnable w = fail_all exc runnable w

  -- `_execute`, but for the heartbeat, the slot and the signal.
  unfoldable pub execute : (List Job → Inference) → List String → Work → Work
  unfolding prepare finish fail_all
  execute infer jobs w =
      let (runnable, t) = prepare jobs ([], w) in
      elim runnable [ [] ↦ t | job ∷ rest ↦ settle (infer (job ∷ rest)) (job ∷ rest) t ]
