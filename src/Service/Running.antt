-- ===== src/Service/Running.antt =====
-- What a turn of a worker, `_execute` of src/keziah/service.py, hands to the adapter and what it leaves.
use keziah.Base.{
  ℕ, ◌≡◌, ◌≢◌, refl, sym, ap, ◌∙◌, arith, String, Bool, true, false, ◌&&◌, not, Option, none, some,
  List, [], ◌∷◌, ◌++◌, split_if, split_option, All, lookup, lookup-insert_self, ◌==◌, string_eq,
  option_eq,
}
use keziah.Types.{State, Job, Fields, state_is}
use keziah.Memory.{Memory, emit, is_due}
use keziah.Memory.Read.{get_job}
use keziah.Memory.Lease.{mark_running, running_job}
use keziah.Adapters.{ModelHealth}
use keziah.Registry.{Settings}
use keziah.Service.Targets.{Target, runs, permanent, failed, execution_target}
use keziah.Service.Execute.{Work, after, route, started, prepare_one, prepare}

-- A job that was marked as running is there, running, under the lease that it had.
mark_running-lookup :
    (key owner : String) (until now : ℕ) (s : Memory) (job : Job)
    → lookup key s.jobs ≡ some job
    → (mark_running key owner until now s).0 ≡ true
    → (lookup key (mark_running key owner until now s).1.jobs ≡ some (running_job until now job))
      × (job.lease_owner ≡ some owner)
unfolding mark_running emit
mark_running-lookup key owner until now s job e h =
    split_option P (lookup key s.jobs) (λ gone. absurd (none_some (sym gone ∙ e)))
      (λ found g.
        split_if P (state_is found.state State.leased && found.lease_owner == some owner)
          (λ t _. (
            lookup-insert_self key (running_job until now found) s.jobs
                ∙ ap (λ j. some (running_job until now j)) (some_value (sym g ∙ e)),
            sym (ap (λ (j : Job). j.lease_owner) (some_value (sym g ∙ e)))
                ∙ (option_eq.beq_iff found.lease_owner (some owner)).0
                    (owned (state_is found.state State.leased) (found.lease_owner == some owner) t),
          ))
          (λ _ k. cc))
      h
  where
    P : Bool × Memory → Type 0
    P r =
        r.0 ≡ true
        → (lookup key r.1.jobs ≡ some (running_job until now job)) × (job.lease_owner ≡ some owner)

    none_some : {j : Job} → none ≢ some j
    none_some e = cc

    some_value : {a b : Job} → some a ≡ some b → a ≡ b
    some_value e = cc

    owned : (a b : Bool) → (a && b) ≡ true → b ≡ true
    owned a b h = ground (arith, h)

module _ (health : String → ModelHealth) (settings : Settings) (message : Target → String)
    (backoff : Job → ℕ) (lost : String → Bool) (owner model_id : String)
    (now lease_until commit_ms : ℕ) where
  -- A job that may be handed to the adapter of the model.
  abbrev pub Runs : Job → Type 0
  Runs job =
      (job.state ≡ State.running)
      × (job.lease_owner ≡ some owner)
      × (job.cancel_requested ≡ false)
      × (is_due job.deadline_at now ≡ false)
      × ((fallback : Option Fields) × (execution_target health settings job
            ≡ runs model_id fallback))

  All-append :
      (jobs : List Job) (job : Job) → All Runs jobs → Runs job → All Runs (jobs ++ job ∷ [])
  All-append [] job a r = (r, tt)
  All-append (j ∷ jobs) job a r = (a.0, All-append jobs job a.1 r)

  route-Runs :
      (fresh : Job) (target : Target) (jobs : List Job) (w : Work)
      → execution_target health settings fresh ≡ target
      → (fresh.state ≡ State.running)
        × (fresh.lease_owner ≡ some owner)
        × (fresh.cancel_requested ≡ false)
        × (is_due fresh.deadline_at now ≡ false)
      → All Runs jobs
      → All Runs
          (route health settings message backoff lost owner model_id now lease_until commit_ms fresh
            target
            (jobs, w)).0
  unfolding route
  route-Runs fresh (runs target fallback) jobs w e (a, b, c, d) all =
      split_if (λ (r : List Job × Work). All Runs r.0) (not (target == model_id)) (λ _. all)
        (λ h.
          All-append jobs fresh all
            (a, b, c, d, (fallback, e ∙ ap (λ model. runs model fallback) (same h))))
    where
      same : not (target == model_id) ≡ false → target ≡ model_id
      same h = (string_eq.beq_iff target model_id).0 (ground (arith, h))
  route-Runs fresh permanent jobs w e ok all = all
  route-Runs fresh (failed x) jobs w e ok all = all

  prepare_one-Runs :
      (job_id : String) (jobs : List Job) (w : Work)
      → All Runs jobs
      → All Runs
          (prepare_one health settings message backoff lost owner model_id now lease_until commit_ms
            job_id
            (jobs, w)).0
  unfolding prepare_one get_job started running_job
  prepare_one-Runs job_id jobs w all =
      split_option P (lookup job_id w.queue.jobs) (λ _. all)
        λ current e.
          split_if P current.cancel_requested (λ _. all)
            λ kept.
              split_if P (is_due current.deadline_at now) (λ _. all)
                λ early.
                  split_if P (not (mark_running job_id owner lease_until now w.queue).0) (λ _. all)
                    λ marked. again current e kept early (won marked)
    where
      P : List Job × Work → Type 0
      P r = All Runs r.0

      won : {b : Bool} → not b ≡ false → b ≡ true
      won h = ground (arith, h)

      again :
          (current : Job)
          → lookup job_id w.queue.jobs ≡ some current
          → current.cancel_requested ≡ false
          → is_due current.deadline_at now ≡ false
          → (mark_running job_id owner lease_until now w.queue).0 ≡ true
          → P (
              started health settings message backoff lost owner model_id now lease_until commit_ms
                job_id current
                (jobs, after (mark_running job_id owner lease_until now w.queue) w))
      again current e kept early h =
          let m = mark_running-lookup job_id owner lease_until now w.queue current e h in
          rw (m.0, started, get_job)
            (route-Runs (running_job lease_until now current)
              (execution_target health settings (running_job lease_until now current)) jobs
              (after (mark_running job_id owner lease_until now w.queue) w) refl
              (refl, m.1, kept, early) all)

  -- The jobs that `_execute` hands to the adapter are running under the owner's lease, their cancellation
  -- has not been asked for, their deadline has not passed, and the model of the slot is their target.
  pub prepare-Runs :
      (ids : List String) (w : Work)
      → All Runs
          (prepare health settings message backoff lost owner model_id now lease_until commit_ms ids
            ([], w)).0
  unfolding prepare
  prepare-Runs ids w = go ids ([], w) tt
    where
      go :
          (ids : List String) (r : List Job × Work)
          → All Runs r.0
          → All Runs
              (prepare health settings message backoff lost owner model_id now lease_until commit_ms
                ids r).0
      go [] r all = all
      go (job_id ∷ rest) (jobs, w) all =
          go rest
            (prepare_one health settings message backoff lost owner model_id now lease_until
              commit_ms job_id (jobs, w))
            (prepare_one-Runs job_id jobs w all)
