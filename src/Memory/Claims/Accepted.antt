-- ===== src/Memory/Claims/Accepted.antt =====
-- What `enqueue` of src/keziah/queue/memory.py accepts: bounded queues, and idempotent submissions.
use keziah.Base.{
  suc, ◌≤◌, ◌≡◌, refl, sym, ap, subst, ◌∙◌, String, Bool, true, false, ◌&&◌, Option, none, some, [],
  ◌∷◌, arith, if◌then◌else◌, split_if, count, values, Dict, lookup, insert, lookup-insert, ◌==◌, Eq,
  string_eq, option_eq, pair_eq, eq_self,
}
use mathlib.Core.Bool.{true≢false}
use keziah.Types.{State, Job, is_incomplete, state_is}
use keziah.Memory.{Memory, Result, ok, err, Error, emit}
use keziah.Memory.Submit.{
  existing_job, reserve_capacity, remember_job, accept_job, enqueue, depth, client_depth,
}

-- The jobs of a table that grew by one under a new key, counted.
count-insert :
    (p : Job → Bool) (key : String) (job : Job) (m : Dict String Job)
    → lookup key m ≡ none
    → count p (values (insert key job m))
      ≡ (if p job then suc (count p (values m)) else count p (values m))
unfolding lookup insert values
count-insert p key job [] h = ground arith
count-insert p key job ((k, j) ∷ m) h = ground (arith, count-insert p key job m)

-- The limits on the unfinished jobs, of all clients and of each.
abbrev pub Within : Memory → Type 0
Within s =
    (depth s.jobs ≤ s.limits.max_queued_jobs)
    × ((client : String) → client_depth client s.jobs ≤ s.limits.max_active_jobs_per_client)

room :
    (job : Job) (s : Memory)
    → reserve_capacity job.client_id 1 s ≡ ok tt
    → (suc (depth s.jobs) ≤ s.limits.max_queued_jobs)
      × (suc (client_depth job.client_id s.jobs) ≤ s.limits.max_active_jobs_per_client)
unfolding reserve_capacity
room job s h = ground arith

accept_job-Within :
    (job : Job) (s : Memory)
    → lookup job.job_id s.jobs ≡ none
    → reserve_capacity job.client_id 1 s ≡ ok tt
    → Within s
    → Within (accept_job job s)
unfolding accept_job remember_job emit
accept_job-Within job s fresh has within =
    split_if Within (state_is job.state State.queued) (λ _. grown) (λ _. grown)
  where
    grown :
        (depth (insert job.job_id job s.jobs) ≤ s.limits.max_queued_jobs)
        × ((client : String)
            → client_depth client (insert job.job_id job s.jobs)
              ≤ s.limits.max_active_jobs_per_client)
    grown = (
      ground (
        arith,
        room job s has,
        within.0,
        count-insert (λ j. is_incomplete j.state) job.job_id job s.jobs fresh,
      ),
      λ client.
          let same = string_eq.beq_iff job.client_id client in
          ground (
            arith,
            room job s has,
            within.1 client,
            within.1 job.client_id,
            same,
            ap (λ c. client_depth c s.jobs),
            count-insert (λ j. j.client_id == client && is_incomplete j.state) job.job_id job s.jobs
                fresh,
          ),
    )

-- `enqueue` of a job with a new id keeps the numbers of unfinished jobs within the limits, the whole
-- queue's and each client's.
pub enqueue-Within :
    (job : Job) (s : Memory) → lookup job.job_id s.jobs ≡ none → Within s → Within (enqueue job s).1
unfolding enqueue
enqueue-Within job s fresh within =
    split_if (λ (r : Result Job × Memory). Within r.1) s.closed (λ _. within)
      (λ _. go (existing_job job s) (reserve_capacity job.client_id 1 s) refl)
  where
    go :
        (found : Result (Option Job)) (space : Result (Unit {0}))
        → reserve_capacity job.client_id 1 s ≡ space
        → let r : Result Job × Memory = elim found [
          | err e ↦ (err e, s)
          | ok (some replay) ↦ (ok replay, s)
          | ok none ↦ elim space [ err e ↦ (err e, s) | ok _ ↦ (ok job, accept_job job s) ]
        ] in
          Within r.1
    go (err e) space h = within
    go (ok (some replay)) space h = within
    go (ok none) (err e) h = within
    go (ok none) (ok _) h = accept_job-Within job s fresh h within

-- The submission of `again` finds the job that was accepted before it.
found_again :
    (job again : Job) (key : String) (s : Memory)
    → again.idempotency_key ≡ some key
    → job.idempotency_key ≡ some key
    → again.client_id ≡ job.client_id
    → existing_job again (accept_job job s) ≡ (
        if job.idempotency_hash == again.idempotency_hash
        then ok (some (record job { replayed = true }))
        else err (Error.conflict job.job_id))
unfolding existing_job accept_job remember_job emit
found_again job again key s k l c =
    let pairs : Eq (String × String) = pair_eq in
    rw (k, l, c)
      (ground (
        arith,
        lookup-insert (job.client_id, key) (job.client_id, key) job.job_id s.idemp,
        lookup-insert job.job_id job.job_id job s.jobs,
        pairs.beq_iff (job.client_id, key) (job.client_id, key),
        eq_self job.job_id,
        eq_self job.client_id,
        eq_self key,
      ))

-- The state after a submission that made a job.
accepted :
    (job : Job) (s : Memory)
    → s.closed ≡ false
    → existing_job job s ≡ ok none
    → reserve_capacity job.client_id 1 s ≡ ok tt
    → enqueue job s ≡ (ok job, accept_job job s)
unfolding enqueue
accepted job s running new space =
    split_if P s.closed (λ shut. absurd (true≢false (sym shut ∙ running)))
      (λ _. go (existing_job job s) (reserve_capacity job.client_id 1 s) new space)
  where
    P : Result Job × Memory → Type 0
    P r = r ≡ (ok job, accept_job job s)

    go :
        (found : Result (Option Job)) (room : Result (Unit {0}))
        → found ≡ ok none
        → room ≡ ok tt
        → P (elim found [
          | err e ↦ (err e, s)
          | ok (some replay) ↦ (ok replay, s)
          | ok none ↦ elim room [ err e ↦ (err e, s) | ok _ ↦ (ok job, accept_job job s) ]
        ])
    go (err e) room h k = cc
    go (ok (some replay)) room h k = cc
    go (ok none) (err e) h k = cc
    go (ok none) (ok _) h k = refl

accept_job-closed : (job : Job) (s : Memory) → (accept_job job s).closed ≡ s.closed
unfolding accept_job remember_job emit
accept_job-closed job s =
    split_if (λ (t : Memory). t.closed ≡ s.closed) (state_is job.state State.queued) (λ _. refl)
      (λ _. refl)

answered :
    (again : Job) (t : Memory) (same : Bool) (replay : Job) (e : Error)
    → t.closed ≡ false
    → existing_job again t ≡ (if same then ok (some replay) else err e)
    → enqueue again t ≡ ((if same then ok replay else err e), t)
unfolding enqueue
answered again t same replay e running found =
    split_if P t.closed (λ shut. absurd (true≢false (sym shut ∙ running)))
      (λ _. go same (existing_job again t) found)
  where
    P : Result Job × Memory → Type 0
    P r = r ≡ ((if same then ok replay else err e), t)

    value : {a b : Job} → ok (some a) ≡ ok (some b) → a ≡ b
    value h = cc

    error_value : {a b : Error} → ◌≡◌ {A = Result (Option Job)} (err a) (err b) → a ≡ b
    error_value h = cc

    go :
        (b : Bool) (r : Result (Option Job))
        → r ≡ (if b then ok (some replay) else err e)
        → ◌≡◌ {A = Result Job × Memory}
            (elim r [
              | err e ↦ (err e, t)
              | ok (some replay) ↦ (ok replay, t)
              | ok none ↦ elim (reserve_capacity again.client_id 1 t) [
                | err e ↦ (err e, t)
                | ok _ ↦ (ok again, accept_job again t)
              ]
            ])
            ((if b then ok replay else err e), t)
    go true (err f) h = cc
    go true (ok none) h = cc
    go true (ok (some x)) h = ap (λ j. (ok j, t)) (value h)
    go false (err f) h = ap (λ x. (err x, t)) (error_value h)
    go false (ok o) h = cc

-- Once a job with an idempotency key has been accepted by an open queue, a second submission of the
-- same client under that key changes nothing: it returns the first job, marked as a replay, if the
-- payload hashes agree, and a conflict that names the first job if they do not.
pub enqueue-idempotent :
    (job again : Job) (key : String) (s : Memory)
    → s.closed ≡ false
    → existing_job job s ≡ ok none
    → reserve_capacity job.client_id 1 s ≡ ok tt
    → job.idempotency_key ≡ some key
    → again.idempotency_key ≡ some key
    → again.client_id ≡ job.client_id
    → enqueue again (enqueue job s).1 ≡ (
      (if job.idempotency_hash == again.idempotency_hash
          then ok (record job { replayed = true })
          else err (Error.conflict job.job_id)),
      (enqueue job s).1,
    )
enqueue-idempotent job again key s running new space l k c =
    subst
      (λ (r : Result Job × Memory). enqueue again r.1 ≡ (
        (if job.idempotency_hash == again.idempotency_hash
            then ok (record job { replayed = true })
            else err (Error.conflict job.job_id)),
        r.1,
      ))
      (sym (accepted job s running new space))
      (answered again (accept_job job s) (job.idempotency_hash == again.idempotency_hash)
        (record job { replayed = true }) (Error.conflict job.job_id)
        (accept_job-closed job s ∙ running) (found_again job again key s k l c))
