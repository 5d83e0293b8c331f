-- ===== src/Memory/Claims/Maintained.antt =====
-- What `maintenance` of src/keziah/queue/memory.py does to the jobs, as a function of one job.
use keziah.Base.{
  ℕ, ◌≡◌, refl, sym, ap, subst, ◌∙◌, inl, inr, String, true, false, ◌&&◌, ◌||◌, Option, none, some,
  List, [], ◌∷◌, arith, leb, if◌then◌else◌, Bool-cases, contains, Distinct, Dict, lookup, insert,
  keys, lookup-insert, contains-lookup, ◌==◌, string_eq,
}
use keziah.Types.{State, Job, is_held, state_is}
use keziah.Memory.{
  Memory, is_due, for_each, emit, cancelled_job, failed_job, mark_cancelled, finish_failure,
}
use keziah.Memory.Maintain.{
  Report, empty_report, unleased_job, queued_job, expire_lease, is_ripe, is_idle, maintain_turn,
  maintenance, lease_error, deadline_error,
}

-- A job after one maintenance.
unfoldable pub maintained : ℕ → Job → Job
maintained now job =
    if is_held job.state && is_due job.lease_expires_at now
    then (if job.cancel_requested
        then cancelled_job now (unleased_job now job)
        else if leb job.max_attempts job.attempt_count
        then failed_job lease_error true now (unleased_job now job)
        else queued_job now (unleased_job now job))
    else if state_is job.state State.retry_wait && is_ripe job.not_before now
    then queued_job now job
    else if state_is job.state State.queued && is_due job.deadline_at now
    then failed_job deadline_error false now job
    else if is_idle job.state && job.cancel_requested
    then cancelled_job now job
    else job

-- A table in which the job under one key has been replaced.
abbrev Put : String → Job → Dict String Job → Dict String Job → Type 0
Put key job before after =
    (k : String) → lookup k after ≡ (if key == k then some job else lookup k before)

Put-once : (key : String) (job : Job) (m : Dict String Job) → Put key job m (insert key job m)
Put-once key job m k = lookup-insert key k job m

Put-twice :
    (key : String) (a b : Job) (m : Dict String Job) → Put key b m (insert key b (insert key a m))
Put-twice key a b m k =
    ground (arith, lookup-insert key k b (insert key a m), lookup-insert key k a m)

Put-same :
    (key : String) (job : Job) (m : Dict String Job) → lookup key m ≡ some job → Put key job m m
Put-same key job m e k = elim (Bool-cases (key == k)) [
  | inl same ↦ rw same (subst (λ x. lookup x m ≡ some job) ((string_eq.beq_iff key k).0 same) e)
  | inr other ↦ rw other refl
]

module _ (now : ℕ) (key : String) (job : Job) (s : Memory) (report : Report)
    (there : lookup key s.jobs ≡ some job) where
  maintain_turn-Put :
      Put key (maintained now job) s.jobs (maintain_turn now key job (s, report)).0.jobs
  unfolding maintained maintain_turn expire_lease mark_cancelled finish_failure emit
  maintain_turn-Put k = ground (
    arith,
    Put-same key job s.jobs there k,
    Put-once key (queued_job now job) s.jobs k,
    Put-once key (failed_job deadline_error false now job) s.jobs k,
    Put-once key (cancelled_job now job) s.jobs k,
    Put-twice key (unleased_job now job) (cancelled_job now (unleased_job now job)) s.jobs k,
    Put-twice key (unleased_job now job) (failed_job lease_error true now (unleased_job now job))
        s.jobs k,
    Put-twice key (unleased_job now job) (queued_job now (unleased_job now job)) s.jobs k,
  )

abbrev pub after_turn : (Job → Job) → Option Job → Option Job
after_turn f none = none
after_turn f (some job) = some (f job)

-- A loop whose turns each replace the job at their own key maps the jobs at its keys.
for_each-Put :
    {R : Type 0} (f : Job → Job) (body : String → Job → Memory × R → Memory × R)
    → ((key : String) (job : Job) (r : Memory × R)
        → lookup key r.0.jobs ≡ some job
        → Put key (f job) r.0.jobs (body key job r).0.jobs)
    → (ks : List String) (r : Memory × R) (k : String) → Distinct ks
    → lookup k (for_each ks body r).0.jobs
      ≡ (if contains ks k then after_turn f (lookup k r.0.jobs) else lookup k r.0.jobs)
unfolding for_each contains
for_each-Put f body puts [] r k d = refl
for_each-Put {R = R} f body puts (key ∷ rest) r k d =
    for_each-Put f body puts rest (next (lookup key r.0.jobs)) k d.1 ∙ go (lookup key r.0.jobs) refl
  where
    next : Option Job → Memory × R
    next found = elim found [ none ↦ r | some job ↦ body key job r ]

    here : key == k ≡ true → lookup key r.0.jobs ≡ lookup k r.0.jobs
    here e = ap (λ x. lookup x r.0.jobs) ((string_eq.beq_iff key k).0 e)

    later : key == k ≡ true → contains rest k ≡ false
    later e = subst (λ x. contains rest x ≡ false) ((string_eq.beq_iff key k).0 e) d.0

    go :
        (found : Option Job)
        → lookup key r.0.jobs ≡ found
        → (if contains rest k
            then after_turn f (lookup k (next found).0.jobs)
            else lookup k (next found).0.jobs)
          ≡ (if key == k || contains rest k
              then after_turn f (lookup k r.0.jobs)
              else lookup k r.0.jobs)
    go none e = elim (Bool-cases (key == k)) [
      | inl same ↦ rw (same, later same, sym (here same), e) refl
      | inr other ↦ rw other refl
    ]
    go (some job) e = elim (Bool-cases (key == k)) [
      | inl same ↦ rw (same, later same, puts key job r e k) (rw (same, sym (here same), e) refl)
      | inr other ↦ rw (puts key job r e k) (rw other refl)
    ]

-- `maintenance` does to each job of the queue what `maintained` says, whatever the other jobs are, and
-- adds and drops none, in a table whose keys are distinct.
pub maintenance-maintained :
    (now : ℕ) (s : Memory) (key : String)
    → Distinct (keys s.jobs)
    → lookup key (maintenance now s).1.jobs ≡ after_turn (maintained now) (lookup key s.jobs)
unfolding maintenance
maintenance-maintained now s key d =
    for_each-Put (maintained now) (maintain_turn now)
      (λ k job r e. maintain_turn-Put now k job r.0 r.1 e) (keys s.jobs) (s, empty_report) key d
    ∙ every (lookup key s.jobs) (contains-lookup key s.jobs)
  where
    every :
        (found : Option Job)
        → contains (keys s.jobs) key ≡ (elim found [ none ↦ false | some v ↦ true ])
        → (if contains (keys s.jobs) key then after_turn (maintained now) found else found)
          ≡ after_turn (maintained now) found
    every none e = rw e refl
    every (some job) e = rw e refl

maintained-settles :
    (now : ℕ) (job : Job)
    → ((is_held (maintained now job).state && is_due (maintained now job).lease_expires_at now)
        ≡ false)
      × ((state_is (maintained now job).state State.retry_wait
            && is_ripe (maintained now job).not_before now)
          ≡ false)
unfolding maintained unleased_job queued_job cancelled_job failed_job
maintained-settles now job = ground arith

-- After `maintenance`, in a table with distinct keys, no job holds a lease that has run out, and no
-- job waits for a retry that is due.
pub maintenance-settles :
    (now : ℕ) (s : Memory) (key : String) (job : Job)
    → Distinct (keys s.jobs)
    → lookup key (maintenance now s).1.jobs ≡ some job
    → ((is_held job.state && is_due job.lease_expires_at now) ≡ false)
      × ((state_is job.state State.retry_wait && is_ripe job.not_before now) ≡ false)
maintenance-settles now s key job d e =
    go (lookup key s.jobs) (sym (maintenance-maintained now s key d) ∙ e)
  where
    value : {a b : Job} → some a ≡ some b → a ≡ b
    value h = cc

    go :
        (found : Option Job)
        → after_turn (maintained now) found ≡ some job
        → ((is_held job.state && is_due job.lease_expires_at now) ≡ false)
          × ((state_is job.state State.retry_wait && is_ripe job.not_before now) ≡ false)
    go none h = cc
    go (some old) h =
        subst
          (λ (j : Job).
            ((is_held j.state && is_due j.lease_expires_at now) ≡ false)
            × ((state_is j.state State.retry_wait && is_ripe j.not_before now) ≡ false))
          (value h) (maintained-settles now old)
