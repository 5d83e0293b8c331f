-- ===== src/Memory/Lease.antt =====
-- Claims and leases in src/keziah/queue/memory.py: `claim_next`, `claim_compatible`, `extend_lease`,
-- `mark_running`.
use keziah.Base.{
  ℕ, zero, suc, String, Bool, true, false, ◌&&◌, ◌||◌, not, Option, none, some, List, [], ◌∷◌, ◌++◌,
  ltb, nat_eqb, if◌then◌else◌, Dict, lookup, contains, take, sort_by, ◌==◌, string_eq, option_eq,
}
use keziah.Base.Int.{pos}
use keziah.Types.{State, Job, end, bool, field, num, is_held, state_is}
use keziah.Scheduler.Numbers.{Float}
use keziah.Scheduler.{Weights, PickerState}
use keziah.Scheduler.Invert.{codes, text_lt}
use keziah.Ready.{propose}
use keziah.Memory.{
  Memory, Result, ok, err, Error, EventKind, emit, emit_job, attempt_detail, put, index_remove,
  for_each, claimable, batch_is_active,
}

-- `apply_claim`.
unfoldable pub claimed_job : String → ℕ → ℕ → Job → Job
claimed_job owner lease_until now job = record job {
  state = State.leased;
  lease_owner = some owner;
  lease_expires_at = some lease_until;
  attempt_count = suc job.attempt_count;
  updated_at = now;
}

-- A claim of the job under a key.
unfoldable pub claim_job : String → ℕ → ℕ → String → Job → Memory → Memory
unfolding claimed_job emit
claim_job owner lease_until now key job s =
    let leased = claimed_job owner lease_until now job in
    emit_job EventKind.claimed now leased (attempt_detail leased)
      (index_remove job.job_id (put key leased s))

-- The test of the loop body: the proposed job is there and may be claimed.
unfoldable pub claimable_at : String → ℕ → Memory → Option Job
unfolding claimable batch_is_active
claimable_at key now s = elim (lookup key s.jobs) [
  | none ↦ none
  | some job ↦ if claimable job now (batch_is_active job.batch_id s.batches) then some job else none
]

module _ (F : Float) (settings : Weights F) (model owner : String) (lease_until now : ℕ) where
  -- The loop of `claim_next`; the source makes 64 turns. A stale hint is dropped.
  unfoldable pub claim_loop : ℕ → PickerState F → Memory → (Option Job × PickerState F) × Memory
  unfolding propose claimable_at claim_job
  claim_loop zero picker s = ((none, picker), s)
  claim_loop (suc turns) picker s =
      let (index, proposal) = propose F settings model picker now s.index in
      elim proposal.0 [
        | none ↦ ((none, picker), record s { index = index })
        | some choice ↦ elim (claimable_at choice.job_id now (record s { index = index })) [
          | none ↦ claim_loop turns picker (index_remove choice.job_id (record s { index = index }))
          | some job ↦ (
            (some (claimed_job owner lease_until now job), proposal.1),
            claim_job owner lease_until now choice.job_id job (record s { index = index }),
          )
        ]
      ]

  -- `claim_next`. Its `now_iso` and `now_epoch` are one clock read, `now`.
  unfoldable pub claim_next : PickerState F → Memory → Result (Option Job × PickerState F) × Memory
  unfolding claim_loop
  claim_next picker s =
      if s.closed
      then (err Error.queue_closed, s)
      else let (result, t) = claim_loop 64 picker s in (ok result, t)

-- `<` on the key `(item.created_at, item.job_id)`.
abbrev pub older : Job → Job → Bool
older a b =
    ltb a.created_at b.created_at
    || (not (ltb b.created_at a.created_at) && text_lt (codes a.job_id) (codes b.job_id))

-- The entries of the table that pass a test.
unfoldable pub matching : (Job → Bool) → Dict String Job → List (String × Job)
matching p [] = []
matching p ((key, job) ∷ m) = let rest = matching p m in if p job then (key, job) ∷ rest else rest

abbrev pub compatible : String → String → List String → ℕ → Memory → Job → Bool
compatible model questions_hash exclude now s job =
    not (
      contains exclude job.job_id
      || not (job.resolved_model == model)
      || not (job.questions_hash == questions_hash))
    && claimable job now (batch_is_active job.batch_id s.batches)

unfoldable pub entry_keys : List (String × Job) → List String
entry_keys [] = []
entry_keys ((key, job) ∷ rest) = key ∷ entry_keys rest

-- One claim of `claim_compatible`, with the copies gathered.
unfoldable pub claim_batch_job :
    String → ℕ → ℕ → String → Job → Memory × List Job → Memory × List Job
unfolding claimed_job emit
claim_batch_job owner lease_until now key job r =
    let leased = claimed_job owner lease_until now job in
    (
      emit_job EventKind.claimed now leased
          (field "attempt" (num (pos leased.attempt_count)) (field "native_batch" (bool true) end))
          (index_remove job.job_id (put key leased r.0)),
      r.1 ++ leased ∷ [],
    )

unfoldable pub claim_compatible :
    String → String → List String → ℕ → ℕ → String → ℕ → Memory → Result (List Job) × Memory
unfolding claim_batch_job claimable batch_is_active sort_by entry_keys matching
claim_compatible model questions_hash exclude limit now owner lease_until s =
    if nat_eqb limit 0
    then (ok [], s)
    else if s.closed
    then (err Error.queue_closed, s)
    else let matches =
        sort_by (λ a b. older a.1 b.1)
          (matching (compatible model questions_hash exclude now s) s.jobs) in
      let r =
        for_each (entry_keys (take limit matches)) (claim_batch_job owner lease_until now)
          (s, []) in
      (ok r.1, r.0)

-- The guard of `extend_lease` and `finish_cancel`.
abbrev pub holds_lease : String → Job → Bool
holds_lease owner job = job.lease_owner == some owner && is_held job.state

unfoldable pub extended_job : ℕ → ℕ → Job → Job
extended_job lease_until now job = record job {
  lease_expires_at = some lease_until;
  updated_at = now;
}

unfoldable pub extend_lease : String → String → ℕ → ℕ → Memory → Bool × Memory
unfolding extended_job
extend_lease job_id owner lease_until now s = elim (lookup job_id s.jobs) [
  | none ↦ (false, s)
  | some job ↦
      if holds_lease owner job
      then (true, put job_id (extended_job lease_until now job) s)
      else (false, s)
]

-- `job.started_at or now_iso`.
unfoldable pub running_job : ℕ → ℕ → Job → Job
running_job lease_until now job = record job {
  state = State.running;
  started_at = elim job.started_at [ none ↦ some now | some t ↦ some t ];
  lease_expires_at = some lease_until;
  updated_at = now;
}

unfoldable pub mark_running : String → String → ℕ → ℕ → Memory → Bool × Memory
unfolding running_job emit
mark_running job_id owner lease_until now s = elim (lookup job_id s.jobs) [
  | none ↦ (false, s)
  | some job ↦
      if state_is job.state State.leased && job.lease_owner == some owner
      then (
        true,
        emit_job EventKind.started now job (attempt_detail job)
            (put job_id (running_job lease_until now job) s),
      )
      else (false, s)
]
