-- ===== src/Tests/Claims.antt =====
-- Runs of the theorems on claims.
use keziah.Base.{
  ◌≡◌, refl, sym, ap, subst, ◌∙◌, ◌≤◌, String, true, false, Option, none, some, [], ◌∷◌, arith,
  length, Eq, lookup, insert, erase, values, contains, string_eq, pair_eq, option_eq,
}
use mathlib.Core.Bool.{true≢false}
use keziah.Types.{Job, end, scheduling_classes}
use keziah.Ready.{add, remove}
use keziah.Scheduler.{PickerState}
use keziah.Memory.{EventKind, ok, batch_is_active, claimable, emit}
use keziah.Memory.Submit.{enqueue, existing_job, reserve_capacity, accept_job, remember_job}
use keziah.Memory.Lease.{claim_next, mark_running, extend_lease}
use keziah.Memory.Settle.{complete, fail, retry, finish_cancel, release_to_queue, Completion, Retry}
use keziah.Memory.Run.{init, run, step, enqueues}
use keziah.Memory.Run.Indexed.{run-init-IndexOk}
use keziah.Memory.Claims.Found.{claim_next-finds, Classed}
use keziah.Memory.Claims.Sound.{Claim, claim_next-Claim}
use keziah.Memory.Claims.Lost.{Lost, lost-refused}
use keziah.Tests.Data.{whole, weights, fresh_picker, limits, first_job}
use keziah.Tests.Queue.{ready, held, held_job, ready-Inv}

ready_open : ready.closed ≡ false
unfolding run step init enqueue existing_job reserve_capacity accept_job remember_job emit lookup
    values
ready_open = refl

ready_jobs : ready.jobs ≡ ("a1", first_job) ∷ []
unfolding run step init enqueue existing_job reserve_capacity accept_job remember_job emit lookup
    values insert
ready_jobs = refl

-- What a table of one entry holds.
single : (key : String) (v job : Job) → lookup key (("a1", v) ∷ []) ≡ some job → v ≡ job
unfolding lookup
single key v job e = ground (arith, e)

normal_known : contains scheduling_classes "normal" ≡ true
unfolding contains
normal_known = refl

one_class : Classed (("a1", first_job) ∷ [])
one_class key job e =
    subst (λ (j : Job). contains scheduling_classes j.scheduling_class ≡ true)
      (single key first_job job e) normal_known

ready-Classed : Classed ready.jobs
ready-Classed = subst Classed (sym ready_jobs) one_class

few : length ready.index.live ≤ 64
unfolding run step init enqueue existing_job reserve_capacity accept_job remember_job emit lookup
    values insert add remove erase
few = omega arith

ready_there : lookup "a1" ready.jobs ≡ some first_job
unfolding lookup
ready_there = ap (lookup "a1") ready_jobs

free : claimable first_job 10 (batch_is_active none ready.batches) ≡ true
unfolding claimable batch_is_active
free = refl

claim_next-finds_example :
    (claimed : Job) × (next : PickerState whole) × ((claim_next whole weights "mock" "w:1" 40 10
        fresh_picker ready).0
      ≡ ok (some claimed, next))
claim_next-finds_example =
    claim_next-finds whole weights "mock" "w:1" 40 10 "a1" first_job fresh_picker ready ready_open
      ready-Inv (run-init-IndexOk whole weights ((10, enqueues first_job) ∷ []) limits)
      ready-Classed few ready_there free refl

abbrev found :
    (claimed : Job) × (next : PickerState whole) × ((claim_next whole weights "mock" "w:1" 40 10
        fresh_picker ready).0
      ≡ ok (some claimed, next))
found =
    claim_next-finds whole weights "mock" "w:1" 40 10 "a1" first_job fresh_picker ready ready_open
      ready-Inv (run-init-IndexOk whole weights ((10, enqueues first_job) ∷ []) limits)
      ready-Classed few ready_there free refl

claim_next-Claim_example :
    Claim "w:1" 40 10 ready.batches ready.jobs
      (claim_next whole weights "mock" "w:1" 40 10 fresh_picker ready).1.jobs
      found.0
claim_next-Claim_example =
    claim_next-Claim whole weights "mock" "w:1" 40 10 fresh_picker found.1 ready found.0 found.2

not_his : Lost "a1" "w:2" held
not_his job e same =
    let owners : Eq (Option String) = option_eq in
    true≢false (
      sym (
        (owners.beq_iff held_job.lease_owner (some "w:2")).1
          (ap (λ (j : Job). j.lease_owner) (single "a1" held_job job e) ∙ same)))

abbrev answer : Completion
answer = record {
  result = end;
  model_version = none;
  queue_ms = none;
  execution_ms = none;
  total_ms = none;
}

abbrev later : Retry
later = record { error = end; not_before = 60; resolved_model = "mock"; fallback = none }

lost-refused_example :
    (complete "a1" "w:2" answer 50 held ≡ (false, held))
    × (fail "a1" "w:2" end true 50 held ≡ (false, held))
    × (retry "a1" "w:2" later 50 held ≡ (false, held))
    × (finish_cancel "a1" "w:2" 50 held ≡ (false, held))
    × (extend_lease "a1" "w:2" 80 50 held ≡ (false, held))
    × (mark_running "a1" "w:2" 80 50 held ≡ (false, held))
    × (release_to_queue "a1" "w:2" 50 none false EventKind.released held ≡ (false, held))
lost-refused_example =
    lost-refused held "a1" "w:2" not_his answer end true false later 80 50 none EventKind.released
