-- ===== src/Tests/Queue.antt =====
-- Runs of the theorems on the in-memory queue.
use keziah.Base.{
  ℕ, ◌≡◌, refl, ap, ◌∙◌, Distinct, true, false, ◌&&◌, none, some, List, [], ◌∷◌, arith, lookup,
  keys, values, contains, string_eq, pair_eq, option_eq,
}
use keziah.Types.{State, Job, is_held, state_is}
use keziah.Memory.{Memory, ok, is_due, batch_is_active}
use keziah.Memory.Submit.{enqueue, existing_job, reserve_capacity}
use keziah.Memory.Maintain.{maintenance, is_ripe}
use keziah.Memory.Invariant.{Inv}
use keziah.Memory.Run.{init, run, Request, enqueues, claims, starts, Follows}
use keziah.Memory.Run.Indexed.{run-init-Inv, run-init-IndexOk}
use keziah.Memory.Claims.Accepted.{enqueue-Within, enqueue-idempotent, Within}
use keziah.Memory.Claims.Maintained.{
  maintenance-maintained, maintenance-settles, maintained, after_turn,
}
use keziah.Ready.Heaps.{IndexOk}
use keziah.Tests.Data.{whole, weights, fresh_picker, limits, first_job}

abbrev history : List (ℕ × Request whole weights)
history =
    (10, enqueues first_job)
    ∷ (12, claims "mock" "w:1" 40 fresh_picker)
    ∷ (13, starts "a1" "w:1" 40)
    ∷ []

run-init-IndexOk_example : IndexOk (run whole weights history (init limits)).index
run-init-IndexOk_example = run-init-IndexOk whole weights history limits

empty-Within : Within (init limits)
unfolding init values
empty-Within = (omega arith, λ client. omega arith)

enqueue-Within_example : Within (enqueue first_job (init limits)).1
unfolding init lookup
enqueue-Within_example = enqueue-Within first_job (init limits) refl empty-Within

no_key : existing_job first_job (init limits) ≡ ok none
unfolding existing_job init lookup
no_key = refl

has_room : reserve_capacity first_job.client_id 1 (init limits) ≡ ok tt
unfolding reserve_capacity init values
has_room = refl

open_queue : (init limits).closed ≡ false
unfolding init
open_queue = refl

enqueue-idempotent_example :
    enqueue first_job (enqueue first_job (init limits)).1
    ≡ (ok (record first_job { replayed = true }), (enqueue first_job (init limits)).1)
enqueue-idempotent_example =
    enqueue-idempotent first_job first_job "k" (init limits) open_queue no_key has_room refl refl
      refl

first_new : Follows whole weights 10 (init limits) ((10, enqueues first_job) ∷ [])
unfolding init lookup batch_is_active
first_new = (
  omega arith,
  record {
    fresh = refl;
    sound = record {
      named = refl;
      owned = refl;
      timed = refl;
      ended = refl;
      gated = refl;
      ripe = refl;
    };
  },
  tt,
)

-- The queue after one submission.
abbrev pub ready : Memory
ready = run whole weights ((10, enqueues first_job) ∷ []) (init limits)

pub ready-Inv : Inv 10 ready
ready-Inv = run-init-Inv whole weights 10 ((10, enqueues first_job) ∷ []) limits first_new

run-init-Inv_example : Inv 10 ready
run-init-Inv_example =
    run-init-Inv whole weights 10 ((10, enqueues first_job) ∷ []) limits first_new

-- A job whose worker has gone.
abbrev pub held_job : Job
held_job = record first_job {
  state = State.leased;
  lease_owner = some "w:1";
  lease_expires_at = some 40;
  attempt_count = 1;
}

abbrev pub held : Memory
held = record (init limits) { jobs = ("a1", held_job) ∷ [] }

held-Distinct : Distinct (keys held.jobs)
unfolding keys contains
held-Distinct = (refl, tt)

held_there : lookup "a1" held.jobs ≡ some held_job
unfolding lookup
held_there = refl

maintenance-maintained_example :
    lookup "a1" (maintenance 50 held).1.jobs ≡ after_turn (maintained 50) (lookup "a1" held.jobs)
maintenance-maintained_example = maintenance-maintained 50 held "a1" held-Distinct

held_after : lookup "a1" (maintenance 50 held).1.jobs ≡ some (maintained 50 held_job)
held_after =
    maintenance-maintained 50 held "a1" held-Distinct ∙ ap (after_turn (maintained 50)) held_there

maintenance-settles_example :
    ((is_held (maintained 50 held_job).state && is_due (maintained 50 held_job).lease_expires_at 50)
      ≡ false)
    × ((state_is (maintained 50 held_job).state State.retry_wait
          && is_ripe (maintained 50 held_job).not_before 50)
        ≡ false)
maintenance-settles_example =
    maintenance-settles 50 held "a1" (maintained 50 held_job) held-Distinct held_after
