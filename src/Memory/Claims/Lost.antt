-- ===== src/Memory/Claims/Lost.antt =====
-- A worker that has lost its lease cannot change the job: the compare-and-set writes of
-- src/keziah/queue/memory.py.
use keziah.Base.{
  ℕ, ◌≡◌, ◌≢◌, refl, sym, ◌∙◌, String, Bool, false, ◌&&◌, Option, none, some, arith, if◌then◌else◌,
  split_if, split_option, lookup, ◌==◌, Eq, string_eq, option_eq,
}
use mathlib.Core.Bool.{true≢false}
use keziah.Types.{State, Job, Fields, state_is}
use keziah.Memory.{Memory, EventKind, owned_running}
use keziah.Memory.Lease.{holds_lease, extend_lease, mark_running}
use keziah.Memory.Settle.{
  Completion, Retry, complete, fail, retry, finish_cancel, release_to_queue, release_unlocked,
}

-- Nobody, or somebody else, holds the lease of the job under a key.
abbrev pub Lost : String → String → Memory → Type 0
Lost key owner s = (job : Job) → lookup key s.jobs ≡ some job → job.lease_owner ≢ some owner

module _ (s : Memory) (key owner : String) (lost : Lost key owner s) where
  not_owner : (job : Job) → lookup key s.jobs ≡ some job → (job.lease_owner == some owner) ≡ false
  not_owner job e =
      let o : Eq (Option String) = option_eq in
      ground (arith, lost job e, o.beq_iff job.lease_owner (some owner))

  refused :
      (test : Job → Bool) (f : Job → Bool × Memory)
      → ((job : Job) → lookup key s.jobs ≡ some job → test job ≡ false)
      → ◌≡◌ {A = Bool × Memory}
          (elim (lookup key s.jobs) [
            | none ↦ (false, s)
            | some job ↦ if test job then f job else (false, s)
          ])
          (false, s)
  refused test f fails =
      split_option P (lookup key s.jobs) (λ _. refl)
        λ job e. split_if P (test job) (λ t. absurd (true≢false (sym t ∙ fails job e))) (λ _. refl)
    where
      P : Bool × Memory → Type 0
      P r = r ≡ (false, s)

  -- When `owner` does not hold the lease of the job under `key`, or no job is there, all of
  -- `complete`, `fail`, `retry`, `finish_cancel`, `extend_lease`, `mark_running` and
  -- `release_to_queue` return false and leave the queue as it is.
  pub lost-refused :
      (c : Completion) (error : Fields) (dead decrement : Bool) (r : Retry) (until now : ℕ)
      (model : Option String) (kind : EventKind)
      → (complete key owner c now s ≡ (false, s))
        × (fail key owner error dead now s ≡ (false, s))
        × (retry key owner r now s ≡ (false, s))
        × (finish_cancel key owner now s ≡ (false, s))
        × (extend_lease key owner until now s ≡ (false, s))
        × (mark_running key owner until now s ≡ (false, s))
        × (release_to_queue key owner now model decrement kind s ≡ (false, s))
  unfolding complete fail retry finish_cancel extend_lease mark_running release_to_queue
      release_unlocked
  lost-refused c error dead decrement r until now model kind = (
    refused (λ job. owned_running job owner) _ (λ job e. ground (arith, not_owner job e)),
    refused (λ job. owned_running job owner) _ (λ job e. ground (arith, not_owner job e)),
    refused (λ job. owned_running job owner) _ (λ job e. ground (arith, not_owner job e)),
    refused (holds_lease owner) _ (λ job e. ground (arith, not_owner job e)),
    refused (holds_lease owner) _ (λ job e. ground (arith, not_owner job e)),
    refused (λ job. state_is job.state State.leased && job.lease_owner == some owner) _
        (λ job e. ground (arith, not_owner job e)),
    refused (holds_lease owner) _ (λ job e. ground (arith, not_owner job e)),
  )
