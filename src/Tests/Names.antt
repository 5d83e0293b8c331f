-- ===== src/Tests/Names.antt =====
-- Runs of the theorems on the registry, the hybrid queue and the service.
use keziah.Base.{
  suc, ◌≡◌, ◌⊎◌, refl, String, Bool, true, false, not, none, some, List, [], ◌∷◌, arith, All, leb,
  if◌then◌else◌, lookup, string_eq, ◌==◌,
}
use keziah.Types.{State, Job}
use keziah.Registry.{
  Settings, ModelSettings, ModelGroupSettings, Resolution, done, resolve_group, first_healthy,
  chain_of, follow,
}
use keziah.Registry.Aliases.{Ends, follow-Ends}
use keziah.Registry.Resolved.{usable, FirstUsable, resolve_group-done}
use keziah.Service.{Slots, try_reserve, release, active_or, Failure, settle_failure}
use keziah.Service.Caps.{Capped, slots-Capped}
use keziah.Service.Failures.{AttemptEnd, settle_failure-settled}
use keziah.Memory.{Memory}
use keziah.Memory.Run.{init}
use keziah.Tests.Data.{limits, first_job}

abbrev aliases : List (String × String)
aliases = ("default", "main") ∷ ("loop", "loop") ∷ []

follow-Ends_example : Ends aliases (follow aliases "loop")
follow-Ends_example = follow-Ends aliases "loop"

abbrev spec_of : Bool → ModelSettings
spec_of on = record { adapter = "mock"; enabled = on; endpoint = none }

abbrev settings : Settings
settings = record {
  models = ("big", spec_of true) ∷ ("small", spec_of true) ∷ [];
  aliases = aliases;
  model_groups = ("main", record { primary = "big"; fallbacks = "small" ∷ [] }) ∷ [];
}

-- Only the small model answers.
abbrev up : String → Bool
up model = model == "small"

abbrev group : ModelGroupSettings
group = record { primary = "big"; fallbacks = "small" ∷ [] }

abbrev fallen : Resolution
fallen = record {
  requested = "main";
  resolved = "small";
  adapter = "mock";
  fallback_used = true;
  fallback_reason = some "primary_unavailable";
  chain = "big" ∷ "small" ∷ [];
}

falls_back : resolve_group up settings "main" group ≡ done fallen
unfolding resolve_group first_healthy lookup
falls_back = refl

resolve_group-done_example :
    (FirstUsable up settings "small" (chain_of group) × (true ≡ not (usable up settings "big")))
    ⊎ (All (λ m. usable up settings m ≡ false) (chain_of group)
        × (fallen.resolved ≡ group.primary)
        × (true ≡ false))
resolve_group-done_example = resolve_group-done up settings "main" group fallen falls_back

abbrev no_slots : Slots
no_slots = record { active = []; inflight = 0 }

none_over : Capped (λ model. 1) no_slots
unfolding lookup
none_over model = omega arith

slots-Capped_example :
    Capped (λ model. 1) (try_reserve 1 "big" no_slots).1
    × Capped (λ model. 1) (release "big" no_slots)
    × ((try_reserve 1 "big" no_slots).0 ≡ leb (suc (active_or 0 "big" no_slots.active)) 1)
    × ((other : String)
        → active_or 0 other (try_reserve 1 "big" no_slots).1.active ≡ (
            if (try_reserve 1 "big" no_slots).0
            then (if "big" == other
                then suc (active_or 0 "big" no_slots.active)
                else active_or 0 other no_slots.active)
            else active_or 0 other no_slots.active))
slots-Capped_example = slots-Capped (λ model. 1) "big" no_slots none_over

abbrev running_now : Job
running_now = record first_job {
  state = State.running;
  lease_owner = some "w:1";
  lease_expires_at = some 40;
  attempt_count = 1;
}

abbrev busy : Memory
busy = record (init limits) { jobs = ("a1", running_now) ∷ [] }

abbrev timeout : Failure
timeout = record { code = "timeout"; message = "too slow"; retryable = true; retry_after = none }

busy_there : lookup "a1" busy.jobs ≡ some running_now
unfolding lookup
busy_there = refl

settle_failure-settled_example :
    (next : Job) × AttemptEnd timeout 30 5
      ("mock", none)
      running_now
      (settle_failure running_now "w:1" timeout 30 5 ("mock", none) busy).0
      next
    × ((k : String)
        → lookup k (settle_failure running_now "w:1" timeout 30 5 ("mock", none) busy).1.jobs
          ≡ (if running_now.job_id == k then some next else lookup k busy.jobs))
settle_failure-settled_example =
    settle_failure-settled running_now "w:1" timeout 30 5 ("mock", none) busy busy_there refl
