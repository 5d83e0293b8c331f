-- ===== src/Service/Targets.antt =====
-- `_execution_target` of src/keziah/service.py: where a claimed job runs. The health of a model is
-- a parameter; a model that is not configured has no adapter to ask.
use keziah.Base.{
  ◌≡◌, ◌⊎◌, refl, subst, inl, inr, String, Bool, true, false, ◌&&◌, not, Option, none, some, arith,
  if◌then◌else◌, split_if, split_option, lookup, ◌==◌, string_eq,
}
use keziah.Types.{Job, Fields, end, field, str, bool}
use keziah.Adapters.{ModelHealth}
use keziah.Registry.{Settings, Resolution, RegistryError, Outcome, done, raised, is_group, resolve}

-- A model to run on, with the fallback to record; or an exception, `permanent` with `model_unavailable`.
pub data Target : Type 0 where
  runs : String → Option Fields → Target
  permanent : Target
  failed : RegistryError → Target

module _ (health : String → ModelHealth) (settings : Settings) (job : Job) where
  abbrev pub healthy : String → Bool
  healthy model = (health model).ok

  -- The end: the model's own health decides whether to give up.
  abbrev pub stay : Target
  stay =
      if (health job.resolved_model).permanent
      then permanent
      else runs job.resolved_model job.fallback

  abbrev pub moved_fallback : Resolution → Fields
  moved_fallback r = field "used" (bool true) (
      field "reason"
        (str (elim r.fallback_reason [
          | none ↦ "primary_unavailable"
          | some reason ↦ if reason == "" then "primary_unavailable" else reason
        ]))
        (field "requested" (str job.requested_model)
          (field "resolved" (str r.resolved) (field "from" (str job.resolved_model) end))))

  -- With the resolution of the group.
  unfoldable pub regroup : Resolution → Target
  regroup r =
      if not (r.resolved == job.resolved_model) && healthy r.resolved
      then runs r.resolved (some (moved_fallback r))
      else if (health r.resolved).permanent
      then permanent
      else stay

  unfoldable pub regroup_of : Outcome Bool → Outcome Resolution → Target
  unfolding regroup
  regroup_of (raised e) resolved = failed e
  regroup_of (done false) resolved = stay
  regroup_of (done true) (raised e) = failed e
  regroup_of (done true) (done r) = regroup r

  unfoldable pub execution_target : Target
  unfolding regroup_of
  execution_target = elim (lookup job.resolved_model settings.models) [
    | none ↦ failed RegistryError.unknown_model
    | some spec ↦
        if healthy job.resolved_model
        then runs job.resolved_model job.fallback
        else regroup_of (is_group settings job.requested_model)
            (resolve healthy settings job.requested_model)
  ]

  -- Where a target leads: to the job's own model as it stands, or to another model that is healthy.
  abbrev Sound : Target → Type 0
  Sound (runs model fallback) =
      ((model ≡ job.resolved_model) × (fallback ≡ job.fallback)) ⊎ (healthy model ≡ true)
  Sound permanent = Unit
  Sound (failed e) = Unit

  stay-Sound : Sound stay
  stay-Sound =
      split_if Sound (health job.resolved_model).permanent (λ _. tt) (λ _. inl (refl, refl))

  regroup_of-Sound : (g : Outcome Bool) (o : Outcome Resolution) → Sound (regroup_of g o)
  unfolding regroup_of regroup
  regroup_of-Sound (raised e) o = tt
  regroup_of-Sound (done false) o = stay-Sound
  regroup_of-Sound (done true) (raised e) = tt
  regroup_of-Sound (done true) (done r) =
      split_if Sound (not (r.resolved == job.resolved_model) && healthy r.resolved)
        (λ h. inr (ground (arith, h)))
        (λ _. split_if Sound (health r.resolved).permanent (λ _. tt) (λ _. stay-Sound))

  execution_target-Sound : Sound execution_target
  unfolding execution_target
  execution_target-Sound =
      split_option Sound (lookup job.resolved_model settings.models) (λ _. tt)
        λ spec _.
          split_if Sound (healthy job.resolved_model) (λ _. inl (refl, refl))
            λ _.
              regroup_of-Sound (is_group settings job.requested_model)
                (resolve healthy settings job.requested_model)

  -- When `_execution_target` names a model to run on, that is the job's own model with the fallback
  -- that the job records, or a model that is healthy.
  pub execution_target-runs :
      (model : String) (fallback : Option Fields)
      → execution_target ≡ runs model fallback
      → ((model ≡ job.resolved_model) × (fallback ≡ job.fallback)) ⊎ (healthy model ≡ true)
  execution_target-runs model fallback e = subst Sound e execution_target-Sound
