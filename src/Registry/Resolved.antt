-- ===== src/Registry/Resolved.antt =====
-- What a fallback group resolves to, and that validated settings leave no dangling name.
use keziah.Base.{
  ◌≡◌, ◌⊎◌, refl, subst, inl, inr, String, Bool, true, false, ◌&&◌, ◌||◌, not, Option, none, some,
  List, [], ◌∷◌, arith, if◌then◌else◌, split_if, split_option, All, lookup, string_eq,
}
use keziah.Registry.{
  Settings, ModelSettings, ModelGroupSettings, Resolution, Outcome, done, raised, RegistryError,
  first_healthy, keep_primary, resolution, resolve_group, chain_of,
}

module _ (healthy : String → Bool) (settings : Settings) where
  -- A model that a job may run on now.
  abbrev pub usable : String → Bool
  usable model = elim (lookup model settings.models) [
    | none ↦ false
    | some spec ↦ spec.enabled && healthy model
  ]

  -- The first usable model of a chain.
  abbrev pub FirstUsable : String → List String → Type 0
  FirstUsable model [] = ⊥
  FirstUsable model (first ∷ rest) =
      ((model ≡ first) × (usable first ≡ true)) ⊎ ((usable first ≡ false) × FirstUsable model rest)

  abbrev head_usable : List String → Bool
  head_usable [] = true
  head_usable (model ∷ rest) = usable model

  dull :
      (model : String) (spec : ModelSettings)
      → lookup model settings.models ≡ some spec
      → (spec.enabled && healthy model) ≡ false
      → usable model ≡ false
  dull model spec e h = ground (arith, e, h)

  shines :
      (model : String) (spec : ModelSettings)
      → lookup model settings.models ≡ some spec
      → (spec.enabled && healthy model) ≡ true
      → usable model ≡ true
  shines model spec e h = ground (arith, e, h)

  -- What the loop of `_resolve_group` finds.
  abbrev Chosen : List String → Bool → Outcome (Option Resolution) → Type 0
  Chosen models later (raised e) = Unit
  Chosen models later (done none) = All (λ m. usable m ≡ false) models
  Chosen models later (done (some r)) =
      FirstUsable r.resolved models × (r.fallback_used ≡ (later || not (head_usable models)))

  after_first :
      (model : String) (rest : List String) (later : Bool) (o : Outcome (Option Resolution))
      → usable model ≡ false
      → Chosen rest true o
      → Chosen (model ∷ rest) later o
  after_first model rest later (raised e) u c = tt
  after_first model rest later (done none) u c = (u, c)
  after_first model rest later (done (some r)) u c = (inr (u, c.0), ground (arith, u, c.1))

  first_healthy-Chosen :
      (requested : String) (chain models : List String) (later : Bool)
      → Chosen models later (first_healthy healthy settings requested chain later models)
  unfolding first_healthy
  first_healthy-Chosen requested chain [] later = tt
  first_healthy-Chosen requested chain (model ∷ rest) later =
      split_option P (lookup model settings.models) (λ _. tt)
        λ spec e.
          split_if P (not spec.enabled)
            (λ off.
              after_first model rest later _ (dull model spec e (ground (arith, off)))
                (first_healthy-Chosen requested chain rest true))
            λ on.
              split_if P (healthy model)
                (λ well. (
                  inl (refl, shines model spec e (ground (arith, on, well))),
                  ground (arith, shines model spec e (ground (arith, on, well))),
                ))
                (λ ill.
                  after_first model rest later _ (dull model spec e (ground (arith, ill)))
                    (first_healthy-Chosen requested chain rest true))
    where
      P : Outcome (Option Resolution) → Type 0
      P = Chosen (model ∷ rest) later

  -- A fallback group that resolves names the first usable model of its chain, marked as a fallback
  -- exactly when the primary is not usable, or its primary, marked as no fallback, when no model of the
  -- chain is usable.
  pub resolve_group-done :
      (requested : String) (group : ModelGroupSettings) (r : Resolution)
      → resolve_group healthy settings requested group ≡ done r
      → (FirstUsable r.resolved (chain_of group) × (r.fallback_used ≡ not (usable group.primary)))
        ⊎ (All (λ m. usable m ≡ false) (chain_of group)
            × (r.resolved ≡ group.primary)
            × (r.fallback_used ≡ false))
  unfolding resolve_group keep_primary
  resolve_group-done requested group r h =
      go (first_healthy healthy settings requested (chain_of group) false (chain_of group))
        (first_healthy-Chosen requested (chain_of group) (chain_of group) false) h
    where
      value : {a b : Resolution} → done a ≡ done b → a ≡ b
      value e = cc

      kept :
          (found : Option ModelSettings)
          → (elim found [
            | none ↦ raised RegistryError.key_error
            | some spec ↦
                if not spec.enabled
                then raised RegistryError.model_unavailable
                else done (
                    resolution healthy settings requested
                      (chain_of group)
                      false
                      group.primary
                      spec.adapter)
          ])
            ≡ done r
          → (r.resolved ≡ group.primary) × (r.fallback_used ≡ false)
      kept none e = cc
      kept (some spec) e = ground (arith, e)

      go :
          (o : Outcome (Option Resolution))
          → Chosen (chain_of group) false o
          → (elim o [
            | raised e ↦ raised e
            | done (some found) ↦ done found
            | done none ↦ keep_primary healthy settings requested (chain_of group) group.primary
          ])
            ≡ done r
          → (FirstUsable r.resolved (chain_of group)
              × (r.fallback_used ≡ not (usable group.primary)))
            ⊎ (All (λ m. usable m ≡ false) (chain_of group)
                × (r.resolved ≡ group.primary)
                × (r.fallback_used ≡ false))
      go (raised e) c k = cc
      go (done (some found)) c k =
          subst
            (λ (x : Resolution).
              (FirstUsable x.resolved (chain_of group)
                × (x.fallback_used ≡ not (usable group.primary)))
              ⊎ (All (λ m. usable m ≡ false) (chain_of group)
                  × (x.resolved ≡ group.primary)
                  × (x.fallback_used ≡ false)))
            (value k) (inl c)
      go (done none) c k =
          inr (let k' = kept (lookup group.primary settings.models) k in (c, k'.0, k'.1))
