-- ===== src/Registry.antt =====
-- src/keziah/registry.py: names of models, aliases and fallback groups, and `_validate_graph` of
-- src/keziah/config.py, which settings pass before a registry is built on them. The health of a
-- model, which its adapter reports, is a parameter.
pub mod Aliases
pub mod Resolved
use keziah.Base.{
  ℕ, zero, suc, String, Bool, true, false, ◌&&◌, ◌||◌, not, Option, none, some, List, [], ◌∷◌, ltb,
  if◌then◌else◌, length, Dict, lookup, keys, contains, ◌==◌, string_eq,
}

-- The fields of `ModelSettings` that this file reads.
pub record ModelSettings : Type 0 where
  pub adapter : String
  pub enabled : Bool
  pub endpoint : Option String

-- `ModelGroupSettings`.
pub record ModelGroupSettings : Type 0 where
  pub primary : String
  pub fallbacks : List String

-- The fields of `Settings` that this file reads.
pub record Settings : Type 0 where
  pub models : Dict String ModelSettings
  pub aliases : Dict String String
  pub model_groups : Dict String ModelGroupSettings

-- `Resolution`.
pub record Resolution : Type 0 where
  pub requested : String
  pub resolved : String
  pub adapter : String
  pub fallback_used : Bool
  pub fallback_reason : Option String
  pub chain : List String

-- The exceptions; `key_error` is Python's, from a subscript, and `unfinished` is a loop cut short.
pub data RegistryError : Type 0 where
  unknown_model model_unavailable alias_cycle config key_error unfinished : RegistryError

pub data Outcome {ℓ} (A : Type ℓ) : Type ℓ where
  done : A → Outcome A
  raised : RegistryError → Outcome A

-- The loop of `follow`, with the names it has seen.
unfoldable pub follow_from : ℕ → Dict String String → List String → String → Outcome String
follow_from zero aliases seen cursor = raised RegistryError.unfinished
follow_from (suc turns) aliases seen cursor = elim (lookup cursor aliases) [
  | none ↦ done cursor
  | some target ↦
      if contains seen cursor
      then raised RegistryError.alias_cycle
      else follow_from turns aliases (cursor ∷ seen) target
]

-- `follow`: one turn for each alias, one for a name that closes a cycle, are enough.
unfoldable pub follow : Dict String String → String → Outcome String
unfolding follow_from
follow aliases name = follow_from (suc (length aliases)) aliases [] name

-- `is_group`.
unfoldable pub is_group : Settings → String → Outcome Bool
unfolding follow
is_group settings name = elim (follow settings.aliases name) [
  | raised e ↦ raised e
  | done expanded ↦ done (contains (keys settings.model_groups) expanded)
]

abbrev pub chain_of : ModelGroupSettings → List String
chain_of group = group.primary ∷ group.fallbacks

module _ (healthy : String → Bool) (settings : Settings) (requested : String)
    (chain : List String) where
  abbrev pub resolution : Bool → String → String → Resolution
  resolution fallback_used resolved adapter = record {
    requested = requested;
    resolved = resolved;
    adapter = adapter;
    fallback_used = fallback_used;
    fallback_reason = if fallback_used then some "primary_unavailable" else none;
    chain = chain;
  }

  -- The loop of `_resolve_group`; `later` tells whether the index is above 0.
  unfoldable pub first_healthy : Bool → List String → Outcome (Option Resolution)
  first_healthy later [] = done none
  first_healthy later (model ∷ rest) =
      let others = first_healthy true rest in
      elim (lookup model settings.models) [
        | none ↦ raised RegistryError.key_error
        | some spec ↦
            if not spec.enabled
            then others
            else if healthy model
            then done (some (resolution later model spec.adapter))
            else others
      ]

  -- The end of `_resolve_group`: the job stays on the primary model if that is enabled.
  unfoldable pub keep_primary : String → Outcome Resolution
  keep_primary primary = elim (lookup primary settings.models) [
    | none ↦ raised RegistryError.key_error
    | some spec ↦
        if not spec.enabled
        then raised RegistryError.model_unavailable
        else done (resolution false primary spec.adapter)
  ]

module _ (healthy : String → Bool) (settings : Settings) where
  -- `_resolve_group`.
  unfoldable pub resolve_group : String → ModelGroupSettings → Outcome Resolution
  unfolding first_healthy keep_primary
  resolve_group requested group =
      elim (first_healthy healthy settings requested (chain_of group) false (chain_of group)) [
        | raised e ↦ raised e
        | done (some found) ↦ done found
        | done none ↦ keep_primary healthy settings requested (chain_of group) group.primary
      ]

  -- A name that is no group: `resolve` after the group test.
  unfoldable pub resolve_model : String → String → Outcome Resolution
  resolve_model requested expanded = elim (lookup expanded settings.models) [
    | none ↦ raised RegistryError.unknown_model
    | some spec ↦
        if not spec.enabled
        then raised RegistryError.model_unavailable
        else done
            (resolution healthy settings requested (expanded ∷ []) false expanded spec.adapter)
  ]

  unfoldable pub resolve_expanded : String → String → Outcome Resolution
  unfolding resolve_group resolve_model
  resolve_expanded requested expanded = elim (lookup expanded settings.model_groups) [
    | none ↦ resolve_model requested expanded
    | some group ↦ resolve_group requested group
  ]

  -- `resolve`.
  unfoldable pub resolve : String → Outcome Resolution
  unfolding follow resolve_expanded
  resolve name = elim (follow settings.aliases name) [
    | raised e ↦ raised e
    | done expanded ↦ resolve_expanded name expanded
  ]

-- `all(item in known for item in chain)`.
unfoldable pub all_known : Dict String ModelSettings → List String → Bool
all_known models [] = true
all_known models (item ∷ rest) = contains (keys models) item && all_known models rest

-- The loop over `settings.aliases` that rejects a name that is a model's as well.
unfoldable pub apart : Dict String ModelSettings → List String → Bool
apart models [] = true
apart models (alias ∷ rest) = not (contains (keys models) alias) && apart models rest

-- The loop that follows each alias to a model or a group.
unfoldable pub aliases_lead : Settings → List String → Bool
unfolding follow
aliases_lead settings [] = true
aliases_lead settings (alias ∷ rest) =
    elim (follow settings.aliases alias) [
      | raised e ↦ false
      | done end ↦ contains (keys settings.models) end || contains (keys settings.model_groups) end
    ]
    && aliases_lead settings rest

-- The loop over the groups.
unfoldable pub groups_known : Settings → Dict String ModelGroupSettings → Bool
unfolding all_known
groups_known settings [] = true
groups_known settings ((name, group) ∷ rest) =
    not (contains (keys settings.models) name || contains (keys settings.aliases) name)
    && not (group.primary == "")
    && all_known settings.models (chain_of group)
    && groups_known settings rest

abbrev pub http_adapters : List String
http_adapters = "http" ∷ "systemone-http" ∷ "generic" ∷ []

abbrev pub known_adapters : List String
known_adapters = "mock" ∷ "laya" ∷ "jev" ∷ http_adapters

-- `not not spec.endpoint`; an empty text counts as none.
abbrev pub has_endpoint : Option String → Bool
has_endpoint none = false
has_endpoint (some endpoint) = not (endpoint == "")

-- The test of the loop over the models.
unfoldable pub adapter_ok : ModelSettings → Bool
adapter_ok spec =
    contains known_adapters spec.adapter
    && (not (contains http_adapters spec.adapter) || has_endpoint spec.endpoint)

unfoldable pub adapters_ok : Dict String ModelSettings → Bool
unfolding adapter_ok
adapters_ok [] = true
adapters_ok ((model, spec) ∷ rest) = adapter_ok spec && adapters_ok rest

-- `_validate_graph` raises nothing.
unfoldable pub validate_graph : Settings → Bool
unfolding apart aliases_lead groups_known adapters_ok
validate_graph settings =
    ltb 0 (length settings.models)
    && apart settings.models (keys settings.aliases)
    && aliases_lead settings (keys settings.aliases)
    && groups_known settings settings.model_groups
    && adapters_ok settings.models
