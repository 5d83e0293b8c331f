-- ===== src/Config.antt =====
-- `_deep_merge`, `_env_overlay` and `load_settings` of src/keziah/config.py, on JSON values. The
-- environment, `strip`, `int` of a text, the file with the value of its YAML text, the dump of the default
-- settings and their validation by Pydantic are parameters.
pub mod Merge
pub mod Port
use keziah.Base.{
  zero, suc, String, Bool, true, false, ◌&&◌, not, Option, none, some, if◌then◌else◌, ◌==◌,
  string_eq,
}
use keziah.Base.Int.{ℤ, pos, negsuc}
use keziah.Types.{
  Value, Fields, end, field, no_items, item, null, bool, num, decimal, str, dict, list, get,
}
use keziah.Questions.{set_field}
use keziah.Registry.{Settings, validate_graph}

-- `merged.get(key)`, if it is a dict.
abbrev pub as_dict : Option Value → Option Fields
as_dict (some (dict m)) = some m
as_dict _ = none

-- `_deep_merge`: one entry of the overlay after the other.
unfoldable pub deep_merge : Fields → Fields → Fields
deep_merge base end = base
deep_merge base (field key (dict overlay) rest) =
    let value : Value = elim (as_dict (get key base)) [
      | some old ↦ dict (deep_merge old overlay)
      | none ↦ dict overlay
    ] in
    deep_merge (set_field key value base) rest
deep_merge base (field key null rest) = deep_merge (set_field key null base) rest
deep_merge base (field key (bool b) rest) = deep_merge (set_field key (bool b) base) rest
deep_merge base (field key (num n) rest) = deep_merge (set_field key (num n) base) rest
deep_merge base (field key (decimal t) rest) = deep_merge (set_field key (decimal t) base) rest
deep_merge base (field key (str t) rest) = deep_merge (set_field key (str t) base) rest
deep_merge base (field key (list xs) rest) = deep_merge (set_field key (list xs) base) rest

-- `bool(value)`.
unfoldable pub truthy : Value → Bool
truthy null = false
truthy (bool b) = b
truthy (num (pos zero)) = false
truthy (num (pos (suc n))) = true
truthy (num (negsuc n)) = true
truthy (decimal t) = not (t == "0.0") && not (t == "-0.0")
truthy (str t) = not (t == "")
truthy (dict end) = false
truthy (dict (field k v rest)) = true
truthy (list no_items) = false
truthy (list (item v rest)) = true

-- What a path leads to: no file, a file that cannot be read or whose text is no YAML, or a value.
pub data FileValue : Type 0 where
  no_file unreadable : FileValue
  holds : Value → FileValue

-- What `load_settings` comes to; `bad_config` is `ConfigError`, `bad_value` the `ValueError` of `int`
-- and `bad_file` the exception of `read_text` or of `yaml.safe_load`, which is not caught.
pub data Loaded {ℓ} (A : Type ℓ) : Type ℓ where
  loaded : A → Loaded A
  bad_config : Loaded A
  bad_file : Loaded A
  bad_value : Loaded A

unfoldable pub and_then : {A B : Type 0} → Loaded A → (A → Loaded B) → Loaded B
and_then (loaded x) f = f x
and_then bad_config f = bad_config
and_then bad_file f = bad_file
and_then bad_value f = bad_value

-- `if m: overlay[key] = m`.
abbrev pub add_section : String → Fields → Fields → Fields
add_section key end overlay = overlay
add_section key (field k v rest) overlay = set_field key (dict (field k v rest)) overlay

module _ (environ : String → Option String) (strip : String → String)
    (int_of : String → Option ℤ) where
  -- A variable that is set and not empty.
  unfoldable pub set_in_env : String → Option String
  set_in_env name = elim (environ name) [
    | none ↦ none
    | some text ↦ if text == "" then none else some (strip text)
  ]

  unfoldable pub put_env : String → String → Fields → Fields
  unfolding set_in_env
  put_env name key m = elim (set_in_env name) [ none ↦ m | some text ↦ set_field key (str text) m ]

  unfoldable pub queue_overlay : Fields
  unfolding put_env
  queue_overlay = put_env "KEZIAH_DB" "sqlite_path" (put_env "KEZIAH_MODE" "mode" end)

  unfoldable pub put_port : Fields → Loaded Fields
  unfolding set_in_env
  put_port m = elim (set_in_env "KEZIAH_PORT") [
    | none ↦ loaded m
    | some text ↦ elim (int_of text) [
      | none ↦ bad_value
      | some n ↦ loaded (set_field "port" (num n) m)
    ]
  ]

  unfoldable pub server_overlay : Loaded Fields
  unfolding put_env put_port and_then
  server_overlay =
      and_then (put_port (put_env "KEZIAH_HOST" "host" end)) (λ m.
        loaded (put_env "KEZIAH_API_KEY" "api_key" (put_env "KEZIAH_LOG_LEVEL" "log_level" m)))

  -- `_env_overlay`.
  unfoldable pub env_overlay : Loaded Fields
  unfolding queue_overlay server_overlay and_then
  env_overlay =
      and_then server_overlay
        (λ server. loaded (add_section "server" server (add_section "queue" queue_overlay end)))

-- `if key in loaded: data[key] = {}`.
unfoldable pub reset_if : String → Fields → Fields → Fields
reset_if key given tree = elim (get key given) [
  | none ↦ tree
  | some v ↦ set_field key (dict end) tree
]

-- A file's settings on top of `data` (here `tree`).
unfoldable pub merge_file : Value → Fields → Loaded Fields
unfolding truthy reset_if deep_merge
merge_file value tree =
    if truthy value
    then elim (as_dict (some value)) [
      | none ↦ bad_config
      | some given ↦ loaded (
          deep_merge
            (reset_if "model_groups" given
              (reset_if "aliases" given (reset_if "models" given tree)))
            given)
    ]
    else loaded (deep_merge tree end)

-- `overrides` on top of `data` (here `tree`); none is the same as an empty one.
unfoldable pub merge_overrides : Fields → Fields → Fields
unfolding reset_if deep_merge
merge_overrides end tree = tree
merge_overrides (field k v rest) tree =
    deep_merge (reset_if "models" (field k v rest) tree) (field k v rest)

module _ (environ : String → Option String) (strip : String → String) (int_of : String → Option ℤ)
    (read_yaml : String → FileValue) (default_dump : Fields)
    (model_validate : Fields → Option Settings) where
  unfoldable pub path_in_env : Option String
  path_in_env = elim (environ "KEZIAH_CONFIG") [
    | none ↦ none
    | some text ↦ if strip text == "" then none else some (strip text)
  ]

  -- The path of the file: the argument, or the variable KEZIAH_CONFIG.
  unfoldable pub file_path : Option String → Option String
  unfolding path_in_env
  file_path none = path_in_env
  file_path (some path) = if path == "" then path_in_env else some path

  unfoldable pub with_file : Option String → Fields → Loaded Fields
  unfolding merge_file
  with_file none tree = loaded tree
  with_file (some path) tree = elim (read_yaml path) [
    | no_file ↦ bad_config
    | unreadable ↦ bad_file
    | holds value ↦ merge_file value tree
  ]

  unfoldable pub with_env : Bool → Fields → Loaded Fields
  unfolding env_overlay and_then deep_merge
  with_env true tree =
      and_then (env_overlay environ strip int_of) (λ overlay. loaded (deep_merge tree overlay))
  with_env false tree = loaded tree

  unfoldable pub validated : Fields → Loaded Settings
  unfolding validate_graph
  validated tree = elim (model_validate tree) [
    | none ↦ bad_config
    | some settings ↦ if validate_graph settings then loaded settings else bad_config
  ]

  -- `load_settings`.
  unfoldable pub load_settings : Option String → Fields → Bool → Bool → Loaded Settings
  unfolding file_path with_file with_env merge_overrides validated and_then
  load_settings path overrides use_env use_defaults =
      and_then (with_file (file_path path) (if use_defaults then default_dump else end)) (λ tree.
        and_then (with_env use_env tree) (λ more. validated (merge_overrides overrides more)))
