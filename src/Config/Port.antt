-- ===== src/Config/Port.antt =====
-- The port of the server in `load_settings` of src/keziah/config.py.
use keziah.Base.{
  ◌≡◌, refl, sym, ap, subst, ◌∙◌, String, Bool, true, false, Option, none, some, if◌then◌else◌,
  ◌==◌, string_eq, eq_self, split_option, split_if,
}
use keziah.Base.Int.{ℤ}
use keziah.Types.{Value, Fields, end, field, num, dict, get}
use keziah.Questions.{set_field}
use keziah.Registry.{Settings, validate_graph}
use keziah.Config.{
  Loaded, loaded, bad_config, bad_file, FileValue, bad_value, and_then, as_dict, deep_merge,
  add_section, set_in_env, put_env, queue_overlay, put_port, server_overlay, env_overlay, with_env,
  with_file, file_path, merge_overrides, validated, load_settings,
}
use keziah.Config.Merge.{
  DistinctKeys, merged, laid_over, get-set_field, set_field-DistinctKeys, get-deep_merge,
}

and_then-loaded :
    {A B : Type 0} (r : Loaded A) (f : A → Loaded B) (y : B)
    → and_then r f ≡ loaded y
    → (x : A) × (r ≡ loaded x) × (f x ≡ loaded y)
unfolding and_then
and_then-loaded (loaded x) f y h = (x, refl, h)
and_then-loaded bad_config f y h = cc
and_then-loaded bad_file f y h = cc
and_then-loaded bad_value f y h = cc

loaded_value : {A : Type 0} {a b : A} → loaded a ≡ loaded b → a ≡ b
loaded_value e = cc

-- `data["server"]["port"]`.
abbrev pub port_of : Fields → Option Value
port_of tree = elim (as_dict (get "server" tree)) [ none ↦ none | some server ↦ get "port" server ]

port_at : (tree s : Fields) → get "server" tree ≡ some (dict s) → port_of tree ≡ get "port" s
port_at tree s e = rw (port_of, e) refl

module _ (environ : String → Option String) (strip : String → String)
    (int_of : String → Option ℤ) where
  get-put_env :
      (name key k : String) (m : Fields)
      → (key == k) ≡ false
      → get k (put_env environ strip int_of name key m) ≡ get k m
  unfolding put_env
  get-put_env name key k m other =
      split_option (λ r. get k r ≡ get k m) (set_in_env environ strip int_of name) (λ e. refl)
        (λ text e. get-set_field key k (Value.str text) m ∙ rw other refl)

  put_env-DistinctKeys :
      (name key : String) (m : Fields)
      → DistinctKeys m
      → DistinctKeys (put_env environ strip int_of name key m)
  unfolding put_env
  put_env-DistinctKeys name key m h =
      split_option DistinctKeys (set_in_env environ strip int_of name) (λ e. h)
        (λ text e. set_field-DistinctKeys key (Value.str text) m h)

  add_section-DistinctKeys :
      (key : String) (m overlay : Fields)
      → DistinctKeys overlay
      → DistinctKeys (add_section key m overlay)
  add_section-DistinctKeys key end overlay h = h
  add_section-DistinctKeys key (field k v rest) overlay h =
      set_field-DistinctKeys key (dict (field k v rest)) overlay h

  get-add_section :
      (key : String) (m overlay : Fields) (k : String) (v : Value)
      → get k m ≡ some v
      → get key (add_section key m overlay) ≡ some (dict m)
  unfolding get
  get-add_section key end overlay k v h = cc
  get-add_section key (field j w rest) overlay k v h =
      get-set_field key key (dict (field j w rest)) overlay ∙ rw (eq_self key) refl

  put_port-sets :
      (t : String) (n : ℤ) (host m : Fields)
      → set_in_env environ strip int_of "KEZIAH_PORT" ≡ some t
      → int_of t ≡ some n
      → put_port environ strip int_of host ≡ loaded m
      → set_field "port" (num n) host ≡ m
  unfolding put_port
  put_port-sets t n host m there number h =
      loaded_value (sym (rw (put_port, there, number) refl) ∙ h)

  -- The texts beside the port.
  abbrev texts : Fields → Fields
  texts m =
      put_env environ strip int_of "KEZIAH_API_KEY" "api_key"
        (put_env environ strip int_of "KEZIAH_LOG_LEVEL" "log_level" m)

  texts-port : (m : Fields) → get "port" (texts m) ≡ get "port" m
  texts-port m =
      get-put_env "KEZIAH_API_KEY" "api_key" "port"
        (put_env environ strip int_of "KEZIAH_LOG_LEVEL" "log_level" m) refl
      ∙ get-put_env "KEZIAH_LOG_LEVEL" "log_level" "port" m refl

  texts-DistinctKeys : (m : Fields) → DistinctKeys m → DistinctKeys (texts m)
  texts-DistinctKeys m h =
      put_env-DistinctKeys "KEZIAH_API_KEY" "api_key"
        (put_env environ strip int_of "KEZIAH_LOG_LEVEL" "log_level" m)
        (put_env-DistinctKeys "KEZIAH_LOG_LEVEL" "log_level" m h)

  -- The server's part of the environment, with the port.
  server_overlay-port :
      (t : String) (n : ℤ) (server : Fields)
      → set_in_env environ strip int_of "KEZIAH_PORT" ≡ some t
      → int_of t ≡ some n
      → server_overlay environ strip int_of ≡ loaded server
      → (get "port" server ≡ some (num n)) × DistinctKeys server
  unfolding server_overlay
  server_overlay-port t n server there number h =
      let host : Fields = put_env environ strip int_of "KEZIAH_HOST" "host" end in
      let (m, e, f) =
        and_then-loaded (put_port environ strip int_of host) (λ m. loaded (texts m)) server h in
      let set_there = put_port-sets t n host m there number e in
      let whole = loaded_value f in
      (
        ap (get "port") (sym whole)
            ∙ texts-port m
            ∙ ap (get "port") (sym set_there)
            ∙ get-set_field "port" "port" (num n) host,
        subst DistinctKeys whole (
            texts-DistinctKeys m (
              subst DistinctKeys set_there (
                set_field-DistinctKeys "port" (num n) host
                  (put_env-DistinctKeys "KEZIAH_HOST" "host" end tt)))),
      )

  queue_first :
      (queue server : Fields)
      → DistinctKeys (add_section "server" server (add_section "queue" queue end))
  queue_first queue server =
      add_section-DistinctKeys "server" server (add_section "queue" queue end)
        (add_section-DistinctKeys "queue" queue end tt)

  merged-port :
      (old : Option Value) (server : Fields) (n : ℤ)
      → DistinctKeys server
      → get "port" server ≡ some (num n)
      → (s : Fields) × (merged old (dict server) ≡ dict s) × (get "port" s ≡ some (num n))
  merged-port old server n distinct h =
      split_option (λ x. (s : Fields) × (x ≡ dict s) × (get "port" s ≡ some (num n))) (as_dict old)
        (λ e. (server, refl, h))
        (λ base e.
          (deep_merge base server, refl, get-deep_merge base server "port" distinct ∙ rw h refl))

module _ (environ : String → Option String) (strip : String → String) (int_of : String → Option ℤ)
    (read_yaml : String → FileValue) (default_dump : Fields)
    (model_validate : Fields → Option Settings) (t : String) (n : ℤ)
    (there : set_in_env environ strip int_of "KEZIAH_PORT" ≡ some t)
    (number : int_of t ≡ some n) where
  -- After the environment is laid over, the port is that of KEZIAH_PORT.
  with_env-port :
      (tree more : Fields)
      → with_env environ strip int_of read_yaml default_dump model_validate true tree ≡ loaded more
      → port_of more ≡ some (num n)
  unfolding with_env env_overlay
  with_env-port tree more h =
      let queue = queue_overlay environ strip int_of in
      let (overlay, e, f) =
        and_then-loaded (env_overlay environ strip int_of) (λ o. loaded (deep_merge tree o)) more
          h in
      let (server, e', f') =
        and_then-loaded (server_overlay environ strip int_of)
          (λ s. loaded (add_section "server" s (add_section "queue" queue end))) overlay e in
      let (port, distinct) = server_overlay-port environ strip int_of t n server there number e' in
      let (s, at_server, at_port) =
        merged-port environ strip int_of (get "server" tree) server n distinct port in
      let whole = loaded_value f' in
      let found =
        get-deep_merge tree overlay "server"
          (subst DistinctKeys whole (queue_first environ strip int_of queue server))
        ∙ ap (laid_over (get "server" tree)) (
            ap (get "server") (sym whole)
            ∙ get-add_section environ strip int_of "server" server (add_section "queue" queue end)
                "port" (num n) port)
        ∙ ap some at_server in
      ap port_of (sym (loaded_value f)) ∙ port_at (deep_merge tree overlay) s found ∙ at_port

  validated-passes :
      (tree : Fields) (settings : Settings)
      → validated environ strip int_of read_yaml default_dump model_validate tree ≡ loaded settings
      → (model_validate tree ≡ some settings) × (validate_graph settings ≡ true)
  unfolding validated
  validated-passes tree settings =
      split_option
        (λ r.
          r ≡ loaded settings
          → (model_validate tree ≡ some settings) × (validate_graph settings ≡ true))
        (model_validate tree) (λ e h. cc)
        (λ s e.
          split_if
            (λ r.
              r ≡ loaded settings
              → (model_validate tree ≡ some settings) × (validate_graph settings ≡ true))
            (validate_graph s)
            (λ ok h.
              let same = loaded_value h in (e ∙ ap some same, sym (ap validate_graph same) ∙ ok))
            (λ bad h. cc))

  -- Where `load_settings` reads the environment, KEZIAH_PORT is set to the text of a number and there
  -- are no overrides, settings that it returns are validated from data whose port is that number,
  -- whatever the file and the defaults say, and they pass `_validate_graph`.
  pub load_settings-port :
      (path : Option String) (use_defaults : Bool) (settings : Settings)
      → load_settings environ strip int_of read_yaml default_dump model_validate path end true
          use_defaults
        ≡ loaded settings
      → (tree : Fields) × (port_of tree ≡ some (num n))
        × (model_validate tree ≡ some settings)
        × (validate_graph settings ≡ true)
  unfolding load_settings merge_overrides validated
  load_settings-port path use_defaults settings h =
      let read = with_env environ strip int_of read_yaml default_dump model_validate true in
      let finish = validated environ strip int_of read_yaml default_dump model_validate in
      let (tree, e, f) =
        and_then-loaded
          (with_file environ strip int_of read_yaml default_dump model_validate
            (file_path environ strip int_of read_yaml default_dump model_validate path)
            (if use_defaults then default_dump else end))
          (λ d. and_then (read d) (λ m. finish m)) settings h in
      let (more, e', f') = and_then-loaded (read tree) finish settings f in
      let (valid, passes) = validated-passes more settings f' in
      (more, with_env-port tree more e', valid, passes)
