-- ===== src/Tests/Settings.antt =====
-- Runs of the theorems on the loading of settings.
use keziah.Base.{
  ◌≡◌, refl, String, true, Option, none, some, [], ◌∷◌, if◌then◌else◌, ◌==◌, string_eq, keys,
  contains,
}
use keziah.Base.Int.{ℤ, pos}
use keziah.Types.{Fields, end, field, num, str, dict, get}
use keziah.Questions.{set_field}
use keziah.Registry.{Settings, validate_graph}
use keziah.Config.{
  FileValue, holds, loaded, and_then, deep_merge, truthy, reset_if, merge_file, merge_overrides,
  set_in_env, put_env, queue_overlay, put_port, server_overlay, env_overlay, file_path, with_file,
  with_env, validated, load_settings,
}
use keziah.Config.Merge.{laid_over, get-deep_merge}
use keziah.Config.Port.{port_of, load_settings-port}

-- A file with another port, and the defaults below it.
abbrev with_port : String → Fields → Fields
with_port host rest = field "server" (dict (field "host" (str host) rest)) end

abbrev default_dump : Fields
default_dump = with_port "127.0.0.1" (field "port" (num (pos 8000)) end)

abbrev given : Fields
given = field "server" (dict (field "port" (num (pos 9000)) end)) end

get-deep_merge_example :
    get "server" (deep_merge default_dump given)
    ≡ laid_over (get "server" default_dump) (get "server" given)
unfolding get
get-deep_merge_example = get-deep_merge default_dump given "server" (refl, tt)

abbrev environ : String → Option String
environ name = if name == "KEZIAH_PORT" then some "7000" else none

abbrev same_text : String → String
same_text t = t

abbrev int_of : String → Option ℤ
int_of t = if t == "7000" then some (pos 7000) else none

abbrev read_yaml : String → FileValue
read_yaml path = holds (dict given)

abbrev one_model : Settings
one_model = record {
  models = ("mock", record { adapter = "mock"; enabled = true; endpoint = none }) ∷ [];
  aliases = [];
  model_groups = [];
}

abbrev model_validate : Fields → Option Settings
model_validate tree = some one_model

it_loads :
    load_settings environ same_text int_of read_yaml default_dump model_validate
      (some "keziah.yaml")
      end
      true
      true
    ≡ loaded one_model
unfolding load_settings file_path with_file merge_file truthy reset_if deep_merge and_then with_env
    env_overlay queue_overlay server_overlay put_env put_port set_in_env validated merge_overrides
    get set_field validate_graph keys contains
it_loads = refl

load_settings-port_example :
    (tree : Fields) × (port_of tree ≡ some (num (pos 7000)))
    × (model_validate tree ≡ some one_model)
    × (validate_graph one_model ≡ true)
unfolding set_in_env
load_settings-port_example =
    load_settings-port environ same_text int_of read_yaml default_dump model_validate "7000"
      (pos 7000) port_set refl (some "keziah.yaml") true one_model it_loads
  where
    port_set : set_in_env environ same_text int_of "KEZIAH_PORT" ≡ some "7000"
    port_set = refl
