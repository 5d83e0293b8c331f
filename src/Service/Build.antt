-- ===== src/Service/Build.antt =====
-- `_build_job` of src/keziah/service.py: the checks of a request, in the order in which they are made,
-- and the job. An argument that a caller may leave out, or give with another type, is a JSON value, with
-- `null` for None. Texts, timestamps and hashes are read by Python's own functions: `Outside`.
use keziah.Base.{
  ℕ, String, Bool, true, false, ◌&&◌, ◌||◌, not, Option, none, some, contains, ltb, if◌then◌else◌,
  ◌==◌, string_eq,
}
use keziah.Base.Int.{ℤ, pos, negsuc, pos_part, ltb_ℤ}
use keziah.Types.{
  State, Job, Value, Fields, end, field, null, bool, num, str, dict, get, scheduling_classes,
}
use keziah.Questions.{QuestionError, good, bad, valid_state, normalise_questions}
use keziah.Registry.{Settings, Resolution, RegistryError, done, raised, resolve}

-- `str.strip`, `datetime.fromisoformat` (`none` for a text that it refuses, `some none` for one without a
-- timezone), the length of `canonical_json` in bytes, `payload_hash`, and the text of an option.
pub record Outside : Type 0 where
  pub strip : String → String
  pub read_moment : String → Option (Option ℕ)
  pub size : Fields → ℕ
  pub payload_hash : Fields → String
  pub text_of : Value → String

-- What `_build_job` reads of the settings and of the service.
pub record Policy : Type 0 where
  pub accepting : Bool
  pub default_class : String
  pub max_questions : ℕ
  pub max_request_bytes : ℕ
  pub default_max_attempts : ℤ

-- The arguments.
pub record Order : Type 0 where
  pub model : String
  pub state : Value
  pub questions : Value
  pub client_id : String
  pub priority : Value
  pub scheduling_class : Option String
  pub idempotency_key : Value
  pub parameters : Fields
  pub execution_timeout_ms : Value
  pub deadline_at : Value
  pub max_attempts : Value
  pub batch_id : Option String
  pub batch_ordinal : Option ℕ

pub data BuildError : Type 0 where
  shutting_down no_model bad_class bad_priority bad_state bad_deadline bad_timeout : BuildError
  request_too_large bad_attempts too_few_attempts : BuildError
  bad_questions : QuestionError → BuildError
  bad_model : RegistryError → BuildError

pub data Built {ℓ} (A : Type ℓ) : Type ℓ where
  built : A → Built A
  refused : BuildError → Built A

-- `isinstance(value, int) and not isinstance(value, bool)`.
abbrev pub int_of : Value → Option ℤ
int_of (num n) = some n
int_of _ = none

-- `not value` on an optional text.
abbrev pub class_or : String → Option String → String
class_or default none = default
class_or default (some name) = if name == "" then default else name

-- `_class`.
unfoldable pub class_of : String → Option String → Built String
unfolding contains
class_of default value =
    let chosen = class_or default value in
    if not (contains scheduling_classes chosen) then refused BuildError.bad_class else built chosen

-- `-1_000_000 <= priority <= 1_000_000`.
abbrev pub in_range : ℤ → Bool
in_range n = not (ltb_ℤ n (negsuc 999_999)) && not (ltb_ℤ (pos 1_000_000) n)

unfoldable pub priority_of : Value → Built ℤ
priority_of value = elim (int_of value) [
  | none ↦ refused BuildError.bad_priority
  | some n ↦ if not (in_range n) then refused BuildError.bad_priority else built n
]

unfoldable pub timeout_of : Value → Built (Option ℤ)
timeout_of null = built none
timeout_of (num n) = built (some n)
timeout_of _ = refused BuildError.bad_timeout

-- The positive attempts of an integer.
abbrev pub enough : ℤ → Built ℕ
enough n = if ltb_ℤ n (pos 1) then refused BuildError.too_few_attempts else built (pos_part n)

unfoldable pub attempts_of : ℤ → Value → Built ℕ
attempts_of default null = enough default
attempts_of default (num n) = enough n
attempts_of default _ = refused BuildError.bad_attempts

module _ (O : Outside) where
  open O use {strip, read_moment, size, payload_hash, text_of}

  -- `_normalise_deadline`; `isoformat` of a moment is its number.
  unfoldable pub normalise_deadline : Value → Built (Option ℕ)
  normalise_deadline null = built none
  normalise_deadline (str text) =
      if strip text == "" then refused BuildError.bad_deadline else elim (read_moment text) [
        | none ↦ refused BuildError.bad_deadline
        | some none ↦ refused BuildError.bad_deadline
        | some (some moment) ↦ built (some moment)
      ]
  normalise_deadline _ = refused BuildError.bad_deadline

  -- The idempotency key, where a text that is blank counts as none.
  unfoldable pub key_of : Value → Option String
  key_of (str text) = if strip text == "" then none else some (strip text)
  key_of _ = none

  -- `parameters.get(name) is not None`.
  abbrev pub is_set : String → Fields → Bool
  is_set name parameters = elim (get name parameters) [
    | none ↦ false
    | some v ↦ elim v [ null ↦ false | _ ↦ true ]
  ]

  -- `_coalesce_hash`; `solo` is a fresh random text.
  unfoldable pub coalesce_hash : String → Fields → Fields → String
  coalesce_hash solo questions parameters = payload_hash (
      field "questions" (dict questions) (
        field "parameters" (dict parameters) (
          if is_set "max_len" parameters || is_set "head_max_len" parameters
          then field "solo" (str solo) end
          else end)))

  abbrev pub payload_of : Value → Fields → Fields → Fields
  payload_of state questions parameters =
      field "state" state
        (field "questions" (dict questions) (field "parameters" (dict parameters) end))

  abbrev pub identity_of : Resolution → Fields → ℤ → String → Fields
  identity_of r payload priority class_ = field "model" (str r.requested) (
      field "payload" (dict payload)
        (field "priority" (num priority) (field "scheduling_class" (str class_) end)))

  abbrev pub fallback_of : Resolution → Option Fields
  fallback_of r =
      if r.fallback_used
      then some (
          field "used" (bool true) (
            field "reason" (elim r.fallback_reason [ none ↦ null | some text ↦ str text ])
              (field "requested" (str r.requested) (field "resolved" (str r.resolved) end))))
      else none

  abbrev pub first_state : Option String → State
  first_state none = State.queued
  first_state (some batch_id) = State.staged

  module _ (healthy : String → Bool) (settings : Settings) (policy : Policy) (id solo : String)
      (now : ℕ) (order : Order) where
    -- The job, when every check has passed.
    unfoldable pub new_job : String → ℤ → Fields → Option ℕ → Option ℤ → Resolution → ℕ → Job
    unfolding coalesce_hash key_of
    new_job class_ priority questions deadline timeout r attempts =
        let payload = payload_of order.state questions order.parameters in
        let key = key_of order.idempotency_key in
        record {
          job_id = id;
          batch_id = order.batch_id;
          batch_ordinal = order.batch_ordinal;
          idempotency_key = key;
          idempotency_hash = elim key [
            | none ↦ none
            | some text ↦ some (payload_hash (identity_of r payload priority class_))
          ];
          client_id = order.client_id;
          created_at = now;
          updated_at = now;
          started_at = none;
          finished_at = none;
          not_before = none;
          priority = priority;
          scheduling_class = class_;
          requested_model = r.requested;
          resolved_model = r.resolved;
          model_version = none;
          state = first_state order.batch_id;
          payload = payload;
          questions_hash = coalesce_hash solo questions order.parameters;
          attempt_count = 0;
          max_attempts = attempts;
          lease_owner = none;
          lease_expires_at = none;
          execution_timeout_ms = timeout;
          deadline_at = deadline;
          result = none;
          error = none;
          queue_ms = none;
          execution_ms = none;
          total_ms = none;
          cancel_requested = false;
          fallback = fallback_of r;
          replayed = false;
        }

    -- The checks from `registry.resolve` on.
    unfoldable pub build_resolved :
        String → ℤ → Fields → Option ℕ → Option ℤ → Resolution → Built Job
    unfolding new_job attempts_of
    build_resolved class_ priority questions deadline timeout r =
        if ltb policy.max_request_bytes (size (payload_of order.state questions order.parameters))
        then refused BuildError.request_too_large
        else elim (attempts_of policy.default_max_attempts order.max_attempts) [
          | refused e ↦ refused e
          | built attempts ↦ built (new_job class_ priority questions deadline timeout r attempts)
        ]

    -- The checks from `validate_state` on.
    unfoldable pub build_checked : String → ℤ → Built Job
    unfolding build_resolved normalise_questions normalise_deadline timeout_of resolve
    build_checked class_ priority =
        if not (valid_state order.state)
        then refused BuildError.bad_state
        else elim (normalise_questions text_of policy.max_questions order.questions) [
          | bad e ↦ refused (BuildError.bad_questions e)
          | good questions ↦ elim (normalise_deadline order.deadline_at) [
            | refused e ↦ refused e
            | built deadline ↦ elim (timeout_of order.execution_timeout_ms) [
              | refused e ↦ refused e
              | built timeout ↦ elim (resolve healthy settings order.model) [
                | raised e ↦ refused (BuildError.bad_model e)
                | done r ↦ build_resolved class_ priority questions deadline timeout r
              ]
            ]
          ]
        ]

    -- `_build_job`.
    unfoldable pub build_job : Built Job
    unfolding build_checked class_of priority_of
    build_job =
        if not policy.accepting
        then refused BuildError.shutting_down
        else if order.model == ""
        then refused BuildError.no_model
        else elim (class_of policy.default_class order.scheduling_class) [
          | refused e ↦ refused e
          | built class_ ↦ elim (priority_of order.priority) [
            | refused e ↦ refused e
            | built priority ↦ build_checked class_ priority
          ]
        ]
