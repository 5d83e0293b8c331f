-- ===== src/Adapters.antt =====
-- What the adapters report and raise: the records of src/keziah/types.py, `capability_names` and
-- `info_from` of src/keziah/adapters/base.py, `map_http_error` and
-- `response_from_payload` of src/keziah/adapters/http_common.py. The header `retry-after`, parsed by `float`, is an argument:
-- absent or no number is none, and a negative number counts as 0.
use keziah.Types.{Value, Fields, end, field, str, dict, get}
use keziah.Base.{
  ℕ, ◌-◌, ◌≡◌, String, Bool, true, false, ◌&&◌, ◌||◌, Option, none, some, List, [], ◌∷◌, ◌++◌,
  arith, ltb, leb, nat_eqb, if◌then◌else◌,
}

-- `AdapterCapabilities`.
pub record Capabilities : Type 0 where
  pub choice : Bool
  pub score : Bool
  pub noul : Bool
  pub supports_native_batch : Bool
  pub local : Bool
  pub recommended_concurrency : ℕ

-- `ModelHealth`.
pub record ModelHealth : Type 0 where
  pub ok : Bool
  pub permanent : Bool
  pub detail : String
  pub version : Option String

-- `ModelInfo`.
pub record ModelInfo : Type 0 where
  pub id : String
  pub adapter : String
  pub available : Bool
  pub local : Bool
  pub version : Option String
  pub capabilities : List String
  pub max_concurrency : ℕ
  pub active : ℕ
  pub available_slots : ℕ
  pub execution : String
  pub health : String
  pub endpoint : Option String
  pub supports_native_batch : Bool
  pub enabled : Bool

abbrev pub name_if : Bool → String → List String
name_if true name = name ∷ []
name_if false name = []

unfoldable pub capability_names : Capabilities → List String
capability_names caps =
    name_if caps.choice "choice" ++ (name_if caps.score "score" ++ name_if caps.noul "noul")

-- `info_from`; the subtraction stops at 0 as `max(0, ...)` does.
unfoldable pub info_from :
    String → String → ModelHealth → Capabilities → ℕ → String → Option String → Bool → ℕ → ModelInfo
unfolding capability_names
info_from model_id adapter health caps max_concurrency execution endpoint enabled active = record {
  id = model_id;
  adapter = adapter;
  available = enabled && health.ok;
  local = caps.local;
  version = health.version;
  capabilities = capability_names caps;
  max_concurrency = max_concurrency;
  active = active;
  available_slots = max_concurrency - active;
  execution = execution;
  health = if health.ok then "ok" else if health.permanent then "down" else "unavailable";
  endpoint = endpoint;
  supports_native_batch = caps.supports_native_batch;
  enabled = enabled;
}

-- What `map_http_error` raises, if anything.
pub data HttpError : Type 0 where
  permanent : (code : String) → HttpError
  retryable : (code : String) → Option ℕ → HttpError

unfoldable pub map_http_error : ℕ → Option ℕ → Option HttpError
map_http_error status retry_after =
    if ltb status 400
    then none
    else if nat_eqb status 401 || nat_eqb status 403
    then some (HttpError.permanent "authentication")
    else if nat_eqb status 404
    then some (HttpError.permanent "not_found")
    else if nat_eqb status 422 || nat_eqb status 400
    then some (HttpError.permanent "invalid_request")
    else if nat_eqb status 429 || nat_eqb status 529
    then some (HttpError.retryable "rate_limit" retry_after)
    else if leb 500 status && leb status 599
    then some (HttpError.retryable "server" retry_after)
    else some (HttpError.permanent "http_status")

-- `SystemOneResponse`; the seconds are whole milliseconds.
pub record Response : Type 0 where
  pub answers : Fields
  pub model_version : Option String
  pub usage : Option Fields
  pub elapsed : ℕ
  pub raw : Fields

abbrev pub text_or : Option Value → Option String → Option String
text_or (some (str s)) other = some s
text_or _ other = other

abbrev pub dict_only : Option Value → Option Fields
dict_only (some (dict m)) = some m
dict_only _ = none

-- `{key: payload[key] for key in names if key in payload}`.
unfoldable pub pick : List String → Fields → Fields
pick [] payload = end
pick (name ∷ names) payload = elim (get name payload) [
  | none ↦ pick names payload
  | some v ↦ field name v (pick names payload)
]

-- `response_from_payload`; none stands for the error `invalid_response`.
unfoldable pub response_from_payload : Fields → ℕ → Option String → Option Response
unfolding pick
response_from_payload payload elapsed fallback_version = elim (dict_only (get "answers" payload)) [
  | none ↦ none
  | some answers ↦ some (record {
    answers = answers;
    model_version = text_or (get "model" payload) fallback_version;
    usage = dict_only (get "usage" payload);
    elapsed = elapsed;
    raw = pick ("model" ∷ "answers" ∷ "usage" ∷ []) payload;
  })
]

abbrev pub is_retryable : Option HttpError → Bool
is_retryable none = false
is_retryable (some (HttpError.permanent code)) = false
is_retryable (some (HttpError.retryable code after)) = true

-- An answer of the server is an error exactly from status 400 on, and that error is retryable exactly
-- for status 429 and the statuses 500 to 599.
map_http_error-is_retryable :
    (status : ℕ) (retry_after : Option ℕ)
    → (is_retryable (map_http_error status retry_after)
        ≡ (nat_eqb status 429 || (leb 500 status && leb status 599)))
      × ((elim (map_http_error status retry_after) [ none ↦ false | some e ↦ true ])
          ≡ leb 400 status)
unfolding map_http_error
map_http_error-is_retryable status retry_after = (ground arith, ground arith)
