-- ===== src/Tests/Data.antt =====
-- Whole numbers in place of floating-point ones, a weight for each class, and jobs in each state.
use keziah.Base.{ℕ, ◌+◌, ◌-◌, ◌*◌, ◌≡◌, ◌⊎◌, String, true, false, none, some, [], ◌∷◌, arith, ltb}
use keziah.Base.Int.{pos, pos_part}
use keziah.Types.{State, Job, Candidate, end}
use keziah.Scheduler.Numbers.{Float, IsOrdered}
use keziah.Scheduler.{Weights, PickerState}
use keziah.Memory.{Limits}

abbrev pub whole : Float
whole = record {
  Num = ℕ;
  of_nat = λ n. n;
  of_int = λ i. pos_part i;
  add = λ a b. a + b;
  sub = λ a b. a - b;
  mul = λ a b. a * b;
  div = λ a b. a;
  lt = ltb;
  seconds = λ now then_. now - then_;
  three_quarters = 1;
}

whole_split : (a b c : ℕ) → ltb a c ≡ true → (ltb a b ≡ true) ⊎ (ltb b c ≡ true)
whole_split a b c h = ground arith

pub whole-IsOrdered : IsOrdered whole
whole-IsOrdered = record {
  lt_irrefl = λ a. ground arith;
  lt_trans = λ a b c h k. ground arith;
  lt_split = whole_split;
}

abbrev pub weights : Weights whole
weights = record {
  class_weights = ("interactive", 8) ∷ ("normal", 4) ∷ ("batch", 2) ∷ ("bulk", 1) ∷ [];
  starvation_seconds = 10;
  starvation_boost_cap = 8;
  priority_weight = 100;
  client_skip_weight = 25;
  age_weight = 1;
}

abbrev pub fresh_picker : PickerState whole
fresh_picker = record { credit = []; skips = [] }

abbrev pub limits : Limits
limits = record { max_queued_jobs = 3; max_batch_size = 2; max_active_jobs_per_client = 2 }

abbrev pub job_of : String → String → Job
job_of id class_ = record {
  job_id = id;
  batch_id = none;
  batch_ordinal = none;
  idempotency_key = none;
  idempotency_hash = none;
  client_id = "ann";
  created_at = 10;
  updated_at = 10;
  started_at = none;
  finished_at = none;
  not_before = none;
  priority = pos 0;
  scheduling_class = class_;
  requested_model = "mock";
  resolved_model = "mock";
  model_version = none;
  state = State.queued;
  payload = end;
  questions_hash = "q";
  attempt_count = 0;
  max_attempts = 2;
  lease_owner = none;
  lease_expires_at = none;
  execution_timeout_ms = none;
  deadline_at = none;
  result = none;
  error = none;
  queue_ms = none;
  execution_ms = none;
  total_ms = none;
  cancel_requested = false;
  fallback = none;
  replayed = false;
}

abbrev pub first_job : Job
first_job = record (job_of "a1" "normal") {
  idempotency_key = some "k";
  idempotency_hash = some "h";
}

abbrev pub candidate_of : String → ℕ → Candidate
candidate_of id created = record {
  job_id = id;
  scheduling_class = "normal";
  priority = pos 1;
  created_at = created;
  client_id = "ann";
  model = "mock";
  questions_hash = "q";
}
