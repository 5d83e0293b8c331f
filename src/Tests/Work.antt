-- ===== src/Tests/Work.antt =====
-- Runs of the theorems on the service.
use keziah.Memory.{Memory, in_batch}
use keziah.Base.{
  ◌⊎◌, ltb, insert, leb, length, count, values, ℕ, ◌≡◌, refl, String, Bool, true, false, none, some,
  [], ◌∷◌, All, lookup, string_eq,
}
use keziah.Base.Int.{pos}
use keziah.Types.Json.{get}
use keziah.Types.{Fields, Batch, BatchStatus, State, Job, end, field, null, num, str, dict}
use keziah.Adapters.{ModelHealth}
use keziah.Registry.{Settings, resolve}
use keziah.Memory.Run.{init}
use keziah.Memory.Keeps.Submit.{IsNew}
use keziah.Questions.{normalise_questions}
use keziah.Service.Build.{Outside, Policy, Order, Built, built, refused, build_job}
use keziah.Service.Accepted.{Accepted, build_job-Accepted, build_job-IsNew}
use keziah.Service.Targets.{Target}
use keziah.Service.Execute.{Reply, Work, prepare}
use keziah.Service.Running.{Runs, prepare-Runs}
use keziah.Memory.Submit.{enqueue}
use keziah.Service.Dispatch.{Spec, Dispatcher, dispatch_model}
use keziah.Service.Launched.{Ends, dispatch_model-Ends}
use keziah.Memory.Batches.{empty_counts, batch_view}
use keziah.Service.Views.{shown, batch_dict, batch_dict-batch_view}
use keziah.Service.Batching.{Bounds, Submitted, accepted, rejected, fill}
use keziah.Service.Bounded.{fill-Bounded}
use keziah.Tests.Data.{whole, weights, fresh_picker, limits, first_job}

abbrev outside : Outside
outside = record {
  strip = λ text. text;
  read_moment = λ text. some (some 99);
  size = λ m. 10;
  payload_hash = λ m. "hash";
  text_of = λ v. "";
}

abbrev policy : Policy
policy = record {
  accepting = true;
  default_class = "normal";
  max_questions = 4;
  max_request_bytes = 100;
  default_max_attempts = pos 3;
}

abbrev one_model : Settings
one_model = record {
  models = ("mock", record { adapter = "mock"; enabled = true; endpoint = none }) ∷ [];
  aliases = [];
  model_groups = [];
}

abbrev order : Order
order = record {
  model = "mock";
  state = str "text";
  questions =
      dict (field "q" (dict (field "type" (str "noul") (field "instructions" (str "d") end))) end);
  client_id = "ann";
  priority = num (pos 5);
  scheduling_class = none;
  idempotency_key = str "k";
  parameters = end;
  execution_timeout_ms = null;
  deadline_at = str "2030-01-01T00:00:00Z";
  max_attempts = null;
  batch_id = none;
  batch_ordinal = none;
}

abbrev everywhere : String → Bool
everywhere model = true

abbrev one_job : Job
one_job = elim (build_job outside everywhere one_model policy "n1" "r" 10 order) [
  | built job ↦ job
  | refused e ↦ first_job
]

is_built : build_job outside everywhere one_model policy "n1" "r" 10 order ≡ built one_job
unfolding build_job normalise_questions resolve get lookup
is_built = refl

build_job-Accepted_example : Accepted outside everywhere one_model policy "n1" "r" 10 order one_job
build_job-Accepted_example =
    build_job-Accepted outside everywhere one_model policy "n1" "r" 10 order one_job is_built

build_job-IsNew_example : IsNew 10 [] [] one_job
unfolding lookup
build_job-IsNew_example =
    build_job-IsNew outside everywhere one_model policy "n1" "r" 10 order one_job [] [] refl refl
      is_built

-- A job that "w:1" has claimed.
abbrev claimed_one : Job
claimed_one = record first_job {
  state = State.leased;
  lease_owner = some "w:1";
  lease_expires_at = some 40;
  attempt_count = 1;
}

abbrev work : Work
work = record { queue = record (init limits) { jobs = ("a1", claimed_one) ∷ [] }; delivered = [] }

abbrev well : String → ModelHealth
well model = record { ok = true; permanent = false; detail = ""; version = none }

abbrev message : Target → String
message target = "error"

abbrev soon : Job → ℕ
soon job = 5

abbrev none_lost : String → Bool
none_lost job_id = false

abbrev reply : Reply
reply = record { answers = str "yes"; usage = null; version = some "v1"; inference_ms = 7 }

prepare-Runs_example :
    All
      (Runs well one_model message soon none_lost "w:1" "mock" 20 60 1)
      (prepare well one_model message soon none_lost "w:1" "mock" 20 60 1 ("a1" ∷ []) ([], work)).0
prepare-Runs_example =
    prepare-Runs well one_model message soon none_lost "w:1" "mock" 20 60 1 ("a1" ∷ []) work

-- Two slots, one job that waits.
abbrev two_slots : Spec
two_slots = record { enabled = true; cap = 2; batch_size = 1; native = false }

abbrev owner_of : ℕ → String
owner_of n = "w:1"

abbrev idle : Dispatcher whole weights owner_of 20 60
idle = record {
  queue = (enqueue first_job (init limits)).1;
  slots = record { active = []; inflight = 0 };
  picker = fresh_picker;
  tasks = [];
  drawn = 0;
}

dispatch_model-Ends_example :
    Ends whole weights owner_of 20 60 "mock" two_slots 0
      (dispatch_model whole weights owner_of 20 60 3 "mock" two_slots idle)
unfolding lookup
dispatch_model-Ends_example = dispatch_model-Ends whole weights owner_of 20 60 "mock" two_slots idle

abbrev empty_batch : Batch
empty_batch = record {
  batch_id = "b1";
  client_id = "ann";
  status = BatchStatus.staging;
  requested_model = none;
  job_count = 0;
  created_at = 10;
  activated_at = none;
  idempotency_key = none;
  idempotency_hash = none;
  deadline_at = none;
  counts = empty_counts;
  replayed = false;
}

batch_dict-batch_view_example :
    shown (batch_dict (batch_view empty_batch work.queue))
    ≡ count (in_batch "b1") (values work.queue.jobs)
batch_dict-batch_view_example = batch_dict-batch_view empty_batch work.queue

abbrev bounds : Bounds
bounds = record { max_size = 2; max_bytes = 100 }

-- Every object is built into one job of the batch.
abbrev same_job : ℕ → Fields → Built Job
same_job n raw = built (record first_job {
  batch_id = some "b1";
  batch_ordinal = some n;
  state = State.staged;
  idempotency_key = none;
})

abbrev ten_bytes : ℕ → Job → ℕ
ten_bytes n job = 10

abbrev filled : Submitted Batch × Memory
filled =
    fill bounds same_job ten_bytes "b1" (dict end ∷ []) none none 20
      (record (init limits) { batches = ("b1", empty_batch) ∷ [] })

abbrev activated : Batch
activated = elim filled.0 [ accepted batch ↦ batch | rejected e ↦ empty_batch ]

is_activated : filled.0 ≡ accepted activated
unfolding fill init lookup insert values
is_activated = refl

begun_there : lookup {K = String} "b1" (("b1", empty_batch) ∷ []) ≡ some empty_batch
unfolding lookup
begun_there = refl

fill-Bounded_example :
    (ltb 0 (length (dict end ∷ [])) ≡ true)
    × (leb (length (dict end ∷ [])) 2 ≡ true)
    × ((activated.replayed ≡ true) ⊎ (activated.job_count ≡ length (dict end ∷ [])))
fill-Bounded_example =
    fill-Bounded bounds same_job ten_bytes "b1" (dict end ∷ []) none none 20
      (record (init limits) { batches = ("b1", empty_batch) ∷ [] }) empty_batch activated
      begun_there refl is_activated
