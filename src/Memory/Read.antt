-- ===== src/Memory/Read.antt =====
-- Reads of src/keziah/queue/memory.py: listings, batch results, events, counts, the next wake-up.
use keziah.Base.{
  ℕ, suc, ◌+◌, ◌-◌, String, Bool, true, ◌&&◌, ◌||◌, not, Option, none, some, List, [], ◌∷◌, ltb,
  leb, if◌then◌else◌, Dict, lookup, insert, values, keep, take, drop, sort_by, length, ◌==◌,
  string_eq, option_eq,
}
use keziah.Types.{State, Job, Batch, Counts, is_held, is_incomplete, state_is}
use keziah.Scheduler.Invert.{codes, text_lt}
use keziah.Memory.{Memory, Result, ok, err, Error, Event, in_batch}
use keziah.Memory.Lease.{older}
use keziah.Memory.Submit.{depth}
use keziah.Memory.Batches.{batch_view, count_states, empty_counts}

unfoldable pub get_job : String → Memory → Option Job
get_job job_id s = lookup job_id s.jobs

-- The filters of `get_jobs`; `none` filters nothing.
pub record Filter : Type 0 where
  pub state : Option State
  pub batch_id : Option String
  pub client_id : Option String
  pub model : Option String

abbrev pub allows {ℓ} : {A : Type ℓ} → (A → Bool) → Option A → Bool
allows p none = true
allows p (some a) = p a

-- `_match`.
unfoldable pub matches_filter : Filter → Job → Bool
matches_filter f job =
    allows (λ x. state_is job.state x) f.state
    && allows (λ x. job.batch_id == some x) f.batch_id
    && allows (λ x. job.client_id == x) f.client_id
    && allows (λ x. job.resolved_model == x || job.requested_model == x) f.model

-- A page of a list: `rows[offset : offset + limit]`.
abbrev pub page {ℓ} : {A : Type ℓ} → ℕ → ℕ → List A → List A
page offset limit rows = take limit (drop offset rows)

unfoldable pub get_jobs : Filter → ℕ → ℕ → Memory → List Job
unfolding sort_by matches_filter
get_jobs f limit offset s =
    page offset limit (sort_by older (keep (matches_filter f) (values s.jobs)))

unfoldable pub get_batch : String → Memory → Option Batch
unfolding batch_view
get_batch batch_id s = elim (lookup batch_id s.batches) [
  | none ↦ none
  | some batch ↦ some (batch_view batch s)
]

-- `job.batch_ordinal if job.batch_ordinal is not None else 1 << 30`.
abbrev pub ordinal_key : Job → ℕ
ordinal_key job = elim job.batch_ordinal [ none ↦ 1_073_741_824 | some n ↦ n ]

abbrev pub earlier : Job → Job → Bool
earlier a b =
    ltb (ordinal_key a) (ordinal_key b)
    || (not (ltb (ordinal_key b) (ordinal_key a)) && text_lt (codes a.job_id) (codes b.job_id))

unfoldable pub get_batch_results : String → ℕ → ℕ → Memory → Result (List Job)
unfolding sort_by
get_batch_results batch_id offset limit s = elim (lookup batch_id s.batches) [
  | none ↦ err Error.not_found
  | some batch ↦ ok (page offset limit (sort_by earlier (keep (in_batch batch_id) (values s.jobs))))
]

-- `rows[-limit:]` for a limit above 0.
unfoldable pub get_events : String → ℕ → Memory → List Event
get_events job_id limit s =
    let rows = keep (λ (e : Event). e.job_id == some job_id) s.events in
    drop (length rows - limit) rows

-- `d[key] = d.get(key, 0) + 1` for each job that passes the test.
unfoldable pub tally : (Job → Bool) → (Job → String) → List Job → Dict String ℕ → Dict String ℕ
tally p key [] d = d
tally p key (job ∷ jobs) d = tally p key jobs (
    if p job
    then insert (key job) (elim (lookup (key job) d) [ none ↦ 1 | some n ↦ suc n ]) d
    else d)

pub record Stats : Type 0 where
  pub jobs_by_state : Counts
  pub jobs_by_model : Dict String ℕ
  pub queued_by_class : Dict String ℕ
  pub queue_depth : ℕ
  pub active : ℕ
  pub event_count : ℕ

unfoldable pub get_stats : Memory → Stats
unfolding count_states tally
get_stats s =
    let by_state = count_states (λ job. true) (values s.jobs) empty_counts in
    record {
      jobs_by_state = by_state;
      jobs_by_model =
          tally (λ job. is_incomplete job.state) (λ job. job.resolved_model) (values s.jobs) [];
      queued_by_class =
          tally (λ job. state_is job.state State.queued) (λ job. job.scheduling_class)
            (values s.jobs) [];
      queue_depth = by_state.queued + by_state.retry_wait + by_state.staged;
      active = by_state.leased + by_state.running;
      event_count = length s.events;
    }

-- `queue_depth()`, and `pending_count()`, which calls it.
unfoldable pub queue_depth : Memory → ℕ
queue_depth s = depth s.jobs

-- The moment at which a job next needs the dispatcher.
abbrev pub wake_moment : Job → Option ℕ
wake_moment job =
    if state_is job.state State.retry_wait
    then job.not_before
    else if is_held job.state
    then job.lease_expires_at
    else none

abbrev pub sooner : ℕ → Option ℕ → Option ℕ → Option ℕ
sooner now none soon = soon
sooner now (some t) none = if leb t now then none else some t
sooner now (some t) (some u) = if leb t now then some u else if ltb t u then some t else some u

unfoldable pub soonest : ℕ → List Job → Option ℕ → Option ℕ
soonest now [] soon = soon
soonest now (job ∷ jobs) soon = soonest now jobs (sooner now (wake_moment job) soon)

-- `next_wake_s`, in milliseconds.
unfoldable pub next_wake : ℕ → Memory → Option ℕ
unfolding soonest
next_wake now s = elim (soonest now (values s.jobs) none) [ none ↦ none | some t ↦ some (t - now) ]
