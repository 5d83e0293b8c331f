-- ===== src/Sqlite/Read.antt =====
-- Reads of src/keziah/queue/sqlite.py: jobs, listings, batches, events, counts, the candidates of the
-- ready index, the next wake-up.
use keziah.Base.{
  ℕ, suc, ◌+◌, ◌-◌, String, Bool, true, false, ◌&&◌, ◌||◌, Option, none, some, List, [], ◌∷◌, ltb,
  if◌then◌else◌, Dict, lookup, insert, keep, take, count, length, sort_by, ◌==◌, string_eq,
  option_eq,
}
use keziah.Types.{State, Job, Batch, Candidate, is_held, is_incomplete, state_is}
use keziah.Scheduler.Invert.{codes, text_lt}
use keziah.Memory.{Result, ok, err, Error, Event}
use keziah.Memory.Read.{Filter, allows, page, Stats, sooner}
use keziah.Sqlite.Rows.{Codec, Row, to_job, loads_or_empty}
use keziah.Sqlite.Statements.{first_where}
use keziah.Sqlite.{Db, EventRow, auto, job_row, batch_row, of_batch, gate_open, group_states}
use keziah.Sqlite.Lease.{older_row, candidates_of}
use keziah.Sqlite.Batches.{view_of}

module _ (C : Codec) where
  abbrev pub jobs_of : List (Row C) → List Job
  jobs_of [] = []
  jobs_of (row ∷ rows) = to_job C row ∷ jobs_of rows

  unfoldable pub get_job : String → Db C → Result (Option Job)
  unfolding job_row auto
  get_job job_id =
      auto C (λ db. elim (job_row C job_id db) [ none ↦ none | some row ↦ some (to_job C row) ])

  -- The clauses that `get_jobs` joins by AND.
  unfoldable pub filter_where : Filter → Row C → Bool
  filter_where f row =
      allows (λ x. state_is row.state x) f.state
      && allows (λ x. row.batch_id == some x) f.batch_id
      && allows (λ x. row.client_id == x) f.client_id
      && allows (λ x. row.resolved_model == x || row.requested_model == x) f.model

  unfoldable pub get_jobs : Filter → ℕ → ℕ → Db C → Result (List Job)
  unfolding filter_where sort_by auto
  get_jobs f limit offset =
      auto C
        (λ db. jobs_of (page offset limit (sort_by (older_row C) (keep (filter_where f) db.jobs))))

  unfoldable pub get_batch : String → Db C → Result (Option Batch)
  unfolding batch_row view_of auto
  get_batch batch_id =
      auto C
        (λ db. elim (batch_row C batch_id db) [ none ↦ none | some row ↦ some (view_of C row db) ])

  -- `ORDER BY COALESCE(batch_ordinal, 1000000000), job_id`.
  abbrev pub ordinal_of : Row C → ℕ
  ordinal_of row = elim row.batch_ordinal [ none ↦ 1_000_000_000 | some n ↦ n ]

  abbrev pub earlier_row : Row C → Row C → Bool
  earlier_row a b =
      if ltb (ordinal_of a) (ordinal_of b)
      then true
      else if ltb (ordinal_of b) (ordinal_of a)
      then false
      else text_lt (codes a.job_id) (codes b.job_id)

  -- The outer result is that of `_auto`, the inner one that of the read.
  unfoldable pub get_batch_results : String → ℕ → ℕ → Db C → Result (Result (List Job))
  unfolding batch_row sort_by auto
  get_batch_results batch_id offset limit = auto C (λ db. elim (batch_row C batch_id db) [
    | none ↦ err Error.not_found
    | some row ↦
        ok (jobs_of (page offset limit (sort_by earlier_row (keep (of_batch C batch_id) db.jobs))))
  ])

  abbrev pub event_of : EventRow C → Event
  event_of row = record {
    id = row.id;
    job_id = row.job_id;
    batch_id = row.batch_id;
    at = row.at;
    kind = row.kind;
    detail = loads_or_empty C row.detail_json;
  }

  abbrev pub events_of : List (EventRow C) → List Event
  events_of [] = []
  events_of (row ∷ rows) = event_of row ∷ events_of rows

  -- `ORDER BY id ASC LIMIT ?`: the rows stand in the order of their ids.
  unfoldable pub get_events : String → ℕ → Db C → Result (List Event)
  unfolding auto
  get_events job_id limit =
      auto C (λ db.
        events_of (take limit (keep (λ (e : EventRow C). e.job_id == some job_id) db.events)))

  -- `SELECT key, COUNT(*) ... GROUP BY key`, read into a dictionary. SQL leaves the order of the groups
  -- open; here it is that of their first rows.
  unfoldable pub group_by :
      (Row C → Bool) → (Row C → String) → List (Row C) → Dict String ℕ → Dict String ℕ
  group_by p key [] d = d
  group_by p key (row ∷ rows) d = group_by p key rows (
      if p row
      then insert (key row) (elim (lookup (key row) d) [ none ↦ 1 | some n ↦ suc n ]) d
      else d)

  unfoldable pub get_stats : Db C → Result Stats
  unfolding group_states group_by auto
  get_stats = auto C (λ db. record {
    jobs_by_state = group_states C db.jobs;
    jobs_by_model =
        group_by (λ row. is_incomplete row.state) (λ row. row.resolved_model) db.jobs [];
    queued_by_class =
        group_by (λ row. state_is row.state State.queued) (λ row. row.scheduling_class) db.jobs [];
    queue_depth =
        (group_states C db.jobs).queued
        + (group_states C db.jobs).retry_wait
        + (group_states C db.jobs).staged;
    active = (group_states C db.jobs).leased + (group_states C db.jobs).running;
    event_count = length db.events;
  })

  -- `queue_depth()`, and `pending_count()`, which calls it.
  unfoldable pub queue_depth : Db C → Result ℕ
  unfolding auto
  queue_depth = auto C (λ db. count (λ row. is_incomplete row.state) db.jobs)

  unfoldable pub ready_candidates : Db C → Result (List Candidate)
  unfolding first_where auto
  ready_candidates = auto C (λ db. candidates_of C (
      keep (λ row. state_is row.state State.queued && gate_open C db.batches row.batch_id) db.jobs))

  -- `MIN(moment)` over the two selects.
  abbrev pub moment_of : Row C → Option ℕ
  moment_of row =
      if state_is row.state State.retry_wait
      then row.not_before
      else if is_held row.state
      then row.lease_expires_at
      else none

  unfoldable pub min_moment : ℕ → List (Row C) → Option ℕ → Option ℕ
  min_moment now [] soon = soon
  min_moment now (row ∷ rows) soon = min_moment now rows (sooner now (moment_of row) soon)

  -- `next_wake_s`, in milliseconds.
  unfoldable pub next_wake : ℕ → Db C → Result (Option ℕ)
  unfolding min_moment auto
  next_wake now =
      auto C (λ db. elim (min_moment now db.jobs none) [ none ↦ none | some t ↦ some (t - now) ])
