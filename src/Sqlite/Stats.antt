-- ===== src/Sqlite/Stats.antt =====
-- `get_stats` of src/keziah/queue/sqlite.py, which counts by `GROUP BY`, against `get_stats` of
-- src/keziah/queue/memory.py, which counts job by job.
use keziah.Base.{
  ℕ, suc, ◌+◌, ◌≡◌, refl, sym, ap, ◌∙◌, arith, String, Bool, true, false, Option, none, some, List,
  [], ◌∷◌, if◌then◌else◌, length, Dict, values, lookup, insert, string_eq,
}
use keziah.Types.{State, Job, Counts, is_incomplete, state_is}
use keziah.Memory.{Memory, ok}
use keziah.Memory.Batches.{count_state, count_states, empty_counts}
use keziah.Memory.Read.{tally, Stats}
use keziah.Memory.Read as InMemoryRead
use keziah.Sqlite.Rows.{Codec, Row, to_job}
use keziah.Sqlite.{Db, state_count, group_states}
use keziah.Sqlite.Read.{group_by}
use keziah.Sqlite.Read
use keziah.Sqlite.Abstract.{jobs_dict}

module _ (C : Codec) where
  -- The counts after some rows, from the counts before.
  counted : Counts → List (Row C) → Counts
  counted c rows = record {
    staged = c.staged + state_count C State.staged rows;
    queued = c.queued + state_count C State.queued rows;
    leased = c.leased + state_count C State.leased rows;
    running = c.running + state_count C State.running rows;
    succeeded = c.succeeded + state_count C State.succeeded rows;
    retry_wait = c.retry_wait + state_count C State.retry_wait rows;
    failed = c.failed + state_count C State.failed rows;
    dead_letter = c.dead_letter + state_count C State.dead_letter rows;
    cancelled = c.cancelled + state_count C State.cancelled rows;
  }

  counts_same :
      (a b : Counts)
      → a.staged ≡ b.staged
      → a.queued ≡ b.queued
      → a.leased ≡ b.leased
      → a.running ≡ b.running
      → a.succeeded ≡ b.succeeded
      → a.retry_wait ≡ b.retry_wait
      → a.failed ≡ b.failed
      → a.dead_letter ≡ b.dead_letter
      → a.cancelled ≡ b.cancelled
      → a ≡ b
  counts_same a b p q r s t u v w x = λ i. record {
    staged = p i;
    queued = q i;
    leased = r i;
    running = s i;
    succeeded = t i;
    retry_wait = u i;
    failed = v i;
    dead_letter = w i;
    cancelled = x i;
  }

  counted-cons :
      (c : Counts) (row : Row C) (rows : List (Row C))
      → counted (count_state row.state c) rows ≡ counted c (row ∷ rows)
  unfolding counted count_state
  counted-cons c row rows =
      counts_same (counted (count_state row.state c) rows) (counted c (row ∷ rows)) (ground arith)
        (ground arith) (ground arith) (ground arith) (ground arith) (ground arith) (ground arith)
        (ground arith) (ground arith)

  count_states-counted :
      (c : Counts) (rows : List (Row C))
      → count_states (λ job. true) (values (jobs_dict C rows)) c ≡ counted c rows
  unfolding count_states counted values
  count_states-counted c [] =
      counts_same c (counted c []) (omega arith) (omega arith) (omega arith) (omega arith)
        (omega arith) (omega arith) (omega arith) (omega arith) (omega arith)
  count_states-counted c (row ∷ rows) =
      count_states-counted (count_state row.state c) rows ∙ counted-cons c row rows

  group_states-counted : (rows : List (Row C)) → group_states C rows ≡ counted empty_counts rows
  unfolding group_states counted
  group_states-counted rows =
      counts_same (group_states C rows) (counted empty_counts rows) (omega arith) (omega arith)
        (omega arith) (omega arith) (omega arith) (omega arith) (omega arith) (omega arith)
        (omega arith)

  tally-group_by :
      (p : Row C → Bool) (key : Row C → String) (q : Job → Bool) (name : Job → String)
      (rows : List (Row C)) (d : Dict String ℕ)
      → ((row : Row C) → p row ≡ q (to_job C row))
      → ((row : Row C) → key row ≡ name (to_job C row))
      → group_by C p key rows d ≡ tally q name (values (jobs_dict C rows)) d
  unfolding tally group_by values
  tally-group_by p key q name [] d e f = refl
  tally-group_by p key q name (row ∷ rows) d e f =
      tally-group_by p key q name rows
        (if p row then insert (key row) (bumped (lookup (key row) d)) d else d) e f
      ∙ ap (tally q name (values (jobs_dict C rows)))
          (λ i. if e row i then insert (f row i) (bumped (lookup (f row i) d)) d else d)
    where
      bumped : Option ℕ → ℕ
      bumped none = 1
      bumped (some n) = suc n

  -- Both queues report the same numbers of the same jobs.
  pub get_stats-same :
      (db : Db C) (s : Memory)
      → db.closed ≡ false
      → jobs_dict C db.jobs ≡ s.jobs
      → length db.events ≡ length s.events
      → Read.get_stats C db ≡ ok (InMemoryRead.get_stats s)
  unfolding Read.get_stats InMemoryRead.get_stats group_states
  get_stats-same db s running same events =
      rw (running, Read.get_stats)
        (λ i. ok (record {
          jobs_by_state = by_state i;
          jobs_by_model =
              by (λ row. is_incomplete row.state) (λ row. row.resolved_model)
                (λ job. is_incomplete job.state) (λ job. job.resolved_model) (λ row. refl)
                (λ row. refl) i;
          queued_by_class =
              by (λ row. state_is row.state State.queued) (λ row. row.scheduling_class)
                (λ job. state_is job.state State.queued) (λ job. job.scheduling_class) (λ row. refl)
                (λ row. refl) i;
          queue_depth = (by_state i).queued + (by_state i).retry_wait + (by_state i).staged;
          active = (by_state i).leased + (by_state i).running;
          event_count = events i;
        }))
    where
      listed : values (jobs_dict C db.jobs) ≡ values s.jobs
      listed = ap (λ (m : Dict String Job). values m) same

      by_state : group_states C db.jobs ≡ count_states (λ job. true) (values s.jobs) empty_counts
      by_state =
          group_states-counted db.jobs
          ∙ (sym (count_states-counted empty_counts db.jobs)
              ∙ ap (λ jobs. count_states (λ job. true) jobs empty_counts) listed)

      by :
          (p : Row C → Bool) (key : Row C → String) (q : Job → Bool) (name : Job → String)
          → ((row : Row C) → p row ≡ q (to_job C row))
          → ((row : Row C) → key row ≡ name (to_job C row))
          → group_by C p key db.jobs [] ≡ tally q name (values s.jobs) []
      by p key q name e f =
          tally-group_by p key q name db.jobs [] e f ∙ ap (λ jobs. tally q name jobs []) listed
