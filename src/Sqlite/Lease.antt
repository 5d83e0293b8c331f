-- ===== src/Sqlite/Lease.antt =====
-- Claims and leases in src/keziah/queue/sqlite.py: `_claim_sql`, `claim_by_id`, `claim_next`,
-- `claim_compatible`, `extend_lease`, `mark_running`.
use keziah.Base.{
  ℕ, zero, suc, ◌+◌, String, Bool, true, false, ◌&&◌, not, Option, none, some, List, [], ◌∷◌, ◌++◌,
  ltb, leb, nat_eqb, if◌then◌else◌, keep, take, length, contains, sort_by, ◌==◌, string_eq,
  option_eq,
}
use keziah.Base.Int.{pos, ltb_ℤ}
use keziah.Types.{
  State, Job, Candidate, Fields, end, field, num, bool, is_held, state_is, scheduling_classes,
}
use keziah.Scheduler.Numbers.{Float}
use keziah.Scheduler.{Weights, PickerState, select}
use keziah.Scheduler.Invert.{codes, text_lt}
use keziah.Memory.{Result, ok, err, EventKind, attempt_detail}
use keziah.Sqlite.Rows.{Codec, Row}
use keziah.Sqlite.Statements.{update_where, first_where}
use keziah.Sqlite.{
  Db, Body, tx, emit, has_id, require_job, update_jobs, rowcount, row_claimable, candidate_row,
}

module _ (C : Codec) where
  unfoldable pub claimed_row : String → ℕ → ℕ → Row C → Row C
  claimed_row owner lease_until now row = record row {
    state = State.leased;
    lease_owner = some owner;
    lease_expires_at = some lease_until;
    attempt_count = suc row.attempt_count;
    updated_at = now;
  }

  -- The `WHERE` of `_claim_sql`.
  abbrev pub claim_where : String → ℕ → Db C → Row C → Bool
  claim_where job_id now db row = has_id C job_id row && row_claimable C now db.batches row

  -- `_claim_sql`: whether it hit one row, and the tables.
  unfoldable pub claim_sql : String → String → ℕ → ℕ → Db C → Bool × Db C
  unfolding claimed_row update_where first_where
  claim_sql job_id owner lease_until now db = (
    nat_eqb (rowcount C (claim_where job_id now db) db) 1,
    update_jobs C (claim_where job_id now db) (claimed_row owner lease_until now) db,
  )

  -- What follows a claim that hit its row: the job is read back and the event is written.
  unfoldable pub after_claim : String → ℕ → Bool → Body C Job
  unfolding require_job emit
  after_claim job_id now native db = elim (require_job C job_id db) [
    | err e ↦ (err e, db)
    | ok job ↦ (
      ok job,
      emit C EventKind.claimed now (some job.job_id) job.batch_id
          (field "attempt" (num (pos job.attempt_count))
            (if native then field "native_batch" (bool true) end else end))
          db,
    )
  ]

  abbrev pub some_job : Result Job × Db C → Result (Option Job) × Db C
  some_job (err e, db) = (err e, db)
  some_job (ok job, db) = (ok (some job), db)

  unfoldable pub claim_by_id_run : String → String → ℕ → ℕ → Body C (Option Job)
  unfolding claim_sql after_claim
  claim_by_id_run job_id owner lease_until now db =
      let claim = claim_sql job_id owner lease_until now db in
      if claim.0 then some_job (after_claim job_id now false claim.1) else (ok none, claim.1)

  -- `claim_by_id`.
  unfoldable pub claim_by_id : (ℕ → Bool) → String → String → ℕ → ℕ → Body C (Option Job)
  unfolding claim_by_id_run tx
  claim_by_id busy job_id owner lease_until now =
      tx C busy (claim_by_id_run job_id owner lease_until now)

  -- `ORDER BY priority DESC, created_at ASC, job_id ASC`.
  abbrev pub before_candidate : Row C → Row C → Bool
  before_candidate a b =
      if ltb_ℤ b.priority a.priority
      then true
      else if ltb_ℤ a.priority b.priority
      then false
      else if ltb a.created_at b.created_at
      then true
      else if ltb b.created_at a.created_at
      then false
      else text_lt (codes a.job_id) (codes b.job_id)

  -- One `SELECT` of `_candidates`, and its loop over the classes.
  abbrev pub class_rows : String → ℕ → ℕ → Db C → String → List (Row C)
  class_rows model now limit db name = take limit (
      sort_by before_candidate (
        keep
          (λ row.
            row.resolved_model == model
            && row.scheduling_class == name
            && row_claimable C now db.batches row)
          db.jobs))

  abbrev pub candidates_of : List (Row C) → List Candidate
  candidates_of [] = []
  candidates_of (row ∷ rows) = candidate_row C row ∷ candidates_of rows

  unfoldable pub candidates_in : String → ℕ → ℕ → Db C → List String → List Candidate
  unfolding sort_by first_where
  candidates_in model now limit db [] = []
  candidates_in model now limit db (name ∷ names) =
      candidates_of (class_rows model now limit db name) ++ candidates_in model now limit db names

  unfoldable pub candidates : String → ℕ → ℕ → Db C → List Candidate
  unfolding candidates_in
  candidates model now limit db = candidates_in model now limit db scheduling_classes

  -- A claimed job is returned with the picker that chose it.
  abbrev pub with_picker : {P : Type 0} → P → Result Job × Db C → Result (Option Job × P) × Db C
  with_picker proposed (err e, t) = (err e, t)
  with_picker proposed (ok job, t) = (ok (some job, proposed), t)

  module _ (F : Float) (settings : Weights F) (model owner : String) (lease_until now : ℕ) where
    -- The loop of `claim_next`; the source makes 8 turns. A claim that misses is skipped from then on.
    unfoldable pub claim_turns :
        ℕ → PickerState F → List Candidate → List String → Body C (Option Job × PickerState F)
    unfolding select claim_sql after_claim
    claim_turns zero picker found skipped db = (ok (none, picker), db)
    claim_turns (suc turns) picker found skipped db =
        let pool = keep (λ c. not (contains skipped c.job_id)) found in
        let (choice, proposed) = select F settings picker model pool now in
        elim choice [
          | none ↦ (ok (none, picker), db)
          | some c ↦
              (let claim = claim_sql c.job_id owner lease_until now db in
                let missed = claim_turns turns picker found (c.job_id ∷ skipped) claim.1 in
                if claim.0
                then with_picker proposed (after_claim c.job_id now false claim.1)
                else missed)
        ]

    -- `claim_next`; `limit` is `settings.disk_candidates_per_class`.
    unfoldable pub claim_next : (ℕ → Bool) → ℕ → PickerState F → Body C (Option Job × PickerState F)
    unfolding claim_turns candidates tx
    claim_next busy limit picker =
        tx C busy (λ db. claim_turns 8 picker (candidates model now limit db) [] db)

  -- `ORDER BY created_at ASC, job_id ASC`.
  abbrev pub older_row : Row C → Row C → Bool
  older_row a b =
      if ltb a.created_at b.created_at
      then true
      else if ltb b.created_at a.created_at
      then false
      else text_lt (codes a.job_id) (codes b.job_id)

  abbrev pub ids_of : List (Row C) → List String
  ids_of [] = []
  ids_of (row ∷ rows) = row.job_id ∷ ids_of rows

  -- The loop of `claim_compatible` over the rows found, with the jobs claimed so far.
  unfoldable pub claim_each :
      List String → ℕ → String → ℕ → ℕ → List String → List Job → Body C (List Job)
  unfolding claim_sql after_claim
  claim_each exclude limit owner lease_until now [] claimed db = (ok claimed, db)
  claim_each exclude limit owner lease_until now (id ∷ ids) claimed db =
      elim (contains exclude id) [
        | true ↦ claim_each exclude limit owner lease_until now ids claimed db
        | false ↦ elim (leb limit (length claimed)) [
          | true ↦ (ok claimed, db)
          | false ↦
              (let claim = claim_sql id owner lease_until now db in
                elim claim.0 [
                  | false ↦ claim_each exclude limit owner lease_until now ids claimed claim.1
                  | true ↦
                      (let (result, t) = after_claim id now true claim.1 in
                        elim result [
                          | err e ↦ (err e, t)
                          | ok job ↦
                              claim_each exclude limit owner lease_until now ids
                                (claimed ++ job ∷ []) t
                        ])
                ])
        ]
      ]

  -- The `SELECT` of `claim_compatible`.
  unfoldable pub compatible_ids : String → String → List String → ℕ → ℕ → Db C → List String
  unfolding sort_by
  compatible_ids model questions_hash exclude limit now db = ids_of (
      take (limit + length exclude) (
        sort_by older_row (
          keep
            (λ row.
              row.resolved_model == model
              && row.questions_hash == questions_hash
              && row_claimable C now db.batches row)
            db.jobs)))

  unfoldable pub claim_compatible :
      (ℕ → Bool) → String → String → List String → ℕ → ℕ → String → ℕ → Body C (List Job)
  unfolding claim_each compatible_ids tx
  claim_compatible busy model questions_hash exclude limit now owner lease_until db =
      if nat_eqb limit 0
      then (ok [], db)
      else tx C busy
          (λ t.
            claim_each exclude limit owner lease_until now
              (compatible_ids model questions_hash exclude limit now t) [] t)
          db

  -- `WHERE job_id=? AND lease_owner=? AND state IN (LEASED, RUNNING)`.
  abbrev pub held_where : String → String → Row C → Bool
  held_where job_id owner row =
      has_id C job_id row && (row.lease_owner == some owner && is_held row.state)

  unfoldable pub extended_row : ℕ → ℕ → Row C → Row C
  extended_row lease_until now row = record row {
    lease_expires_at = some lease_until;
    updated_at = now;
  }

  unfoldable pub extend_lease : (ℕ → Bool) → String → String → ℕ → ℕ → Body C Bool
  unfolding extended_row update_where tx
  extend_lease busy job_id owner lease_until now = tx C busy (λ db. (
    ok (nat_eqb (rowcount C (held_where job_id owner) db) 1),
    update_jobs C (held_where job_id owner) (extended_row lease_until now) db,
  ))

  -- `WHERE job_id=? AND lease_owner=? AND state=?`.
  abbrev pub owned_where : String → String → State → Row C → Bool
  owned_where job_id owner state row =
      has_id C job_id row && (state_is row.state state && row.lease_owner == some owner)

  unfoldable pub running_row : ℕ → ℕ → Row C → Row C
  running_row lease_until now row = record row {
    state = State.running;
    started_at = elim row.started_at [ none ↦ some now | some t ↦ some t ];
    lease_expires_at = some lease_until;
    updated_at = now;
  }

  -- An `UPDATE` of one job that a worker owns, and, if it hit the row, an event about the job.
  unfoldable pub owned_update :
      (Row C → Bool) → (Row C → Row C) → String → EventKind → ℕ → (Job → Fields) → Body C Bool
  unfolding update_where require_job emit
  owned_update p f job_id kind now detail db =
      let t = update_jobs C p f db in
      if not (nat_eqb (rowcount C p db) 1) then (ok false, t) else elim (require_job C job_id t) [
        | err e ↦ (err e, t)
        | ok job ↦ (ok true, emit C kind now (some job_id) job.batch_id (detail job) t)
      ]

  unfoldable pub mark_running : (ℕ → Bool) → String → String → ℕ → ℕ → Body C Bool
  unfolding running_row owned_update tx
  mark_running busy job_id owner lease_until now = tx C busy (
      owned_update (owned_where job_id owner State.leased) (running_row lease_until now) job_id
        EventKind.started now attempt_detail)
