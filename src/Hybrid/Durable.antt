-- ===== src/Hybrid/Durable.antt =====
-- The hybrid queue of src/keziah/queue/hybrid.py over the durable one of src/keziah/queue/sqlite.py.
use keziah.Base.{
  ℕ, zero, suc, ◌-◌, ◌≡◌, refl, sym, ap, subst, ◌∙◌, String, Bool, true, false, Option, none, some,
  ltb, nat_eqb, if◌then◌else◌, split_if, split_option, lookup, insert, keys, Dict, string_eq,
  Distinct,
}
use keziah.Base.Int.{pos}
use keziah.Types.{Job, Candidate, field, end, num}
use keziah.Scheduler.Numbers.{Float}
use keziah.Scheduler.{Weights, PickerState}
use keziah.Ready.{Index, remove, propose}
use keziah.Memory.{Result, ok, err, EventKind, claimable}
use keziah.Memory.Lease.{claimed_job}
use keziah.Hybrid.{
  Store, Hybrid, relist_ready, reconcile, maybe_reconcile, claim_loop, when_reconciled, claim_next,
}
use keziah.Sqlite.Rows.{Codec}
use keziah.Sqlite.{Db, emit, require_job, gate_open}
use keziah.Sqlite.Ids.{split_result}
use keziah.Sqlite.Lease as Lease
use keziah.Sqlite.Lease.{ids_of, claim_by_id, claim_by_id_run}
use keziah.Sqlite.Settle as Settle
use keziah.Sqlite.Submit as Submit
use keziah.Sqlite.Batches as Batches
use keziah.Sqlite.Maintain as Maintain
use keziah.Sqlite.Read as Read
use keziah.Sqlite.Abstract.{jobs_dict}
use keziah.Sqlite.Atomic.{Ran, tx-Ran}
use keziah.Sqlite.Claim.{open_job, claimed_at, claim_by_id_run-Won, ids_of-keys}

module _ (C : Codec) (busy : ℕ → Bool) where
  -- `self.db`, whose transactions all meet the same locks.
  abbrev pub durable : Store (Db C)
  durable = record {
    ready_candidates = Read.ready_candidates C;
    enqueue = Submit.enqueue C busy;
    activate_batch = Batches.activate_batch C busy;
    claim_by_id = claim_by_id C busy;
    claim_compatible = Lease.claim_compatible C busy;
    maintenance = Maintain.maintenance C busy;
    get_job = Read.get_job C;
    cancel = Settle.cancel C busy;
    cancel_batch = Settle.cancel_batch C busy;
    requeue = Settle.requeue C busy;
  }

module _ (C : Codec) (owner : String) (until now : ℕ) where
  -- Nothing that a claim reads has changed.
  abbrev pub Same : Db C → Db C → Type 0
  Same db t = (jobs_dict C t.jobs ≡ jobs_dict C db.jobs) × (t.batches ≡ db.batches)

  -- One job of the tables, which could be claimed, is claimed, and no other changes.
  abbrev pub Took : Db C → Job → Db C → Type 0
  Took db job t =
      (key : String) × (old : Job) × (lookup key (jobs_dict C db.jobs) ≡ some old)
      × (open_job C now db old ≡ true)
      × (job ≡ claimed_job owner until now old)
      × (jobs_dict C t.jobs ≡ insert key job (jobs_dict C db.jobs))

  abbrev Step : Db C → Result (Option Job) × Db C → Type 0
  Step db (err e, t) = Same db t
  Step db (ok none, t) = Same db t
  Step db (ok (some job), t) = Took db job t

  after_claim-batches :
      (key : String) (t : Db C)
      → (Lease.some_job C (Lease.after_claim C key now false t)).1.batches ≡ t.batches
  unfolding Lease.after_claim emit
  after_claim-batches key t = go (require_job C key t)
    where
      go :
          (found : Result Job)
          → (Lease.some_job C (elim found [
            | err e ↦ (err e, t)
            | ok job ↦ (
              ok job,
              emit C EventKind.claimed now
                  (some job.job_id)
                  job.batch_id
                  (field "attempt" (num (pos job.attempt_count)) end)
                  t,
            )
          ])).1.batches
            ≡ t.batches
      go (err e) = refl
      go (ok job) = refl

  run-batches :
      (key : String) (db : Db C) → (claim_by_id_run C key owner until now db).1.batches ≡ db.batches
  unfolding claim_by_id_run Lease.claim_sql
  run-batches key db =
      split_if (λ (r : Result (Option Job) × Db C). r.1.batches ≡ db.batches)
        (Lease.claim_sql C key owner until now db).0
        (λ _. after_claim-batches key (Lease.claim_sql C key owner until now db).1) (λ _. refl)

  module _ (db : Db C) (key : String) (distinct : Distinct (ids_of C db.jobs)) where
    found-Step :
        (a : Option Job) (t : Db C) (found : Option Job)
        → t.batches ≡ db.batches
        → lookup key (jobs_dict C db.jobs) ≡ found
        → a ≡ claimed_at C now (open_job C now db) (claimed_job owner until now) found
        → jobs_dict C t.jobs ≡ (elim found [
          | none ↦ jobs_dict C db.jobs
          | some job ↦
              if open_job C now db job
              then insert key (claimed_job owner until now job) (jobs_dict C db.jobs)
              else jobs_dict C db.jobs
        ])
        → Step db (ok a, t)
    found-Step none t none same there e h = (h, same)
    found-Step (some j) t none same there e h = cc
    found-Step a t (some old) same there e h = tested a (open_job C now db old) refl e h
      where
        value : {x y : Job} → some x ≡ some y → x ≡ y
        value f = cc

        tested :
            (x : Option Job) (b : Bool)
            → open_job C now db old ≡ b
            → x ≡ (if b then some (claimed_job owner until now old) else none)
            → jobs_dict C t.jobs ≡ (
                if b
                then insert key (claimed_job owner until now old) (jobs_dict C db.jobs)
                else jobs_dict C db.jobs)
            → Step db (ok x, t)
        tested none false o f g = (g, same)
        tested (some j) false o f g = cc
        tested none true o f g = cc
        tested (some j) true o f g = (
          key,
          old,
          there,
          o,
          value f,
          g ∙ ap (λ x. insert key x (jobs_dict C db.jobs)) (sym (value f)),
        )

    claim_by_id-Step : (busy : ℕ → Bool) → Step db (claim_by_id C busy key owner until now db)
    unfolding claim_by_id
    claim_by_id-Step busy =
        go (claim_by_id C busy key owner until now db)
          (tx-Ran C (claim_by_id_run C key owner until now) db busy)
      where
        go :
            (r : Result (Option Job) × Db C)
            → Ran C (claim_by_id_run C key owner until now) db busy r
            → Step db r
        go (err e, t) same =
            (ap (λ (x : Db C). jobs_dict C x.jobs) same, ap (λ (x : Db C). x.batches) same)
        go (ok a, t) (ran, _) =
            let won = claim_by_id_run-Won C now key owner until db distinct in
            found-Step a t (lookup key (jobs_dict C db.jobs))
              (sym (ap (λ (r : Result (Option Job) × Db C). r.1.batches) ran) ∙ run-batches key db)
              refl (value (sym (ap (λ (r : Result (Option Job) × Db C). r.0) ran) ∙ won.0))
              (sym (ap (λ (r : Result (Option Job) × Db C). jobs_dict C r.1.jobs) ran) ∙ won.1)
          where
            value : {x y : Option Job} → ok x ≡ ok y → x ≡ y
            value e = cc

module _ (C : Codec) (busy : ℕ → Bool) (F : Float) (settings : Weights F) (model owner : String)
    (until now : ℕ) (start : Db C) (distinct : Distinct (ids_of C start.jobs)) where
  -- What `claim_next` of the hybrid queue does to the tables.
  abbrev pub Ends : Result (Option Job × PickerState F) × Hybrid (Db C) → Type 0
  Ends (err e, h) = Same C owner until now start h.db
  Ends (ok (none, picker), h) = Same C owner until now start h.db
  Ends (ok (some job, picker), h) = Took C owner until now start job h.db

  still : (t : Db C) → Same C owner until now start t → Distinct (ids_of C t.jobs)
  still t (jobs, _) =
      subst Distinct
        (ids_of-keys C start.jobs
          ∙ ap (λ (m : Dict String Job). keys m) (sym jobs)
          ∙ sym (ids_of-keys C t.jobs))
        distinct

  took :
      (db : Db C) (job : Job) (t : Db C)
      → Same C owner until now start db
      → Took C owner until now db job t
      → Took C owner until now start job t
  took db job t (jobs, batches) (key, old, there, open_, claimed, after) = (
    key,
    old,
    ap (lookup key) (sym jobs) ∙ there,
    ap (λ b. claimable old now (gate_open C b old.batch_id)) (sym batches) ∙ open_,
    claimed,
    after ∙ ap (insert key job) jobs,
  )

  claim_loop-Ends :
      (turns : ℕ) (picker : PickerState F) (h : Hybrid (Db C))
      → Same C owner until now start h.db
      → Ends (claim_loop (durable C busy) F settings model owner until now turns picker h)
  unfolding claim_loop
  claim_loop-Ends zero picker h same = same
  claim_loop-Ends (suc turns) picker h same =
      let proposal = propose F settings model picker now h.index in
      split_option Ends proposal.1.0 (λ _. same)
        λ choice _.
          go choice proposal (claim_by_id C busy choice.job_id owner until now h.db)
            (claim_by_id-Step C owner until now h.db choice.job_id (still h.db same) busy)
            (λ t kept.
              claim_loop-Ends turns picker
                (record h { db = t; index = remove choice.job_id proposal.0 }) kept)
    where
      joined : (t : Db C) → Same C owner until now h.db t → Same C owner until now start t
      joined t (jobs, batches) = (jobs ∙ same.0, batches ∙ same.1)

      go :
          (choice : Candidate) (proposal : Index × (Option Candidate × PickerState F))
          (claim : Result (Option Job) × Db C)
          → Step C owner until now h.db claim
          → ((t : Db C)
              → Same C owner until now start t
              → Ends (
                  claim_loop
                    (durable C busy)
                    F
                    settings
                    model
                    owner
                    until
                    now
                    turns
                    picker
                    (record h { db = t; index = remove choice.job_id proposal.0 })))
          → Ends (elim claim.0 [
            | err e ↦ (err e, record h { db = claim.1; index = proposal.0 })
            | ok none ↦
                claim_loop
                  (durable C busy)
                  F
                  settings
                  model
                  owner
                  until
                  now
                  turns
                  picker
                  (record h { db = claim.1; index = remove choice.job_id proposal.0 })
            | ok (some job) ↦ (
              ok (some job, proposal.1.1),
              record h { db = claim.1; index = remove choice.job_id proposal.0 },
            )
          ])
      go choice proposal (err e, t) step rest = joined t step
      go choice proposal (ok none, t) step rest = rest t (joined t step)
      go choice proposal (ok (some job), t) step rest = took h.db job t same step

  reconciled-db :
      (mono : ℕ) (h : Hybrid (Db C)) → (maybe_reconcile (durable C busy) mono h).1.db ≡ h.db
  unfolding maybe_reconcile reconcile relist_ready
  reconciled-db mono h =
      split_if P (nat_eqb h.interval 0) (λ _. refl)
        λ _.
          split_if P (ltb (mono - h.reconciled_at) h.interval) (λ _. refl)
            λ _. split_result P (Read.ready_candidates C h.db) (λ e. refl) (λ cs. refl)
    where
      P : Result ℕ × Hybrid (Db C) → Type 0
      P r = r.1.db ≡ h.db

module _ (C : Codec) (busy : ℕ → Bool) (F : Float) (settings : Weights F) (model owner : String)
    (until now : ℕ) (h : Hybrid (Db C)) (distinct : Distinct (ids_of C h.db.jobs)) where
  -- Over the durable queue, with distinct job ids, whatever its index holds, `claim_next` of the hybrid
  -- queue returns a job only if that job could be claimed in the tables as they were; it is the job as
  -- the claim changed it, which is now in the tables, and no other job has changed. Where it returns no
  -- job or raises, no job has changed.
  pub claim_next-Ends :
      (mono : ℕ) (picker : PickerState F)
      → Ends C busy F settings model owner until now h.db distinct
          (claim_next (durable C busy) F settings model owner until now mono picker h)
  unfolding claim_next
  claim_next-Ends mono picker =
      go (maybe_reconcile (durable C busy) mono h)
        (reconciled-db C busy F settings model owner until now h.db distinct mono h)
    where
      go :
          (r : Result ℕ × Hybrid (Db C))
          → r.1.db ≡ h.db
          → Ends C busy F settings model owner until now h.db distinct
              (when_reconciled (durable C busy) F settings model owner until now picker r)
      go (err e, t) same =
          (ap (λ (d : Db C). jobs_dict C d.jobs) same, ap (λ (d : Db C). d.batches) same)
      go (ok n, t) same =
          claim_loop-Ends C busy F settings model owner until now h.db distinct 64 picker t
            (ap (λ (d : Db C). jobs_dict C d.jobs) same, ap (λ (d : Db C). d.batches) same)
